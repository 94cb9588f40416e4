-- ===== src/Strings/Sort.antt =====
-- Go's sort.Strings. Go compares the bytes of two strings, which for UTF-8 is the order of their
-- code points. Equal strings cannot be told apart, so which algorithm sorts them does not show.
use mathlib.Core.List.{Permᴰ}
use mathlib.Core.List.Permᴰ
use cascader.Common.{
  ◌≡◌, refl, sym, ap, subst, ◌∙◌, inl, inr, Bool, true, false, ◌&&◌, ◌||◌, Text, List, [], ◌∷◌, ltb,
  ◌==◌, arith, if◌then◌else◌, Bool-cases,
}

unfoldable pub text_leb : Text → Text → Bool
text_leb [] t = true
text_leb (c ∷ s) [] = false
text_leb (c ∷ s) (d ∷ t) = ltb c d || (c == d && text_leb s t)

unfoldable pub insert_sorted : Text → List Text → List Text
insert_sorted t [] = t ∷ []
insert_sorted t (u ∷ us) =
    let rest = insert_sorted t us in if text_leb t u then t ∷ u ∷ us else u ∷ rest

unfoldable pub sort : List Text → List Text
unfolding insert_sorted
sort [] = []
sort (t ∷ ts) = insert_sorted t (sort ts)

text_leb_antisym : (s t : Text) → text_leb s t ≡ true → text_leb t s ≡ true → s ≡ t
unfolding text_leb
text_leb_antisym [] [] h k = refl
text_leb_antisym [] (d ∷ t) h k = absurd (cc)
text_leb_antisym (c ∷ s) [] h k = absurd (cc)
text_leb_antisym (c ∷ s) (d ∷ t) h k =
    let same : c ≡ d = ground arith in
    let rest : s ≡ t = text_leb_antisym s t (ground arith) (ground arith) in λ i. same i ∷ rest i

text_leb_total : (s t : Text) → text_leb s t ≡ false → text_leb t s ≡ true
unfolding text_leb
text_leb_total [] t h = absurd (cc)
text_leb_total (c ∷ s) [] h = refl
text_leb_total (c ∷ s) (d ∷ t) h = ground (arith, text_leb_total s t)

text_leb_trans : (s t u : Text) → text_leb s t ≡ true → text_leb t u ≡ true → text_leb s u ≡ true
unfolding text_leb
text_leb_trans [] t u h k = refl
text_leb_trans (c ∷ s) [] u h k = absurd (cc)
text_leb_trans (c ∷ s) (d ∷ t) [] h k = absurd (cc)
text_leb_trans (c ∷ s) (d ∷ t) (e ∷ u) h k = ground (arith, text_leb_trans s t u)

insert_sorted_le :
    (s t : Text) (us : List Text) → text_leb s t ≡ true → insert_sorted s (t ∷ us) ≡ s ∷ t ∷ us
unfolding insert_sorted
insert_sorted_le s t us h = rw (h, insert_sorted) refl

insert_sorted_gt :
    (s t : Text) (us : List Text)
    → text_leb s t ≡ false
    → insert_sorted s (t ∷ us) ≡ t ∷ insert_sorted s us
unfolding insert_sorted
insert_sorted_gt s t us h = rw (h, insert_sorted) refl

-- The two at the front of the rest.
insert_sorted-front :
    (s t : Text) (us : List Text)
    → text_leb s t ≡ true
    → insert_sorted t us ≡ t ∷ us
    → insert_sorted s us ≡ s ∷ us
    → insert_sorted s (insert_sorted t us) ≡ insert_sorted t (insert_sorted s us)
insert_sorted-front s t us h at_t at_s = elim (Bool-cases (text_leb t s)) [
  | inl back ↦
      let same = text_leb_antisym s t h back in
      λ i. insert_sorted (same i) (insert_sorted (sym same i) us)
  | inr apart ↦
      ap (insert_sorted s) at_t
      ∙ insert_sorted_le s t us h
      ∙ sym (ap (insert_sorted t) at_s ∙ insert_sorted_gt t s us apart ∙ ap (λ l. s ∷ l) at_t)
]

-- One in front, the other further back.
insert_sorted-apart :
    (s t u : Text) (us : List Text)
    → text_leb s u ≡ true
    → text_leb t u ≡ false
    → insert_sorted s (insert_sorted t (u ∷ us)) ≡ insert_sorted t (insert_sorted s (u ∷ us))
insert_sorted-apart s t u us h k =
    let apart : text_leb t s ≡ false = ground (arith, text_leb_trans t s u) in
    ap (insert_sorted s) (insert_sorted_gt t u us k)
    ∙ insert_sorted_le s u (insert_sorted t us) h
    ∙ sym (
        ap (insert_sorted t) (insert_sorted_le s u us h)
        ∙ insert_sorted_gt t s (u ∷ us) apart
        ∙ ap (λ l. s ∷ l) (insert_sorted_gt t u us k))

insert_sorted-between :
    (s t u : Text) (us : List Text)
    → text_leb s u ≡ true
    → text_leb t u ≡ true
    → insert_sorted s (insert_sorted t (u ∷ us)) ≡ insert_sorted t (insert_sorted s (u ∷ us))
insert_sorted-between s t u us h k =
    let at_s = insert_sorted_le s u us h in
    let at_t = insert_sorted_le t u us k in
    elim (Bool-cases (text_leb s t)) [
      | inl first ↦ insert_sorted-front s t (u ∷ us) first at_t at_s
      | inr first ↦ sym (insert_sorted-front t s (u ∷ us) (text_leb_total s t first) at_s at_t)
    ]

insert_sorted_comm :
    (s t : Text) (us : List Text)
    → insert_sorted s (insert_sorted t us) ≡ insert_sorted t (insert_sorted s us)
unfolding insert_sorted
insert_sorted_comm s t [] = elim (Bool-cases (text_leb s t)) [
  | inl h ↦ insert_sorted-front s t [] h refl refl
  | inr h ↦ sym (insert_sorted-front t s [] (text_leb_total s t h) refl refl)
]
insert_sorted_comm s t (u ∷ us) = elim (Bool-cases (text_leb s u)) [
  | inl h ↦ elim (Bool-cases (text_leb t u)) [
    | inl k ↦ insert_sorted-between s t u us h k
    | inr k ↦ insert_sorted-apart s t u us h k
  ]
  | inr h ↦ elim (Bool-cases (text_leb t u)) [
    | inl k ↦ sym (insert_sorted-apart t s u us k h)
    | inr k ↦
        ap (insert_sorted s) (insert_sorted_gt t u us k)
        ∙ insert_sorted_gt s u (insert_sorted t us) h
        ∙ ap (λ l. u ∷ l) (insert_sorted_comm s t us)
        ∙ sym (
            ap (insert_sorted t) (insert_sorted_gt s u us h)
            ∙ insert_sorted_gt t u (insert_sorted s us) k)
  ]
]

pub sort-Permᴰ : {ts us : List Text} → Permᴰ ts us → sort ts ≡ sort us
unfolding sort
sort-Permᴰ Permᴰ.nil = refl
sort-Permᴰ (Permᴰ.cons {l₁ = l₁} e p) = λ i. insert_sorted (e i) (sort-Permᴰ p i)
sort-Permᴰ (Permᴰ.swap {a} {b} {a'} {b'} {l} e f) =
    (λ i. insert_sorted (e i) (insert_sorted (f i) (sort l))) ∙ insert_sorted_comm b' a' (sort l)
sort-Permᴰ (Permᴰ.trans p q) = sort-Permᴰ p ∙ sort-Permᴰ q

-- Each is in front of the next.
abbrev pub IsSorted : List Text → Type 0
IsSorted [] = Unit
IsSorted (t ∷ []) = Unit
IsSorted (t ∷ u ∷ us) = (text_leb t u ≡ true) × IsSorted (u ∷ us)

pub sort-IsSorted_id : (ts : List Text) → IsSorted ts → sort ts ≡ ts
unfolding sort insert_sorted
sort-IsSorted_id [] _ = refl
sort-IsSorted_id (t ∷ []) _ = refl
sort-IsSorted_id (t ∷ u ∷ us) (h, rest) =
    ap (insert_sorted t) (sort-IsSorted_id (u ∷ us) rest) ∙ insert_sorted_le t u us h

insert_sorted-IsSorted :
    (t u : Text) (us : List Text)
    → text_leb u t ≡ true
    → IsSorted (u ∷ us)
    → IsSorted (u ∷ insert_sorted t us)
unfolding insert_sorted
insert_sorted-IsSorted t u [] h _ = (h, tt)
insert_sorted-IsSorted t u (v ∷ vs) h (k, rest) = elim (Bool-cases (text_leb t v)) [
  | inl before ↦
      subst (λ l. IsSorted (u ∷ l)) (sym (insert_sorted_le t v vs before)) (h, (before, rest))
  | inr after ↦
      subst (λ l. IsSorted (u ∷ l)) (sym (insert_sorted_gt t v vs after))
        (k, insert_sorted-IsSorted t v vs (text_leb_total t v after) rest)
]

insert-IsSorted : (t : Text) (us : List Text) → IsSorted us → IsSorted (insert_sorted t us)
unfolding insert_sorted
insert-IsSorted t [] _ = tt
insert-IsSorted t (u ∷ us) h = elim (Bool-cases (text_leb t u)) [
  | inl before ↦ subst IsSorted (sym (insert_sorted_le t u us before)) (before, h)
  | inr after ↦
      subst IsSorted (sym (insert_sorted_gt t u us after))
        (insert_sorted-IsSorted t u us (text_leb_total t u after) h)
]

pub sort-IsSorted : (ts : List Text) → IsSorted (sort ts)
unfolding sort
sort-IsSorted [] = tt
sort-IsSorted (t ∷ ts) = insert-IsSorted t (sort ts) (sort-IsSorted ts)

insert_sorted-cons : (t : Text) (us : List Text) → Permᴰ (insert_sorted t us) (t ∷ us)
unfolding insert_sorted
insert_sorted-cons t [] = Permᴰ.refl (t ∷ [])
insert_sorted-cons t (u ∷ us) = elim (Bool-cases (text_leb t u)) [
  | inl before ↦
      subst (λ l. Permᴰ l (t ∷ u ∷ us)) (sym (insert_sorted_le t u us before))
        (Permᴰ.refl (t ∷ u ∷ us))
  | inr after ↦
      subst (λ l. Permᴰ l (t ∷ u ∷ us)) (sym (insert_sorted_gt t u us after))
        (Permᴰ.trans (Permᴰ.cons refl (insert_sorted-cons t us)) (Permᴰ.swap refl refl))
]

pub sort_perm : (ts : List Text) → Permᴰ (sort ts) ts
unfolding sort
sort_perm [] = Permᴰ.nil
sort_perm (t ∷ ts) = Permᴰ.trans (insert_sorted-cons t (sort ts)) (Permᴰ.cons refl (sort_perm ts))
