-- ===== src/Controller/Cycles/Graph.antt =====
-- The dependency graph of a cluster, independently of how it is searched.
use mathlib.Core.List.Memᴰ
use cascader.Common.{
  suc, ◌≤◌, ◌≡◌, refl, ap, sym, ◌∙◌, subst, append-nil, ◌⊎◌, inl, inr, ⊎_elim, Text, List, [], ◌∷◌,
  ◌++◌, map, Memᴰ, arith, length, append_assoc,
}
use cascader.Errors.{ok}
use cascader.Client.{Client}
use cascader.Targets.{Target, target_id}
use cascader.Controller.{BaseReconciler}
use cascader.Controller.Cycles.{dependencies}

module _ (b : BaseReconciler) (c : Client) (s : c.State) where
  -- The object of `t` names `u` in its annotations.
  abbrev pub Edge : Target → Target → Type 0
  Edge t u = (ds : List Target) × (dependencies b c s t ≡ ok ds) × Memᴰ u ds

  -- From `t` through the list, along edges.
  abbrev pub IsWalk : Target → List Target → Type 0
  IsWalk t [] = Unit
  IsWalk t (u ∷ us) = Edge t u × IsWalk u us

-- Where the walk ends.
abbrev pub end_of : Target → List Target → Target
end_of t [] = t
end_of t (u ∷ us) = end_of u us

abbrev pub ids : List Target → List Text
ids = map target_id

-- No text occurs twice.
abbrev pub Distinct : List Text → Type 0
Distinct [] = Unit
Distinct (x ∷ xs) = (¬ Memᴰ x xs) × Distinct xs

-- The last text occurs earlier.
abbrev pub ClosesUp : List Text → Type 0
ClosesUp xs = (front : List Text) × (last : Text) × (xs ≡ front ++ last ∷ []) × Memᴰ last front

-- Each text is neither in the path nor earlier in the list.
abbrev pub Fresh : List Text → List Text → Type 0
Fresh path [] = Unit
Fresh path (x ∷ xs) = (¬ Memᴰ x path) × Fresh (path ++ x ∷ []) xs

pub Distinct-concat :
    (path : List Text) (x : Text) → ¬ Memᴰ x path → Distinct path → Distinct (path ++ x ∷ [])
Distinct-concat [] x _ _ = (Memᴰ.not-nil, tt)
Distinct-concat (y ∷ path) x new (hy, h) = (
  λ m.
      ⊎_elim hy (λ last. new (Memᴰ.head (sym (Memᴰ.eq_of_singleton last))))
        (Memᴰ.append_cases path m),
  Distinct-concat path x (λ m. new (Memᴰ.tail m)) h,
)

pub Distinct-append : (path xs : List Text) → Distinct path → Fresh path xs → Distinct (path ++ xs)
Distinct-append path [] d _ = subst Distinct (sym (append-nil path)) d
Distinct-append path (x ∷ xs) d (new, fresh) =
    subst Distinct (append_assoc path (x ∷ []) xs)
      (Distinct-append (path ++ x ∷ []) xs (Distinct-concat path x new d) fresh)

-- What is left of a list without one of its members.
without :
    (x : Text) (ys : List Text)
    → Memᴰ x ys
    → (zs : List Text) × (length ys ≡ suc (length zs))
      × ((a : Text) → Memᴰ a ys → (a ≡ x) ⊎ Memᴰ a zs)
without x [] m = absurd (Memᴰ.not-nil m)
without x (y ∷ ys) m = elim (Memᴰ.cases_cons m) [
  | inl e ↦ (ys, refl, λ a k. ⊎_elim (λ e'. inl (e' ∙ sym e)) inr (Memᴰ.cases_cons k))
  | inr later ↦
      let (zs, size, rest) = without x ys later in
      (
        y ∷ zs,
        ap suc size,
        λ a k.
            ⊎_elim (λ e'. inr (Memᴰ.head e'))
              (λ k'. ⊎_elim inl (λ z. inr (Memᴰ.tail z)) (rest a k')) (Memᴰ.cases_cons k),
      )
]

-- Distinct texts out of a list are at most as many as its items.
pub Distinct-length_le :
    (xs ys : List Text) → Distinct xs → ((a : Text) → Memᴰ a xs → Memᴰ a ys) → length xs ≤ length ys
Distinct-length_le [] ys _ _ = omega arith
Distinct-length_le (x ∷ xs) ys (new, d) sub =
    let (zs, size, rest) = without x ys (sub x (Memᴰ.head refl)) in
    let bound = Distinct-length_le xs zs d (λ a m.
      ⊎_elim (λ e. absurd (new (Memᴰ.cast (sym e) m))) (λ z. z) (rest a (sub a (Memᴰ.tail m)))) in
    omega arith

pub Distinct-not_ClosesUp : (xs : List Text) → Distinct xs → ¬ ClosesUp xs
Distinct-not_ClosesUp xs d (front, last, e, m) = no_repeat front last (subst Distinct e d) m
  where
    no_repeat :
        (front : List Text) (last : Text) → Distinct (front ++ last ∷ []) → ¬ Memᴰ last front
    no_repeat [] last _ m = Memᴰ.not-nil m
    no_repeat (x ∷ front) last (new, d') m = elim (Memᴰ.cases_cons m) [
      | inl same ↦ new (Memᴰ.append_right front (Memᴰ.head (sym same)))
      | inr later ↦ no_repeat front last d' later
    ]
