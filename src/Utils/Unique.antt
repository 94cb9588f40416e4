-- ===== src/Utils/Unique.antt =====
-- internal/utils/helper.go: UniqueAnnotations, and lists without a repeated value.
use mathlib.Core.List.Memᴰ
use cascader.Common.{
  Memᴰ-cons, ◌≡◌, refl, ◌≢◌, ◌↔◌, inl, inr, Text, none, Option-cases, List, [], ◌∷◌, Memᴰ, map,
  arith, text_eq_iff,
}
use cascader.Errors.{ok}
use cascader.Dict.{Dict, lookup, insert}
use cascader.Dict.Laws.{lookup-insert}
use cascader.Utils.{check_unique, unique_annotations}

abbrev pub values : Dict Text → List Text
values = map (λ (_, v). v)

-- No value is repeated.
abbrev pub AllDistinct : List Text → Type 0
AllDistinct [] = Unit
AllDistinct (v ∷ vs) = (¬ Memᴰ v vs) × AllDistinct vs

-- No value has been seen.
abbrev Unseen : Dict Text → List Text → Type 0
Unseen seen [] = Unit
Unseen seen (v ∷ vs) = (lookup v seen ≡ none) × Unseen seen vs

-- Having seen one value more.
Unseen-insert :
    (seen : Dict Text) (k v : Text) (vs : List Text)
    → Unseen (insert v k seen) vs ↔ (Unseen seen vs × ¬ Memᴰ v vs)
Unseen-insert seen k v [] = (λ _. (tt, Memᴰ.not-nil), λ _. tt)
Unseen-insert seen k v (u ∷ vs) =
    ground (
      arith,
      lookup-insert v u k seen,
      text_eq_iff v u,
      Unseen-insert seen k v vs,
      Memᴰ-cons v u vs,
    )

none_seen : (vs : List Text) → Unseen [] vs
unfolding lookup
none_seen [] = tt
none_seen (v ∷ vs) = (refl, none_seen vs)

check_unique_iff :
    (seen m : Dict Text)
    → (check_unique seen m ≡ ok tt) ↔ (Unseen seen (values m) × AllDistinct (values m))
unfolding check_unique
check_unique_iff seen [] = (λ _. (tt, tt), λ _. refl)
check_unique_iff seen ((k, v) ∷ m) = elim (Option-cases (lookup v seen)) [
  | inr (k', e) ↦ (λ h. absurd (ground arith), λ (u, _). absurd (ground arith))
  | inl e ↦ ground (arith, check_unique_iff (insert v k seen) m, Unseen-insert seen k v (values m))
]

-- UniqueAnnotations returns no error exactly for the maps that have an entry and no two entries
-- with the same value.
pub unique_annotations_iff :
    (m : Dict Text) → (unique_annotations m ≡ ok tt) ↔ ((m ≢ []) × AllDistinct (values m))
unfolding unique_annotations
unique_annotations_iff [] = (λ h. cc, λ (nonempty, _). absurd (nonempty refl))
unique_annotations_iff ((k, v) ∷ rest) =
    let m = (k, v) ∷ rest in
    let (distinct_of, ok_of) = check_unique_iff [] m in
    (λ h. (λ e. cc, (distinct_of h).1), λ (_, distinct). ok_of (none_seen (values m), distinct))
