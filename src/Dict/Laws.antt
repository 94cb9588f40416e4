-- ===== src/Dict/Laws.antt =====
-- What a map holds after each operation, whatever its order.
use cascader.Common.{
  ◌≡◌, refl, ◌↔◌, Memᴰ, Text, text_eq, text_eq_iff, none, some, [], ◌∷◌, arith, if◌then◌else◌,
  Memᴰ-cons, ◌≢◌,
}
use mathlib.Core.List.Memᴰ
use cascader.Dict.{Dict, lookup, insert, erase, keys}

module _ {ℓ} {V : Type ℓ} where
  pub lookup-insert :
      (k j : Text) (v : V) (m : Dict V)
      → lookup j (insert k v m) ≡ (if text_eq k j then some v else lookup j m)
  unfolding lookup insert
  lookup-insert k j v [] = refl
  lookup-insert k j v ((i, w) ∷ m) =
      ground (arith, text_eq_iff k j, text_eq_iff i k, text_eq_iff i j, lookup-insert k j v m)

  pub lookup-erase :
      (k j : Text) (m : Dict V) → lookup j (erase k m) ≡ (if text_eq k j then none else lookup j m)
  unfolding lookup erase
  lookup-erase k j [] = ground arith
  lookup-erase k j ((i, w) ∷ m) =
      ground (arith, text_eq_iff k j, text_eq_iff i k, text_eq_iff i j, lookup-erase k j m)

  pub mem-keys_iff : (k : Text) (m : Dict V) → Memᴰ k (keys m) ↔ (lookup k m ≢ none)
  unfolding lookup
  mem-keys_iff k [] = (λ h. absurd (Memᴰ.not-nil h), λ h. absurd (h refl))
  mem-keys_iff k ((j, v) ∷ m) =
      ground (arith, text_eq_iff j k, mem-keys_iff k m, Memᴰ-cons k j (keys m))
