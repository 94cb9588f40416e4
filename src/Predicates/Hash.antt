-- ===== src/Predicates/Hash.antt =====
-- internal/predicates/utils.go: the hash of a template. Go's hash/fnv (New64a) and the `%x` verb.
use Prim.Native.Nat.{bit_xor}
use mathlib.Core.List.{foldl}
use native.Mathlib.Nat.{pow-suc}
use cascader.Common.{
  ℕ, zero, suc, ◌+◌, ◌*◌, ◌/◌, ◌%◌, ◌^◌, ◌<◌, ◌≡◌, refl, ap, ◌∙◌, sym, Text, List, [], ◌∷◌, ◌++◌,
  arith, ltb, if◌then◌else◌, ◌-◌, Bool-cases, inl, inr, ltb→lt,
}

-- One byte of FNV-1a, in uint64.
abbrev mix : ℕ → ℕ → ℕ
mix h byte = bit_xor h byte * 1099511628211 % 2 ^ 64

-- h := fnv.New64a(); h.Write(data); h.Sum64()
unfoldable pub sum64a : List ℕ → ℕ
sum64a = foldl mix 14695981039346656037

abbrev digit : ℕ → ℕ
digit d = if ltb d 10 then b'0' + d else b'a' + (d - 10)

-- The digits of a number below 16 ^ (k + 1), without leading zeros.
hex_digits : ℕ → ℕ → Text
hex_digits zero n = digit n ∷ []
hex_digits (suc k) n =
    let more = hex_digits k (n / 16) in
    if ltb n 16 then digit n ∷ [] else more ++ digit (n % 16) ∷ []

-- fmt.Sprintf("%x", n) of a uint64
unfoldable pub hex : ℕ → Text
unfolding hex_digits
hex n = hex_digits 15 n

-- The number that hexadecimal digits spell behind `n`.
digit_value : ℕ → ℕ
digit_value d = if ltb d b'a' then d - b'0' else d - b'a' + 10

value : ℕ → Text → ℕ
value n [] = n
value n (d ∷ ds) = value (n * 16 + digit_value d) ds

value-concat :
    (n : ℕ) (ds : Text) (d : ℕ) → value n (ds ++ d ∷ []) ≡ value n ds * 16 + digit_value d
unfolding value
value-concat n [] d = refl
value-concat n (e ∷ ds) d = value-concat (n * 16 + digit_value e) ds d

digit_value-digit : (d : ℕ) → d < 16 → digit_value (digit d) ≡ d
unfolding digit_value
digit_value-digit d h = ground arith

value-hex_digits : (k n : ℕ) → n < 16 ^ suc k → value 0 (hex_digits k n) ≡ n
unfolding value hex_digits
value-hex_digits zero n h = omega (arith, digit_value-digit n)
value-hex_digits (suc k) n h = elim (Bool-cases (ltb n 16)) [
  | inl small ↦ rw small (omega (arith, digit_value-digit n, ltb→lt n 16 small))
  | inr big ↦
      let below : n / 16 < 16 ^ suc k = omega (arith, pow-suc 16 (suc k)) in
      rw (big, value-concat 0 (hex_digits k (n / 16)) (digit (n % 16)))
        (omega (arith, value-hex_digits k (n / 16) below, digit_value-digit (n % 16)))
]

-- Numbers of 64 bits that are printed alike are equal.
pub hex_inj : (m n : ℕ) → m < 2 ^ 64 → n < 2 ^ 64 → hex m ≡ hex n → m ≡ n
unfolding hex
hex_inj m n hm hn e = sym (value-hex_digits 15 m hm) ∙ ap (value 0) e ∙ value-hex_digits 15 n hn

foldl-mix-lt : (bytes : List ℕ) (h : ℕ) → h < 2 ^ 64 → foldl mix h bytes < 2 ^ 64
foldl-mix-lt [] h lt = lt
foldl-mix-lt (byte ∷ bytes) h _ = foldl-mix-lt bytes (mix h byte) (omega arith)

pub sum64a-lt : (bytes : List ℕ) → sum64a bytes < 2 ^ 64
unfolding sum64a
sum64a-lt bytes = foldl-mix-lt bytes _ (omega arith)
