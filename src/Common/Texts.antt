-- ===== src/Common/Texts.antt =====
-- Go strings as lists of code points, with Go's `==`. Annotation keys and values, names and
-- namespaces are valid UTF-8 in the Kubernetes API, so code points stand for the bytes.
use Prim.Native.Nat.{ℕ}
use Prim.Native.Char.{code}
use Prim.Native.String.{String}
use mathlib.Core.Path.{◌≡◌}
use mathlib.Core.Logic.{◌↔◌}
use mathlib.Core.Bool.{Bool, true, false, ◌&&◌, ◌||◌}
use mathlib.Core.List.{List, [], ◌∷◌, Memᴰ}
use mathlib.Core.List.Memᴰ
use native.Mathlib.Omega.{arith}
use cascader.Common.Tests.{◌==◌}
use cascader.Common.Lists.{Memᴰ-cons}

abbrev pub Text : Type 0
Text = List ℕ

-- A literal.
abbrev pub codes : String → Text
codes String.[] = []
codes (String.◌∷◌ c s) = code c ∷ codes s

abbrev pub text_eq : Text → Text → Bool
text_eq [] [] = true
text_eq [] (d ∷ t) = false
text_eq (c ∷ s) [] = false
text_eq (c ∷ s) (d ∷ t) = c == d && text_eq s t

pub text_eq_iff : (s t : Text) → (text_eq s t ≡ true) ↔ (s ≡ t)
text_eq_iff [] [] = ground arith
text_eq_iff [] (d ∷ t) = ground arith
text_eq_iff (c ∷ s) [] = ground arith
text_eq_iff (c ∷ s) (d ∷ t) = ground (arith, text_eq_iff s t)

-- slices.Contains on strings
unfoldable pub contains : List Text → Text → Bool
contains [] t = false
contains (s ∷ ss) t = text_eq s t || contains ss t

pub contains_iff : (ss : List Text) (t : Text) → (contains ss t ≡ true) ↔ Memᴰ t ss
unfolding contains
contains_iff [] t = (λ h. cc, λ m. absurd (Memᴰ.not-nil m))
contains_iff (s ∷ ss) t = ground (arith, text_eq_iff s t, contains_iff ss t, Memᴰ-cons t s ss)
