-- ===== src/Tests/Options.antt =====
-- A small parser of flags, and the options of a run. The arguments are names, each with its value.
use mathlib.Core.List.Memᴰ
use cascader.Common.{
  ℤ, pos, eqb_ℤ, eqb_ℤ_iff, ◌≡◌, refl, sym, subst, inl, inr, Text, codes, text_eq, text_eq_iff,
  contains, contains_iff, Bool, true, false, ◌&&◌, ◌||◌, Option, none, some, Bool-cases, List, [],
  ◌∷◌, Memᴰ, arith, if◌then◌else◌, or-true_iff, and-true_iff,
}
use cascader.Errors.{Error, Result, ok, err, flag_error}
use cascader.Flags.Options.{Options}
use cascader.Flags.Parse.{
  Flag, string_var, duration_var, bool_var, tcp_addr, FlagSet, Parsed, Parser, TcpAddr, flag_set,
  options_of, parse_args,
}
use cascader.Flags.Bounds.{IsParser}
use cascader.Logging.{setup_logger}
use cascader.Logging.Levels.{encoder_name, level_name, setup_logger-parse_args}

abbrev given : List Text → Text → Option Text
given [] name = none
given (n ∷ []) name = none
given (n ∷ v ∷ rest) name = if text_eq n name then some v else given rest name

abbrev string_initial : List Flag → Text → Text
string_initial [] name = []
string_initial (string_var n initial choices ∷ fs) name =
    if text_eq n name then initial else string_initial fs name
string_initial (_ ∷ fs) name = string_initial fs name

abbrev duration_initial : List Flag → Text → ℤ
duration_initial [] name = pos 0
duration_initial (duration_var n initial validate ∷ fs) name =
    if text_eq n name then initial else duration_initial fs name
duration_initial (_ ∷ fs) name = duration_initial fs name

abbrev bool_initial : List Flag → Text → Bool
bool_initial [] name = false
bool_initial (bool_var n initial is_strict ∷ fs) name =
    if text_eq n name then initial else bool_initial fs name
bool_initial (_ ∷ fs) name = bool_initial fs name

abbrev address_initial : List Flag → Text → TcpAddr
address_initial [] name = record { ip = []; port = 0 }
address_initial (tcp_addr n initial ∷ fs) name =
    if text_eq n name then initial else address_initial fs name
address_initial (_ ∷ fs) name = address_initial fs name

abbrev value_or : Text → Option Text → Text
value_or initial none = initial
value_or initial (some v) = v

-- Only texts can be given.
abbrev values : FlagSet → List Text → Parsed
values set args = record {
  strings = λ name. value_or (string_initial set.flags name) (given args name);
  durations = duration_initial set.flags;
  slices = λ name. [];
  bools = bool_initial set.flags;
  addresses = address_initial set.flags;
  overridden_values = [];
}

abbrev is_none : {A : Type 0} → Option A → Bool
is_none none = true
is_none (some _) = false

abbrev accepts : Parsed → Flag → Bool
accepts p (string_var name initial []) = true
accepts p (string_var name initial (choice ∷ choices)) =
    text_eq (p.strings name) initial || contains (choice ∷ choices) (p.strings name)
accepts p (duration_var name initial validate) =
    eqb_ℤ (p.durations name) initial || is_none (validate (p.durations name))
accepts p _ = true

abbrev accepts_all : Parsed → List Flag → Bool
accepts_all p [] = true
accepts_all p (f ∷ fs) = accepts p f && accepts_all p fs

abbrev pub parser : Parser
parser set args =
    let p = values set args in
    if accepts_all p set.flags then ok p else err (flag_error (codes "invalid value"))

accepts_all-Memᴰ :
    (p : Parsed) (fs : List Flag) (f : Flag)
    → accepts_all p fs ≡ true
    → Memᴰ f fs
    → accepts p f ≡ true
accepts_all-Memᴰ p [] f h m = absurd (Memᴰ.not-nil m)
accepts_all-Memᴰ p (g ∷ fs) f h m =
    let (first, rest) = (and-true_iff (accepts p g) (accepts_all p fs)).0 h in
    elim (Memᴰ.cases_cons m) [
      | inl e ↦ subst (λ x. accepts p x ≡ true) (sym e) first
      | inr later ↦ accepts_all-Memᴰ p fs f rest later
    ]

if_ok :
    (b : Bool) (p q : Parsed) (e : Error)
    → b ≡ true
    → ◌≡◌ {A = Result Parsed} (if b then ok p else err e) (ok q)
    → p ≡ q
if_ok true p q e h k = cc
if_ok false p q e h k = absurd (cc)

parser-accepts :
    (set : FlagSet) (args : List Text) (p : Parsed)
    → parser set args ≡ ok p
    → (f : Flag) → Memᴰ f set.flags
    → accepts p f ≡ true
parser-accepts set args p h f m = elim (Bool-cases (accepts_all (values set args) set.flags)) [
  | inl fits ↦
      let same : values set args ≡ p = if_ok _ (values set args) p _ fits h in
      subst (λ q. accepts q f ≡ true) same (accepts_all-Memᴰ (values set args) set.flags f fits m)
  | inr unfit ↦ absurd (ground arith)
]

is_none_lem : {A : Type 0} (o : Option A) → is_none o ≡ true → o ≡ none
is_none_lem none h = refl
is_none_lem (some a) h = absurd (cc)

pub parser-IsParser : IsParser parser
parser-IsParser = record {
  chosen = λ set args p h name initial choice choices m.
      let fits = parser-accepts set args p h (string_var name initial (choice ∷ choices)) m in
      elim ((or-true_iff (text_eq (p.strings name) initial)
          (contains (choice ∷ choices) (p.strings name))).0
        fits) [
          | inl e ↦ inl ((text_eq_iff (p.strings name) initial).0 e)
          | inr c ↦ inr ((contains_iff (choice ∷ choices) (p.strings name)).0 c)
        ];
  validated = λ set args p h name initial validate m.
      let fits = parser-accepts set args p h (duration_var name initial validate) m in
      elim ((or-true_iff (eqb_ℤ (p.durations name) initial)
          (is_none (validate (p.durations name)))).0
        fits) [
          | inl e ↦ inl ((eqb_ℤ_iff (p.durations name) initial).0 e)
          | inr c ↦ inr (is_none_lem (validate (p.durations name)) c)
        ];
}

abbrev pub version : Text
version = codes "1.0"

abbrev pub args : List Text
args = codes "log-encoder" ∷ codes "console" ∷ []

abbrev pub options : Options
options = options_of (values (flag_set version) args)

pub parsed : parse_args parser version args ≡ ok options
unfolding parse_args contains
parsed = refl

setup_logger-parse_args_example :
    (encoder_name (setup_logger options).encoder ≡ options.log_encoder)
    × (level_name (setup_logger options).stacktrace_level ≡ options.log_stacktrace_level)
setup_logger-parse_args_example =
    setup_logger-parse_args parser parser-IsParser version args options parsed
