-- ===== src/Utils/Formats.antt =====
-- internal/utils/helper.go: FormatAnnotations and ToCacheOptions.
use mathlib.Core.List.{Permᴰ}
use mathlib.Core.List.Permᴰ
use mathlib.Core.List.Memᴰ
use cascader.Common.{
  ◌≡◌, refl, ap, ◌↔◌, ◌⊎◌, inl, inr, ◌≢◌, Text, codes, Option, none, some, List, [], ◌∷◌, ◌++◌,
  Memᴰ, map, arith, text_eq_iff, Memᴰ-cons,
}
use cascader.Dict.{Dict, lookup, insert}
use cascader.Dict.Laws.{lookup-insert}
use cascader.Strings.{join}
use cascader.Strings.Sort.{sort, IsSorted, sort-Permᴰ, sort-IsSorted, sort_perm}

-- "%s=%s"
abbrev pub entry_text : Text × Text → Text
entry_text (key, val) = key ++ (61 ∷ val)

unfoldable pub format_annotations : Dict Text → Text
format_annotations annotations = join (codes ", ") (sort (map entry_text annotations))

-- FormatAnnotations does not depend on the order in which the map is iterated over: it joins the
-- texts of the entries in the one sorted order that they have.
pub format_annotations_sorts :
    (m : Dict Text)
    → ((m' : Dict Text) → Permᴰ m m' → format_annotations m' ≡ format_annotations m)
      × ((ts : List Text) × IsSorted ts
          × Permᴰ ts (map entry_text m)
          × (format_annotations m ≡ join (codes ", ") ts))
unfolding format_annotations
format_annotations_sorts m = (
  λ m' p. ap (join (codes ", ")) (sort-Permᴰ (Permᴰ.symm (Permᴰ.map entry_text p))),
  (sort (map entry_text m), sort-IsSorted (map entry_text m), sort_perm (map entry_text m), refl),
)

-- cache.Config{}
pub data CacheConfig : Type 0 where
  default_config : CacheConfig

-- cache.Options, of which one field is set
pub record CacheOptions : Type 0 where
  pub default_namespaces : Option (Dict CacheConfig)

-- The loop over the namespaces.
unfoldable pub add_namespaces : List Text → Dict CacheConfig → Dict CacheConfig
add_namespaces [] ns_map = ns_map
add_namespaces (ns ∷ rest) ns_map = add_namespaces rest (insert ns default_config ns_map)

unfoldable pub to_cache_options : List Text → CacheOptions
to_cache_options [] = record { default_namespaces = none }
to_cache_options (ns ∷ rest) = record { default_namespaces = some (add_namespaces (ns ∷ rest) []) }

-- What controller-runtime documents of the field: nil is every namespace.
abbrev pub Watches : CacheOptions → Text → Type 0
Watches opts ns = elim opts.default_namespaces [ none ↦ Unit | some m ↦ lookup ns m ≢ none ]

lookup-add_namespaces :
    (names : List Text) (m : Dict CacheConfig) (ns : Text)
    → (lookup ns (add_namespaces names m) ≢ none) ↔ (Memᴰ ns names ⊎ (lookup ns m ≢ none))
unfolding add_namespaces
lookup-add_namespaces [] m ns =
    (λ h. inr h, λ h. elim h [ inl a ↦ absurd (Memᴰ.not-nil a) | inr b ↦ b ])
lookup-add_namespaces (name ∷ names) m ns = ground (
  arith,
  text_eq_iff name ns,
  lookup-add_namespaces names (insert name default_config m) ns,
  lookup-insert name ns default_config m,
  Memᴰ-cons ns name names,
)

-- The cache watches every namespace if none is given, and exactly the given ones otherwise.
pub to_cache_options_iff :
    (names : List Text) (ns : Text)
    → Watches (to_cache_options names) ns ↔ ((names ≡ []) ⊎ Memᴰ ns names)
unfolding to_cache_options lookup
to_cache_options_iff [] ns = (λ _. inl refl, λ _. tt)
to_cache_options_iff (name ∷ names) ns =
    let added = lookup-add_namespaces (name ∷ names) [] ns in
    (
      λ h. elim (added.0 h) [ inl m ↦ inr m | inr none_there ↦ absurd (none_there refl) ],
      λ h. elim h [ inl e ↦ absurd (cc) | inr m ↦ added.1 (inl m) ],
    )
