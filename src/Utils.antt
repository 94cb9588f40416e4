-- ===== src/Utils.antt =====
-- internal/utils/helper.go: target references, identifiers and the checks of the configured
-- annotations. The patch helpers are in `Patches`.
pub mod Refs
pub mod Patches
pub mod Unique
pub mod Formats
use cascader.Common.{ℕ, Text, List, [], ◌∷◌, ◌++◌, none, some}
use cascader.Errors.{Result, ok, err, no_annotations, duplicate_annotation, invalid_format}
use cascader.Strings.{split}
use cascader.Dict.{Dict, lookup, insert}
use cascader.Kinds.{Kind}

-- '/'
abbrev pub slash : ℕ
slash = b'/'

ref_of_parts : Text → Text → List Text → Result (Text × Text)
ref_of_parts ref default_ns (name ∷ []) = ok (default_ns, name)
ref_of_parts ref default_ns (namespace ∷ name ∷ []) = ok (namespace, name)
ref_of_parts ref default_ns _ = err (invalid_format ref)

-- The namespace and the name.
unfoldable pub parse_target_ref : Text → Text → Result (Text × Text)
unfolding ref_of_parts
parse_target_ref ref default_ns = ref_of_parts ref default_ns (split slash ref)

unfoldable pub generate_id : Kind → Text → Text → Text
generate_id kind namespace name = kind ++ (slash ∷ (namespace ++ (slash ∷ name)))

-- The loop of UniqueAnnotations over the entries left; `seen` maps values to keys.
check_unique : Dict Text → Dict Text → Result (Unit {0})
check_unique seen [] = ok tt
check_unique seen ((k, v) ∷ rest) = elim (lookup v seen) [
  | some dup_key ↦ err (duplicate_annotation v dup_key k)
  | none ↦ check_unique (insert v k seen) rest
]

unfoldable pub unique_annotations : Dict Text → Result (Unit {0})
unfolding check_unique
unique_annotations [] = err no_annotations
unique_annotations (entry ∷ rest) = check_unique [] (entry ∷ rest)
