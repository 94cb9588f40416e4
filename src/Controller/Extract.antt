-- ===== src/Controller/Extract.antt =====
-- internal/controller/base_reconciler.go: extractTargets and requeueDurationFor.
pub mod Members
pub mod Order
use cascader.Common.{
  ℕ, ℤ, Text, Bool, true, false, Option, none, some, List, [], ◌∷◌, ◌++◌, if◌then◌else◌,
}
use cascader.Errors.{Error, Result, ok, err, create_target_failed, invalid_requeue}
use cascader.Strings.{split, trim_space}
use cascader.Dict.{Dict, lookup}
use cascader.Kinds.{Kind, AnnotationKindMap}
use cascader.Objects.{Annotations}
use cascader.Targets.{Target, new_target}
use cascader.Controller.{BaseReconciler}

-- ','
abbrev pub comma : ℕ
comma = b','

unfoldable pub is_empty : Text → Bool
is_empty [] = true
is_empty (_ ∷ _) = false

-- `targetList = append(targetList, t)`: a list put in front of what the rest of the loop gives.
abbrev pub append_targets : List Target → Result (List Target) → Result (List Target)
append_targets ts (ok us) = ok (ts ++ us)
append_targets ts (err e) = err e

-- One target, ahead of the rest of the loop, which an error ends.
unfoldable pub add_target : Result Target → Result (List Target) → Result (List Target)
add_target (ok t) rest = append_targets (t ∷ []) rest
add_target (err e) rest = err (create_target_failed e)

-- The inner loop, over the references of one annotation.
unfoldable pub targets_of_refs : Kind → Text → List Text → Result (List Target)
unfolding add_target is_empty
targets_of_refs kind source_ns [] = ok []
targets_of_refs kind source_ns (ref ∷ refs) =
    let rest = targets_of_refs kind source_ns refs in
    let trimmed = trim_space ref in
    if is_empty trimmed then rest else add_target (new_target kind trimmed source_ns) rest

-- The body of the outer loop ahead of its rest.
unfoldable pub join_targets : Result (List Target) → Result (List Target) → Result (List Target)
join_targets (ok ts) rest = append_targets ts rest
join_targets (err e) rest = err e

-- The outer loop, over the annotation keys.
unfoldable pub targets_of_entries : Dict Text → Text → AnnotationKindMap → Result (List Target)
unfolding join_targets targets_of_refs
targets_of_entries annotations source_ns [] = ok []
targets_of_entries annotations source_ns ((key, kind) ∷ entries) =
    let rest = targets_of_entries annotations source_ns entries in
    elim (lookup key annotations) [
      | none ↦ rest
      | some val ↦ join_targets (targets_of_refs kind source_ns (split comma val)) rest
    ]

-- The source object comes as its namespace and its annotations.
unfoldable pub extract_targets : BaseReconciler → Text → Annotations → Result (List Target)
unfolding targets_of_entries
extract_targets b source_ns none = ok []
extract_targets b source_ns (some annotations) =
    targets_of_entries annotations source_ns b.annotation_kind_map

-- time.ParseDuration is the parameter `parse_duration`, in nanoseconds.
module _ (parse_duration : Text → Option ℤ) where
  -- The duration and the error, as the source returns both.
  unfoldable pub parsed_duration : BaseReconciler → Text → ℤ × Option Error
  parsed_duration b val = elim (parse_duration val) [
    | none ↦ (b.requeue_after_default, some (invalid_requeue val))
    | some dur ↦ (dur, none)
  ]

  unfoldable pub requeue_duration_for : BaseReconciler → Annotations → ℤ × Option Error
  unfolding parsed_duration is_empty
  requeue_duration_for b none = (b.requeue_after_default, none)
  requeue_duration_for b (some annotations) = elim (lookup b.requeue_after_annotation annotations) [
    | none ↦ (b.requeue_after_default, none)
    | some val ↦
        if is_empty (trim_space val) then (b.requeue_after_default, none) else parsed_duration b val
  ]
