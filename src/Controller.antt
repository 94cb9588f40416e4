-- ===== src/Controller.antt =====
-- internal/controller: what the three reconcilers share.
pub mod Extract
pub mod Cycles
pub mod Reconcile
pub mod Reconcilers
use cascader.Common.{ℤ, Text, Bool, true, false, none, some}
use cascader.Kinds.{AnnotationKindMap}
use cascader.Objects.{Annotations}
use cascader.Dict.{lookup}

-- BaseReconciler, less the handles that are parameters of the operations.
pub record BaseReconciler : Type 0 where
  pub annotation_kind_map : AnnotationKindMap
  pub last_observed_restart_annotation : Text
  pub requeue_after_annotation : Text
  pub requeue_after_default : ℤ  -- nanoseconds

-- utils.go: hasAnnotation
unfoldable pub has_annotation : Annotations → Text → Bool
has_annotation none key = false
has_annotation (some m) key = elim (lookup key m) [ none ↦ false | some _ ↦ true ]
