-- ===== src/App.antt =====
-- internal/app/run.go: what Run makes of the annotation keys of the flags before it starts the
-- manager. The rest of Run sets up controller-runtime.
pub mod Configured
pub mod Run
pub mod Plan
pub mod Endings
pub mod Operating
pub mod Exposure
use cascader.Common.{Text, codes, [], ◌∷◌}
use cascader.Flags.Options.{Options}
use cascader.Errors.{Result, ok, err}
use cascader.Dict.{Dict, insert}
use cascader.Kinds.{AnnotationKindMap, deployment_kind, stateful_set_kind, daemon_set_kind}
use cascader.Utils.{unique_annotations}
use cascader.Controller.{BaseReconciler}

abbrev pub configured_annotations : Options → Dict Text
configured_annotations flags =
    (codes "DaemonSet", flags.daemon_set_annotation)
    ∷ (codes "Deployment", flags.deployment_annotation)
    ∷ (codes "StatefulSet", flags.stateful_set_annotation)
    ∷ (codes "LastObservedRestart", flags.last_observed_restart_annotation)
    ∷ (codes "RequeueAfter", flags.requeue_after_annotation)
    ∷ []

-- The keys of the literal are not constants: a later entry takes the place of an equal one.
unfoldable pub annotation_kind_map : Options → AnnotationKindMap
annotation_kind_map flags = insert flags.stateful_set_annotation stateful_set_kind (
    insert flags.deployment_annotation deployment_kind
      (insert flags.daemon_set_annotation daemon_set_kind []))

-- The common part of the three reconcilers.
abbrev pub base_reconciler : Options → BaseReconciler
base_reconciler flags = record {
  annotation_kind_map = annotation_kind_map flags;
  last_observed_restart_annotation = flags.last_observed_restart_annotation;
  requeue_after_annotation = flags.requeue_after_annotation;
  requeue_after_default = flags.requeue_after_default;
}

-- That, or the error that ends Run.
unfoldable pub configure : Options → Result BaseReconciler
configure flags = elim (unique_annotations (configured_annotations flags)) [
  | err e ↦ err e
  | ok _ ↦ ok (base_reconciler flags)
]
