-- ===== src/Targets.antt =====
-- internal/targets: the Target interface, its three implementations and NewTarget.
pub mod Ids
use cascader.Common.{Text, Option, none, some, text_eq, if◌then◌else◌}
use cascader.Errors.{
  Error, Result, ok, err, invalid_reference, unsupported_target_kind, fetch_target_failed,
  patch_target_failed,
}
use cascader.Kinds.{Kind, deployment_kind, stateful_set_kind, daemon_set_kind}
use cascader.Flags.{last_observed_restart_annotation}
use cascader.Objects.{Deployment, StatefulSet, DaemonSet, ObjectMeta}
use cascader.Client.{Client, Resource}
use cascader.Utils.{parse_target_ref, generate_id}
use cascader.Utils.Patches.{Annotated, patch_pod_template_annotation}

-- Namespace and name.
pub data Target : Type 0 where
  deployment_target : Text → Text → Target
  stateful_set_target : Text → Text → Target
  daemon_set_target : Text → Text → Target

unfoldable pub target_kind : Target → Kind
target_kind (deployment_target _ _) = deployment_kind
target_kind (stateful_set_target _ _) = stateful_set_kind
target_kind (daemon_set_target _ _) = daemon_set_kind

unfoldable pub target_namespace : Target → Text
target_namespace (deployment_target namespace _) = namespace
target_namespace (stateful_set_target namespace _) = namespace
target_namespace (daemon_set_target namespace _) = namespace

unfoldable pub target_name : Target → Text
target_name (deployment_target _ name) = name
target_name (stateful_set_target _ name) = name
target_name (daemon_set_target _ name) = name

-- ID
unfoldable pub target_id : Target → Text
unfolding target_kind target_namespace target_name
target_id t = generate_id (target_kind t) (target_namespace t) (target_name t)

-- The switch of NewTarget.
unfoldable pub target_of_kind : Kind → Text → Text → Result Target
target_of_kind kind namespace name =
    if text_eq kind deployment_kind
    then ok (deployment_target namespace name)
    else if text_eq kind stateful_set_kind
    then ok (stateful_set_target namespace name)
    else if text_eq kind daemon_set_kind
    then ok (daemon_set_target namespace name)
    else err (unsupported_target_kind kind)

-- `source_ns` is the namespace of the source object.
unfoldable pub new_target : Kind → Text → Text → Result Target
unfolding target_of_kind
new_target kind ref source_ns = elim (parse_target_ref ref source_ns) [
  | err e ↦ err (invalid_reference e)
  | ok (namespace, name) ↦ target_of_kind kind namespace name
]

-- The pod template's annotations in each type of object.
abbrev pub deployment_template : Annotated Deployment
deployment_template = record {
  get_annotations = λ d. d.template.annotations;
  set_annotations = λ m d. record d { template = record (d.template) { annotations = m } };
}

abbrev pub stateful_set_template : Annotated StatefulSet
stateful_set_template = record {
  get_annotations = λ d. d.template.annotations;
  set_annotations = λ m d. record d { template = record (d.template) { annotations = m } };
}

abbrev pub daemon_set_template : Annotated DaemonSet
daemon_set_template = record {
  get_annotations = λ d. d.template.annotations;
  set_annotations = λ m d. record d { template = record (d.template) { annotations = m } };
}

-- The body that the three Trigger methods share but for their types: fetch the object, and patch
-- the annotation in its pod template.
module _ (c : Client) {O : Type 0} (resource : Resource c.State O) (template : Annotated O) where
  unfoldable pub patch_restart : Kind → Text → Text → c.State → O → c.State × Option Error
  patch_restart kind namespace name s object =
      let (s', _, failure) =
        patch_pod_template_annotation resource template s object last_observed_restart_annotation
          (c.now s) in
      elim failure [
        | none ↦ (s', none)
        | some e ↦ (s', some (patch_target_failed kind namespace name e))
      ]

  unfoldable pub trigger_restart : Kind → Text → Text → c.State → c.State × Option Error
  unfolding patch_restart
  trigger_restart kind namespace name s = elim (resource.get s namespace name) [
    | err e ↦ (s, some (fetch_target_failed kind namespace name e))
    | ok object ↦ patch_restart kind namespace name s object
  ]

-- DeploymentTarget.Trigger
unfoldable pub deployment_trigger : (c : Client) → Text → Text → c.State → c.State × Option Error
unfolding trigger_restart
deployment_trigger c = trigger_restart c c.deployments deployment_template deployment_kind

-- StatefulSetTarget.Trigger
unfoldable pub stateful_set_trigger : (c : Client) → Text → Text → c.State → c.State × Option Error
unfolding trigger_restart
stateful_set_trigger c = trigger_restart c c.stateful_sets stateful_set_template stateful_set_kind

-- DaemonSetTarget.Trigger
unfoldable pub daemon_set_trigger : (c : Client) → Text → Text → c.State → c.State × Option Error
unfolding trigger_restart
daemon_set_trigger c = trigger_restart c c.daemon_sets daemon_set_template daemon_set_kind

-- The method of the interface.
unfoldable pub trigger : (c : Client) → Target → c.State → c.State × Option Error
trigger c (deployment_target namespace name) = deployment_trigger c namespace name
trigger c (stateful_set_target namespace name) = stateful_set_trigger c namespace name
trigger c (daemon_set_target namespace name) = daemon_set_trigger c namespace name

-- Get into Resource(), of which the callers read the metadata.
unfoldable pub fetch_meta : (c : Client) → c.State → Target → Result ObjectMeta
fetch_meta c s (deployment_target namespace name) = elim (c.deployments.get s namespace name) [
  | err e ↦ err e
  | ok object ↦ ok object.meta
]
fetch_meta c s (stateful_set_target namespace name) = elim (c.stateful_sets.get s namespace name) [
  | err e ↦ err e
  | ok object ↦ ok object.meta
]
fetch_meta c s (daemon_set_target namespace name) = elim (c.daemon_sets.get s namespace name) [
  | err e ↦ err e
  | ok object ↦ ok object.meta
]
