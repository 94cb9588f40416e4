-- ===== src/Workloads.antt =====
-- internal/workloads: the Workload interface and its three implementations. A reason is the label
-- of the source's format string with the values that it prints.
pub mod Stability
use cascader.Common.{
  ℤ, pos, Text, codes, Bool, true, false, none, some, List, [], ◌∷◌, ltb_ℤ, eqb_ℤ, not,
  if◌then◌else◌,
}
use cascader.Kinds.{Kind, deployment_kind, stateful_set_kind, daemon_set_kind}
use cascader.Objects.{ObjectMeta, Deployment, StatefulSet, DaemonSet}
use cascader.Utils.{generate_id}
use cascader.Utils.Patches.{Annotated}

pub data Reason : Type 0 where
  reason : Text → List (Text × ℤ) → Reason

-- `panics` is the nil dereference of `*Spec.Replicas`.
pub data Verdict : Type 0 where
  panics : Verdict
  verdict : Bool → Reason → Verdict

-- The methods of the interface that the controller calls.
pub record Workload (O : Type 0) : Type 0 where
  pub kind : Kind
  pub get_meta : O → ObjectMeta
  pub annotated : Annotated O
  pub stable : O → Verdict

-- ID
unfoldable pub workload_id : {O : Type 0} → Workload O → O → Text
workload_id w object = generate_id w.kind (w.get_meta object).namespace (w.get_meta object).name

-- "rollout in progress: observedGeneration=%d, generation=%d"
abbrev rollout : ℤ → ℤ → Verdict
rollout observed generation = verdict false (
    reason (codes "rollout in progress")
      ((codes "observedGeneration", observed) ∷ (codes "generation", generation) ∷ []))

abbrev scaled_to_zero : Verdict
scaled_to_zero = verdict true (reason (codes "scaled to zero replicas") [])

-- "not all replicas are updated: updated=%d, ready=%d, desired=%d"
abbrev not_updated : ℤ → ℤ → ℤ → Verdict
not_updated updated ready desired = verdict false (
    reason (codes "not all replicas are updated")
      ((codes "updated", updated) ∷ (codes "ready", ready) ∷ (codes "desired", desired) ∷ []))

-- "not enough ready replicas: ready=%d, desired=%d", and so for available replicas
abbrev not_enough : Text → Text → ℤ → ℤ → Verdict
not_enough message label actual desired =
    verdict false (reason message ((label, actual) ∷ (codes "desired", desired) ∷ []))

-- "workload is stable: ready=%d, desired=%d"
abbrev is_stable : ℤ → ℤ → Verdict
is_stable ready desired =
    verdict true (
      reason (codes "workload is stable")
        ((codes "ready", ready) ∷ (codes "desired", desired) ∷ []))

-- The unavailable replicas are printed under the label that the format string has.
abbrev unavailable_replicas : Text → ℤ → ℤ → ℤ → Verdict
unavailable_replicas label unavailable ready desired = verdict false (
    reason (codes "unavailable replicas")
      ((label, unavailable) ∷ (codes "ready", ready) ∷ (codes "desired", desired) ∷ []))

deployment_verdict : Deployment → ℤ → Verdict
deployment_verdict dep desired =
    if ltb_ℤ observed_generation generation
    then rollout observed_generation generation
    else if eqb_ℤ desired (pos 0)
    then scaled_to_zero
    else if ltb_ℤ (pos 0) unavailable
    then unavailable_replicas (codes "unavailable") unavailable ready desired
    else if not (eqb_ℤ updated desired)
    then not_updated updated ready desired
    else if not (eqb_ℤ ready desired)
    then not_enough (codes "not enough ready replicas") (codes "ready") ready desired
    else if not (eqb_ℤ available desired)
    then not_enough (codes "not enough available replicas") (codes "available") available desired
    else is_stable ready desired
  where
    open dep use {
      status.{
        observed_generation, updated_replicas as updated, ready_replicas as ready,
        available_replicas as available, unavailable_replicas as unavailable,
      },
      meta.{generation},
    }

-- DeploymentWorkload.Stable
unfoldable pub deployment_stable : Deployment → Verdict
unfolding deployment_verdict
deployment_stable dep = elim dep.replicas [
  | none ↦ panics
  | some desired ↦ deployment_verdict dep desired
]

stateful_set_verdict : StatefulSet → ℤ → Verdict
stateful_set_verdict sts desired =
    if ltb_ℤ observed_generation generation
    then rollout observed_generation generation
    else if eqb_ℤ desired (pos 0)
    then scaled_to_zero
    else if not (eqb_ℤ updated desired)
    then not_updated updated ready desired
    else if not (eqb_ℤ ready desired)
    then not_enough (codes "not enough ready replicas") (codes "ready") ready desired
    else is_stable ready desired
  where
    open sts use {
      status.{observed_generation, updated_replicas as updated, ready_replicas as ready},
      meta.{generation},
    }

-- StatefulSetWorkload.Stable
unfoldable pub stateful_set_stable : StatefulSet → Verdict
unfolding stateful_set_verdict
stateful_set_stable sts = elim sts.replicas [
  | none ↦ panics
  | some desired ↦ stateful_set_verdict sts desired
]

-- DaemonSetWorkload.Stable
unfoldable pub daemon_set_stable : DaemonSet → Verdict
daemon_set_stable ds =
    if ltb_ℤ observed_generation generation
    then rollout observed_generation generation
    else if eqb_ℤ desired (pos 0)
    then scaled_to_zero
    else if ltb_ℤ (pos 0) unavailable
    then unavailable_replicas (codes "available") unavailable ready desired
    else if not (eqb_ℤ updated desired)
    then not_updated updated ready desired
    else if not (eqb_ℤ ready desired)
    then not_enough (codes "not enough ready replicas") (codes "ready") ready desired
    else if not (eqb_ℤ available desired)
    then not_enough (codes "not enough available replicas") (codes "available") available desired
    else is_stable ready desired
  where
    open ds use {
      status.{
        observed_generation, desired_number_scheduled as desired,
        updated_number_scheduled as updated, number_ready as ready, number_available as available,
        number_unavailable as unavailable,
      },
      meta.{generation},
    }

abbrev pub deployment_workload : Workload Deployment
deployment_workload = record {
  kind = deployment_kind;
  get_meta = λ d. d.meta;
  annotated = record {
    get_annotations = λ d. d.meta.annotations;
    set_annotations = λ m d. record d { meta = record (d.meta) { annotations = m } };
  };
  stable = deployment_stable;
}

abbrev pub stateful_set_workload : Workload StatefulSet
stateful_set_workload = record {
  kind = stateful_set_kind;
  get_meta = λ d. d.meta;
  annotated = record {
    get_annotations = λ d. d.meta.annotations;
    set_annotations = λ m d. record d { meta = record (d.meta) { annotations = m } };
  };
  stable = stateful_set_stable;
}

abbrev pub daemon_set_workload : Workload DaemonSet
daemon_set_workload = record {
  kind = daemon_set_kind;
  get_meta = λ d. d.meta;
  annotated = record {
    get_annotations = λ d. d.meta.annotations;
    set_annotations = λ m d. record d { meta = record (d.meta) { annotations = m } };
  };
  stable = daemon_set_stable;
}
