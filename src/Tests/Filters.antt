-- ===== src/Tests/Filters.antt =====
-- The filters, the hash and the stability checks.
use cascader.Common.{
  ℕ, pos, ◌≡◌, refl, ◌↔◌, ◌≤ℤ◌, codes, some, none, List, [], ◌∷◌, arith, true, false,
}
use cascader.Errors.{Result, ok}
use cascader.Flags.{deployment_annotation}
use cascader.Kinds.{deployment_kind, AnnotationKindMap}
use cascader.Objects.{
  PodTemplateSpec, Deployment, StatefulSet, DaemonSet, deployment, stateful_set, daemon_set,
}
use cascader.Workloads.{
  deployment_stable, stateful_set_stable, daemon_set_stable, deployment_workload,
  stateful_set_workload, daemon_set_workload,
}
use cascader.Workloads.Stability.{
  Says, IsSettled, deployment_stable_iff, stateful_set_stable_iff, daemon_set_stable_iff,
}
use cascader.Predicates.{
  spec_changed, deployment_predicate, stateful_set_predicate, daemon_set_predicate,
}
use cascader.Predicates.Laws.{HashesDiffer, spec_changed_iff}
use cascader.Predicates.Marks.{
  PodLost, IsTransitioning, Concerns, deployment_update_iff, daemon_set_update_iff, marks_filtered,
  daemon_set_marks_filtered,
}
use cascader.Tests.{deployment_named, depends_on}

-- The serialised template is its text.
abbrev marshal : PodTemplateSpec → Result (List ℕ)
marshal t = ok t.rest

abbrev kinds : AnnotationKindMap
kinds = (deployment_annotation, deployment_kind) ∷ []

abbrev up : Deployment
up = deployment_named (codes "a") (depends_on (codes "b")) (pos 1)

abbrev down : Deployment
down = deployment_named (codes "a") (depends_on (codes "b")) (pos 0)

abbrev sts : StatefulSet
sts = record {
  meta = up.meta;
  replicas = some (pos 3);
  template = up.template;
  status = record { observed_generation = pos 1; updated_replicas = pos 3; ready_replicas = pos 3 };
}

abbrev ds : DaemonSet
ds = record {
  meta = up.meta;
  template = up.template;
  status = record {
    observed_generation = pos 1;
    desired_number_scheduled = pos 2;
    updated_number_scheduled = pos 2;
    number_ready = pos 2;
    number_available = pos 2;
    number_unavailable = pos 0;
  };
}

deployment_stable_iff_example :
    Says true (deployment_stable up)
    ↔ IsSettled
        (pos 1)
        (pos 1)
        (pos 1)
        ((pos 0 ≤ℤ pos 0) × (pos 1 ≡ pos 1) × (pos 1 ≡ pos 1) × (pos 1 ≡ pos 1))
deployment_stable_iff_example = deployment_stable_iff up (pos 1) refl

stateful_set_stable_iff_example :
    Says true (stateful_set_stable sts)
    ↔ IsSettled (pos 1) (pos 1) (pos 3) ((pos 3 ≡ pos 3) × (pos 3 ≡ pos 3))
stateful_set_stable_iff_example = stateful_set_stable_iff sts (pos 3) refl

daemon_set_stable_iff_example :
    Says true (daemon_set_stable ds)
    ↔ IsSettled
        (pos 1)
        (pos 1)
        (pos 2)
        ((pos 0 ≤ℤ pos 0) × (pos 2 ≡ pos 2) × (pos 2 ≡ pos 2) × (pos 2 ≡ pos 2))
daemon_set_stable_iff_example = daemon_set_stable_iff ds

spec_changed_iff_example :
    (spec_changed marshal (deployment up) (deployment down) ≡ true)
    ↔ HashesDiffer marshal (deployment up) (deployment down)
spec_changed_iff_example = spec_changed_iff marshal (deployment up) (deployment down)

deployment_update_iff_example :
    ((deployment_predicate marshal kinds).update (deployment up) (deployment down) ≡ true)
    ↔ Concerns marshal kinds
        (PodLost (deployment up) (deployment down))
        (deployment up)
        (deployment down)
deployment_update_iff_example =
    deployment_update_iff marshal kinds (deployment up) (deployment down)

daemon_set_update_iff_example :
    ((daemon_set_predicate marshal kinds).update (daemon_set ds) (daemon_set ds) ≡ true)
    ↔ Concerns marshal kinds (IsTransitioning (daemon_set ds)) (daemon_set ds) (daemon_set ds)
daemon_set_update_iff_example = daemon_set_update_iff marshal kinds (daemon_set ds) (daemon_set ds)

marks_filtered_example :
    ((deployment_predicate marshal kinds).update
        (deployment up)
        (deployment (deployment_workload.annotated.set_annotations none up))
      ≡ false)
    × ((stateful_set_predicate marshal kinds).update
          (stateful_set sts)
          (stateful_set (stateful_set_workload.annotated.set_annotations none sts))
        ≡ false)
marks_filtered_example = marks_filtered marshal kinds none up sts

at_rest : ¬ IsTransitioning (daemon_set ds)
at_rest = grind arith

daemon_set_marks_filtered_example :
    (daemon_set_predicate marshal kinds).update
      (daemon_set ds)
      (daemon_set (daemon_set_workload.annotated.set_annotations none ds))
    ≡ false
daemon_set_marks_filtered_example = daemon_set_marks_filtered marshal kinds none ds at_rest
