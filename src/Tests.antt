-- ===== src/Tests.antt =====
-- A small cluster for the tests: Deployments only, kept in a list, where a patch replaces the
-- object of the same name. The clock stands still.
pub mod Cycles
pub mod Reconciling
pub mod Requests
pub mod Filters
pub mod References
pub mod Orders
pub mod Stores
pub mod Systems
pub mod Options
pub mod Starting
pub mod Delays
pub mod Gauges
pub mod Restarts
pub mod Merging
pub mod Schedules
pub mod Settling
pub mod Overlapping
pub mod Operating
use mathlib.Core.List.Memᴰ
use cascader.Common.{
  ℤ, pos, ◌≡◌, sym, Text, codes, text_eq, text_eq_iff, Bool, ◌&&◌, none, some, List, [], ◌∷◌, Memᴰ,
  if◌then◌else◌, arith, map, Bool-cases, inl, inr,
}
use cascader.Errors.{Result, ok, err, api_not_found, Result-cases}
use cascader.Flags.{
  deployment_annotation, last_observed_restart_annotation, requeue_after_annotation,
}
use cascader.Kinds.{deployment_kind}
use cascader.Objects.{Deployment, Annotations}
use cascader.Client.{Client}
use cascader.Utils.{generate_id}
use cascader.Targets.{
  deployment_target, stateful_set_target, daemon_set_target, target_id, target_kind,
  target_namespace, target_name, fetch_meta,
}
use cascader.Controller.{BaseReconciler}
use cascader.Controller.Cycles.{dependencies}
use cascader.Controller.Cycles.Termination.{Covers}

abbrev pub Cluster : Type 0
Cluster = List Deployment

abbrev pub is_named : Text → Text → Deployment → Bool
is_named namespace name d = text_eq d.meta.namespace namespace && text_eq d.meta.name name

unfoldable pub find : Cluster → Text → Text → Result Deployment
find [] namespace name = err api_not_found
find (d ∷ ds) namespace name =
    let rest = find ds namespace name in if is_named namespace name d then ok d else rest

unfoldable pub replace : Cluster → Deployment → Cluster
replace [] new = []
replace (d ∷ ds) new =
    let rest = replace ds new in
    if is_named new.meta.namespace new.meta.name d then new ∷ rest else d ∷ rest

abbrev pub client : Client
client = record {
  State = Cluster;
  deployments = record { get = find; patch = λ s old new. (replace s new, ok new) };
  stateful_sets = record { get = λ s ns name. err api_not_found; patch = λ s old new. (s, ok new) };
  daemon_sets = record { get = λ s ns name. err api_not_found; patch = λ s old new. (s, ok new) };
  now = λ s. codes "2026-01-01T00:00:00Z";
}

-- A Deployment in the namespace "ns" with one replica, of which `ready` are up.
abbrev pub deployment_named : Text → Annotations → ℤ → Deployment
deployment_named name annotations ready = record {
  meta = record {
    namespace = codes "ns";
    name = name;
    annotations = annotations;
    generation = pos 1;
  };
  replicas = some (pos 1);
  template = record { annotations = none; rest = codes "image" };
  status = record {
    observed_generation = pos 1;
    updated_replicas = pos 1;
    ready_replicas = ready;
    available_replicas = ready;
    unavailable_replicas = pos 0;
  };
}

abbrev pub depends_on : Text → Annotations
depends_on refs = some ((deployment_annotation, refs) ∷ [])

abbrev pub reconciler : BaseReconciler
reconciler = record {
  annotation_kind_map = (deployment_annotation, deployment_kind) ∷ [];
  last_observed_restart_annotation = last_observed_restart_annotation;
  requeue_after_annotation = requeue_after_annotation;
  requeue_after_default = pos 5000000000;
}

-- a depends on b, b on c
abbrev pub chain : Cluster
chain =
    deployment_named (codes "a") (depends_on (codes "b")) (pos 1)
    ∷ deployment_named (codes "b") (depends_on (codes "ns/c")) (pos 1)
    ∷ deployment_named (codes "c") none (pos 1)
    ∷ []

-- a and b depend on each other
abbrev pub ring : Cluster
ring =
    deployment_named (codes "a") (depends_on (codes "b")) (pos 1)
    ∷ deployment_named (codes "b") (depends_on (codes "a")) (pos 1)
    ∷ []

abbrev pub id_of : Deployment → Text
id_of d = generate_id deployment_kind d.meta.namespace d.meta.name

abbrev pub ids_of : Cluster → List Text
ids_of = map id_of

find-ids :
    (s : Cluster) (namespace name : Text) (d : Deployment)
    → find s namespace name ≡ ok d
    → Memᴰ (generate_id deployment_kind namespace name) (ids_of s)
unfolding find
find-ids [] namespace name d h = absurd (cc)
find-ids (e ∷ es) namespace name d h = elim (Bool-cases (is_named namespace name e)) [
  | inl same ↦ Memᴰ.head (
      let same_ns : e.meta.namespace ≡ namespace =
        ground (arith, text_eq_iff e.meta.namespace namespace) in
      let same_name : e.meta.name ≡ name = ground (arith, text_eq_iff e.meta.name name) in
      λ i. generate_id deployment_kind (sym same_ns i) (sym same_name i))
  | inr other ↦ Memᴰ.tail (find-ids es namespace name d (ground arith))
]

-- The Deployments of a cluster are all that can be fetched.
pub cluster_Covers : (b : BaseReconciler) (s : Cluster) → Covers b client s (ids_of s)
unfolding dependencies fetch_meta target_id target_kind target_namespace target_name
cluster_Covers b s (deployment_target namespace name) ds h =
    elim (Result-cases (find s namespace name)) [
      | inl (d, e) ↦ find-ids s namespace name d e
      | inr (x, e) ↦ absurd (ground arith)
    ]
cluster_Covers b s (stateful_set_target namespace name) ds h = absurd (cc)
cluster_Covers b s (daemon_set_target namespace name) ds h = absurd (cc)
