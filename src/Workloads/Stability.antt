-- ===== src/Workloads/Stability.antt =====
-- When a workload counts as stable.
use cascader.Common.{ℤ, pos, ◌≤ℤ◌, ◌≡◌, ◌↔◌, ◌⊎◌, Bool, true, some, arith}
use cascader.Objects.{Deployment, StatefulSet, DaemonSet}
use cascader.Workloads.{
  Verdict, panics, verdict, deployment_stable, stateful_set_stable, daemon_set_stable,
}

-- The code says that the workload is stable.
abbrev pub Says : Bool → Verdict → Type 0
Says b panics = ⊥
Says b (verdict answer _) = answer ≡ b

-- The status is of the current generation, and all replicas that are wanted are there.
abbrev pub IsSettled : ℤ → ℤ → ℤ → Type 0 → Type 0
IsSettled observed generation desired Complete =
    (generation ≤ℤ observed) × ((desired ≡ pos 0) ⊎ Complete)

-- A Deployment with a replica count is stable exactly if its status is of the current generation,
-- and either no replica is wanted or none is unavailable and the updated, the ready and the
-- available replicas are all that are wanted.
pub deployment_stable_iff :
    (dep : Deployment) (desired : ℤ)
    → dep.replicas ≡ some desired
    → Says true (deployment_stable dep)
      ↔ IsSettled dep.status.observed_generation dep.meta.generation desired (
          (dep.status.unavailable_replicas ≤ℤ pos 0)
          × (dep.status.updated_replicas ≡ desired)
          × (dep.status.ready_replicas ≡ desired)
          × (dep.status.available_replicas ≡ desired))
unfolding deployment_stable
deployment_stable_iff dep desired h = ground arith

-- A StatefulSet with a replica count is stable exactly if its status is of the current generation,
-- and either no replica is wanted or the updated and the ready replicas are all that are wanted.
pub stateful_set_stable_iff :
    (sts : StatefulSet) (desired : ℤ)
    → sts.replicas ≡ some desired
    → Says true (stateful_set_stable sts)
      ↔ IsSettled sts.status.observed_generation sts.meta.generation desired
          ((sts.status.updated_replicas ≡ desired) × (sts.status.ready_replicas ≡ desired))
unfolding stateful_set_stable
stateful_set_stable_iff sts desired h = ground arith

-- A DaemonSet is stable exactly if its status is of the current generation, and either no pod is
-- to be scheduled or none is unavailable and the updated, the ready and the available pods are all
-- that are to be scheduled.
pub daemon_set_stable_iff :
    (ds : DaemonSet)
    → Says true (daemon_set_stable ds)
      ↔ IsSettled ds.status.observed_generation ds.meta.generation
          ds.status.desired_number_scheduled
          ((ds.status.number_unavailable ≤ℤ pos 0)
            × (ds.status.updated_number_scheduled ≡ ds.status.desired_number_scheduled)
            × (ds.status.number_ready ≡ ds.status.desired_number_scheduled)
            × (ds.status.number_available ≡ ds.status.desired_number_scheduled))
unfolding daemon_set_stable
daemon_set_stable_iff ds = ground arith
