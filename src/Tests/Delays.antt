-- ===== src/Tests/Delays.antt =====
-- A workload that is not stable, with the reconciler that Run sets up.
use cascader.Common.{pos, codes, Option, some, [], ◌∷◌}
use cascader.Errors.{Error}
use cascader.Objects.{Deployment}
use cascader.Flags.{requeue_after_annotation}
use cascader.Workloads.{deployment_workload}
use cascader.Controller.Reconcile.{World, mark_observed}
use cascader.Tests.{client, Cluster, chain, deployment_annotation, deployment_named}
use cascader.Tests.Reconciling.{resource}
use cascader.Tests.Starting.{reconciler}

-- Its replica is not ready, and its interval cannot be read.
abbrev waiting : Deployment
waiting =
    deployment_named (codes "d")
      (some ((deployment_annotation, codes "b") ∷ (requeue_after_annotation, codes "soon") ∷ []))
      (pos 0)

abbrev world : World Cluster
world = record { state = waiting ∷ chain; calls = [] }

abbrev marked : World Cluster × Deployment × Option Error
marked = mark_observed reconciler client resource deployment_workload world waiting
