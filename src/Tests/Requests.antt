-- ===== src/Tests/Requests.antt =====
-- Counters, the mark, and requests on small clusters.
use cascader.Controller.Reconcilers.{deployment_reconcile}
use cascader.Controller.Reconcilers.Answers.{Answerable, deployment_reconcile-Returns}
use cascader.Objects.{Annotations, Deployment}
use cascader.Common.{ap, subst, ◌≡◌, refl, ◌≢◌, codes, none}
use cascader.Errors.{ok}
use cascader.Dict.{lookup, insert}
use cascader.Utils.Patches.{patch_workload_annotation}
use cascader.Workloads.{deployment_workload}
use cascader.Controller.{has_annotation}
use cascader.Controller.Reconcile.{mark_observed}
use cascader.Controller.Reconcile.Progress.{Returns}
use cascader.Controller.Cycles.Termination.{Covers}
use cascader.Tests.{replace, Cluster, client, reconciler, find, chain, ids_of}
use cascader.Tests.Reconciling.{
  parse_duration, resource, world, workload, marked, marked_Covers, marked_size,
}

kept :
    (annotations : Annotations) (object : Deployment)
    → deployment_workload.annotated.get_annotations
        (deployment_workload.annotated.set_annotations annotations object)
      ≡ annotations
kept annotations object = refl

answered :
    (s : Cluster) (old new final : Deployment)
    → (resource.patch s old new).1 ≡ ok final
    → deployment_workload.annotated.get_annotations final
      ≡ deployment_workload.annotated.get_annotations new
answered s old new final h = let same : final ≡ new = cc in ap (λ d. d.meta.annotations) same

-- The request for a finds it.
request :
    (object : Deployment) → find chain (codes "ns") (codes "a") ≡ ok object → workload ≡ object
unfolding find
request object h = cc

marked_counted : marked.1.replicas ≢ none
unfolding mark_observed has_annotation lookup patch_workload_annotation insert replace
marked_counted h = cc

answerable :
    Answerable parse_duration reconciler client 4 resource deployment_workload
      (λ d. d.replicas ≢ none)
      world
      (find chain (codes "ns") (codes "a"))
      (ids_of marked.0.state)
answerable object h =
    subst
      (λ o.
        Covers reconciler client
          (mark_observed reconciler client resource deployment_workload world o).0.state
          (ids_of marked.0.state)
        × ((mark_observed reconciler client resource deployment_workload world o).1.replicas
            ≢ none))
      (request object h) (marked_Covers, marked_counted)

deployment_reconcile-Returns_example :
    Returns parse_duration reconciler client resource deployment_workload
      (deployment_reconcile parse_duration reconciler client 4 (codes "ns") (codes "a") world)
deployment_reconcile-Returns_example =
    deployment_reconcile-Returns parse_duration reconciler client 4 (codes "ns") (codes "a") world
      (ids_of marked.0.state) answerable marked_size
