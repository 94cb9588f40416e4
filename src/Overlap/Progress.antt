-- ===== src/Overlap/Progress.antt =====
-- internal/controller while calls overlap: how a call for an accepted source concludes.
use cascader.Common.{ℤ, Text, Option, List}
use cascader.Client.{Client}
use cascader.Workloads.{deployment_workload, stateful_set_workload, daemon_set_workload}
use cascader.Targets.{Target}
use cascader.Controller.{BaseReconciler}
use cascader.Controller.Reconcile.{World}
use cascader.Stepwise.{Ending}
use cascader.Stepwise.Requests.{
  Request, deployment_request, stateful_set_request, daemon_set_request,
}
use cascader.Stepwise.Tried.Checked.{Concludes}
use cascader.Processes.Traces.{SomeOf}
use cascader.Stepwise.Tried.Answers.{Finding, FoundBy}

module _ (b : BaseReconciler) (c : Client) where
  -- An access in which a Get of the object of the request, or a patch, answers with that object, as it
  -- is then: with the annotations, and with the verdict that Stable gives on it; or in which the
  -- patch that sets the mark fails with the error.
  abbrev pub Found : Request → Finding → World c.State → World c.State → Type 0
  Found (deployment_request namespace name) =
      FoundBy c c.deployments deployment_workload b namespace name
  Found (stateful_set_request namespace name) =
      FoundBy c c.stateful_sets stateful_set_workload b namespace name
  Found (daemon_set_request namespace name) =
      FoundBy c c.daemon_sets daemon_set_workload b namespace name

-- How a call for the request may end with its accesses.
abbrev pub Concluded :
    (Text → Option ℤ)
    → BaseReconciler
    → (c : Client) → Request
    → List Target
    → List (World c.State × World c.State)
    → Ending
    → Type 0
Concluded parse_duration b c r ts own ending =
    Concludes parse_duration b c (λ x. SomeOf (Found b c r x) own) ts own ending
