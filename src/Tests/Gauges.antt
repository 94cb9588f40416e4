-- ===== src/Tests/Gauges.antt =====
-- The gauges after a run.
use cascader.Common.{ℕ, ◌≡◌, Option, none}
use cascader.Metrics.{Labels}
use cascader.Metrics.Gauges.{gauges}
use cascader.Workloads.{deployment_workload}
use cascader.Controller.Cycles.{check_cycle}
use cascader.Controller.Reconcile.{workload_labels, finished}
use cascader.Controller.Reconcile.Gauges.{settled, reconcile_workload-gauges}
use cascader.Tests.{client, reconciler}
use cascader.Tests.Reconciling.{
  parse_duration, resource, world, workload, marked, run, final_world, run_reloads, marked_well,
  marked_targets, targets, id,
}

abbrev labels : Labels
labels = workload_labels parse_duration reconciler client resource deployment_workload workload

-- No gauge has a value yet.
abbrev unset : Option ℕ × Option ℕ
unset = (none, none)

reconcile_workload-gauges_example :
    gauges labels unset (final_world run).calls
    ≡ settled
        (gauges labels unset world.calls)
        targets
        (check_cycle reconciler client marked.0.state 4 id targets)
reconcile_workload-gauges_example =
    reconcile_workload-gauges parse_duration reconciler client resource deployment_workload 4 world
      marked.0 (final_world run) workload marked.1 finished targets marked_well marked_targets
      run_reloads unset
