-- ===== src/System.antt =====
-- The operator at work: calls of the three reconcilers of internal/controller, in any order and
-- for any requests, on one cluster that nothing else writes to.
pub mod Graph
pub mod Cascade
use cascader.Common.{ℕ, ℤ, ◌≡◌, Text, Option}
use cascader.Client.{Client}
use cascader.Controller.{BaseReconciler}
use cascader.Controller.Reconcile.{World, Reply, returned}
use cascader.Controller.Reconcilers.{
  deployment_reconcile, stateful_set_reconcile, daemon_set_reconcile,
}

module _ (parse_duration : Text → Option ℤ) (b : BaseReconciler) (c : Client) (fuel : ℕ) where
  -- One call that returns.
  pub data Step : World c.State → World c.State → Type 0 where
    deployment_step :
        (namespace name : Text) {world final : World c.State} (reply : Reply)
        → deployment_reconcile parse_duration b c fuel namespace name world ≡ returned final reply
        → Step world final
    stateful_set_step :
        (namespace name : Text) {world final : World c.State} (reply : Reply)
        → stateful_set_reconcile parse_duration b c fuel namespace name world ≡ returned final reply
        → Step world final
    daemon_set_step :
        (namespace name : Text) {world final : World c.State} (reply : Reply)
        → daemon_set_reconcile parse_duration b c fuel namespace name world ≡ returned final reply
        → Step world final

  -- Any number of calls.
  pub data Reach (world : World c.State) : World c.State → Type 0 where
    here : Reach world world
    next :
        {middle final : World c.State} → Reach world middle → Step middle final → Reach world final
