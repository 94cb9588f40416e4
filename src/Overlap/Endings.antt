-- ===== src/Overlap/Endings.antt =====
-- internal/controller while calls overlap: a call does not run out of fuel.
use cascader.Common.{ℕ, ℤ, ◌<◌, ◌≡◌, ◌≢◌, refl, Text, Option, none, List, length}
use cascader.Dict.{lookup}
use cascader.Client.{Client}
use cascader.Targets.{Target}
use cascader.Processes.Guarantees.{no_process}
use cascader.Controller.{BaseReconciler}
use cascader.Controller.Cycles.Termination.{Covers, check_cycle_decides}
use cascader.Controller.Reconcile.{World}
use cascader.Store.{look}
use cascader.Store.Graph.{graph}
use cascader.Store.Merges.{IsMerging}
use cascader.Stepwise.{Ending, unfinished}
use cascader.Stepwise.Requests.{Request, reconcile_program}
use cascader.Stepwise.Endings.{reconcile_program-Ends}
use cascader.Overlap.{Possible, Moment, Amid}
use cascader.Overlap.Graph.{Reach-SameGraph, Amid-Gives}

module _ (parse_duration : Text → Option ℤ) (b : BaseReconciler) (c : Client) (fuel : ℕ)
    (laws : IsMerging c)
    (unlisted : lookup b.last_observed_restart_annotation b.annotation_kind_map ≡ none)
    (Other : c.State → c.State → Type 0)
    (others : (s s' : c.State)
      → Other s s'
      → (t : Target) → graph b (look c s') t ≡ graph b (look c s) t) where
  -- The recursion of a cycle check ends also when calls overlap: if there is more fuel than there
  -- are objects to fetch as a call of a reconciler begins, the call does not run out of it, however
  -- its accesses are spread over those of other calls and of other writers. The other writers leave
  -- the dependencies as they are, a Get sees each patch that has succeeded, the server merges each
  -- patch into the object as it is stored by then, and the key of the mark is not a configured
  -- annotation.
  pub Amid-finished :
      (r : Request) (m m' : Moment c) (own : List (World c.State × World c.State)) (ending : Ending)
      (objects : List Text)
      → Possible parse_duration b c fuel Other m
      → Covers b c m.world.state objects
      → length objects < fuel
      → Amid parse_duration b c fuel Other
          (reconcile_program parse_duration b c fuel r)
          m
          own
          ending
          m'
      → ending ≢ unfinished
  Amid-finished r m m' own ending objects (world, reach) covers enough amid =
      let (_, calls) =
        Reach-SameGraph parse_duration b c fuel Other laws unlisted others reach no_process in
      (Amid-Gives parse_duration b c fuel Other laws unlisted others m.world
        (reconcile_program parse_duration b c fuel r) m m' own ending
        (reconcile_program-Ends parse_duration b c laws unlisted m.world fuel
          (λ id ts. check_cycle_decides b c m.world.state id objects covers fuel ts enough) r)
        (λ t. refl) calls amid).0
