-- ===== src/Overlap/Verdicts.antt =====
-- internal/controller/cycle_detection.go while calls overlap: the answer of a check whose reads are
-- spread over time.
use cascader.Common.{ℕ, ℤ, ◌≡◌, refl, Text, Option, none, List}
use cascader.Dict.{lookup}
use cascader.Client.{Client}
use cascader.Targets.{Target}
use cascader.Processes.Guarantees.{AllWithin, no_process}
use cascader.Controller.{BaseReconciler}
use cascader.Controller.Cycles.{Check, check_cycle}
use cascader.Controller.Reconcile.{World}
use cascader.Store.{look}
use cascader.Store.Graph.{graph, SameGraph}
use cascader.Store.Merges.{IsMerging}
use cascader.Stepwise.Cycles.{check_cycle_program}
use cascader.Stepwise.Verdicts.{AnyErrors, graph-SameTargets, SameCheck, check_cycle_program-Gives}
use cascader.Overlap.{Possible, Moment, Amid}
use cascader.Overlap.Graph.{Reach-SameGraph, Amid-Gives}

module _ (parse_duration : Text → Option ℤ) (b : BaseReconciler) (c : Client) (fuel : ℕ)
    (Other : c.State → c.State → Type 0) (laws : IsMerging c)
    (unlisted : lookup b.last_observed_restart_annotation b.annotation_kind_map ≡ none)
    (others : (s s' : c.State)
      → Other s s'
      → (t : Target) → graph b (look c s') t ≡ graph b (look c s) t) where
  -- What a check gives, and how it leaves the graph and the calls.
  check_cycle-Amid :
      (m m' : Moment c) (own : List (World c.State × World c.State)) (steps : ℕ) (src_id : Text)
      (ts : List Target) (answer : Check)
      → Possible parse_duration b c fuel Other m
      → Amid parse_duration b c fuel Other (check_cycle_program b c steps src_id ts) m own answer m'
      → SameCheck AnyErrors answer (check_cycle b c m.world.state steps src_id ts)
        × SameGraph b c m.world m'.world
        × AllWithin (SameGraph b c) m'.calls
  check_cycle-Amid m m' own steps src_id ts answer (world, reach) amid =
      let (_, calls) =
        Reach-SameGraph parse_duration b c fuel Other laws unlisted others reach no_process in
      let (same, _, graph_kept, calls') =
        Amid-Gives parse_duration b c fuel Other laws unlisted others m.world
          (check_cycle_program b c steps src_id ts) m m' own answer
          (check_cycle_program-Gives b c AnyErrors (SameGraph b c m.world) (λ _ _. Unit) (λ _. tt)
            m.world.state (λ w same t. graph-SameTargets b c m.world.state w.state t (same t)) steps
            src_id ts)
          (λ t. refl) calls amid in
      (same, graph_kept, calls')

  -- A check answers the same however its reads are spread over time: while other calls of the
  -- reconcilers make any accesses between them, and other writers any changes that leave the
  -- dependencies as they are, checkCycle accepts or finds a cycle, with the same path, just if it
  -- would have done so at once when it began; where the one fails, the other does, with some error.
  -- A Get sees each patch that has succeeded, the server merges each patch into the object as it is
  -- stored by then, and the key of the mark is not a configured annotation.
  pub Amid-check_cycle :
      (m m' : Moment c) (own : List (World c.State × World c.State)) (steps : ℕ) (src_id : Text)
      (ts : List Target) (answer : Check)
      → Possible parse_duration b c fuel Other m
      → Amid parse_duration b c fuel Other (check_cycle_program b c steps src_id ts) m own answer m'
      → SameCheck AnyErrors answer (check_cycle b c m.world.state steps src_id ts)
  Amid-check_cycle m m' own steps src_id ts answer possible amid =
      (check_cycle-Amid m m' own steps src_id ts answer possible amid).0
