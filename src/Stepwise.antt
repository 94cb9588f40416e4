-- ===== src/Stepwise.antt =====
-- internal/controller again, one access at a time: each call of the client, each reading of the
-- clock, each metric and each event is an access to a world that other calls of the reconcilers and
-- other writers of the cluster share. The handlers are those of internal/controller, with the same
-- order of accesses; what they compute between the accesses is the same functions.
pub mod Cycles
pub mod Verdicts
pub mod Reloads
pub mod Requests
pub mod Alone
pub mod Marks
pub mod Safety
pub mod Endings
pub mod Tried
use cascader.Metrics.{Calls}
use cascader.Client.{Client}
use cascader.Processes.{Process, act, ask}
use cascader.Controller.Reconcile.{World, Reply, Outcome, returned, panicked, out_of_fuel}

-- How a call ends; its world is the shared one.
pub data Ending : Type 0 where
  replied : Reply → Ending
  crashed : Ending
  unfinished : Ending

abbrev pub ended : {S : Type 0} → Outcome S → World S × Ending
ended (returned world reply) = (world, replied reply)
ended (panicked world) = (world, crashed)
ended (out_of_fuel world) = (world, unfinished)

module _ (c : Client) where
  -- A program of the operator.
  abbrev pub Program : Type 0 → Type 0
  Program A = Process (World c.State) A

  -- A call that may change the cluster.
  abbrev pub calling : {A : Type 0} → (c.State → c.State × A) → Program A
  calling f = act (λ w. (record w { state = (f w.state).0 }, (f w.state).1))

  -- A call that only reads.
  abbrev pub asking : {A : Type 0} → (c.State → A) → Program A
  asking f = ask (λ w. f w.state)

  -- A call to the metrics or the event recorder.
  abbrev pub telling : (Calls → Calls) → Program (Unit {0})
  telling g = act (λ w. (record w { calls = g w.calls }, tt))
