-- ===== src/Controller/Reconcile/Reloads.antt =====
-- internal/controller/base_reconciler.go: the loop of triggerReloads, its attempts and its counters.
use cascader.Common.{
  ℕ, suc, ◌+◌, ◌≡◌, refl, sym, ap, ◌∙◌, inl, inr, Text, Bool, true, false, Option, none, some,
  Option-cases, List, [], ◌∷◌, ◌++◌, arith, length, if◌then◌else◌, append_assoc, append-nil, codes,
}
use cascader.Client.{Client}
use cascader.Errors.{Error}
use cascader.Targets.{Target, trigger, target_kind, target_namespace, target_name}
use cascader.Metrics.{
  Calls, dependency_cycles_detected, workload_targets, restarts_performed, event, record_event,
  inc_restarts_performed, normal, warning, failed_note, triggered_note,
}
use cascader.Controller.Reconcile.{World, reload_target, trigger_reloads}

-- The restarts that the counters were told of.
unfoldable pub count_restarts : Calls → ℕ
count_restarts [] = 0
count_restarts (restarts_performed _ ∷ calls) = suc (count_restarts calls)
count_restarts (dependency_cycles_detected _ _ ∷ calls) = count_restarts calls
count_restarts (workload_targets _ _ ∷ calls) = count_restarts calls
count_restarts (event _ _ _ _ _ ∷ calls) = count_restarts calls

pub count_restarts-append :
    (xs ys : Calls) → count_restarts (xs ++ ys) ≡ count_restarts xs + count_restarts ys
unfolding count_restarts
count_restarts-append [] ys = omega arith
count_restarts-append (restarts_performed _ ∷ xs) ys = omega (arith, count_restarts-append xs ys)
count_restarts-append (dependency_cycles_detected _ _ ∷ xs) ys = count_restarts-append xs ys
count_restarts-append (workload_targets _ _ ∷ xs) ys = count_restarts-append xs ys
count_restarts-append (event _ _ _ _ _ ∷ xs) ys = count_restarts-append xs ys

module _ (c : Client) where
  -- What each target's Trigger returned, one after the other, each in the cluster that the
  -- one before it left.
  unfoldable pub attempts : c.State → List Target → List (Target × Option Error)
  attempts s [] = []
  attempts s (t ∷ ts) =
      let (s', failure) = trigger c t s in let rest = attempts s' ts in (t, failure) ∷ rest

  -- The cluster after all of them.
  unfoldable pub state_after : c.State → List Target → c.State
  state_after s [] = s
  state_after s (t ∷ ts) = state_after (trigger c t s).0 ts

-- The calls that one attempt is reported by.
abbrev pub report : Text → Target × Option Error → Calls
report id (t, some e) =
    event id warning (codes "ReloadFailed") (codes "TriggerReload") (failed_note id e) ∷ []
report id (t, none) =
    restarts_performed (target_namespace t, target_name t, target_kind t)
    ∷ event id normal (codes "ReloadSucceeded") (codes "TriggerReload") (triggered_note id)
    ∷ []

abbrev pub reports : Text → List (Target × Option Error) → Calls
reports id [] = []
reports id (a ∷ rest) = report id a ++ reports id rest

-- The attempts without an error.
unfoldable pub successes : List (Target × Option Error) → ℕ
successes [] = 0
successes ((t, none) ∷ rest) = suc (successes rest)
successes ((t, some e) ∷ rest) = successes rest

unfoldable pub failures : List (Target × Option Error) → ℕ
failures [] = 0
failures ((t, none) ∷ rest) = failures rest
failures ((t, some e) ∷ rest) = suc (failures rest)

-- The attempt had no error.
abbrev succeeded : Option Error → Bool
succeeded none = true
succeeded (some e) = false

successes-cons :
    (t : Target) (failure : Option Error) (rest : List (Target × Option Error)) (m : ℕ)
    → (if succeeded failure then m + 1 else m) + successes rest
      ≡ m + successes ((t, failure) ∷ rest)
unfolding successes
successes-cons t none rest m = omega arith
successes-cons t (some e) rest m = omega arith

failures-cons :
    (t : Target) (failure : Option Error) (rest : List (Target × Option Error)) (n : ℕ)
    → (if succeeded failure then n else n + 1) + failures rest ≡ n + failures ((t, failure) ∷ rest)
unfolding failures
failures-cons t none rest n = omega arith
failures-cons t (some e) rest n = omega arith

module _ (c : Client) where
  -- The world after an attempt on `t` that left the cluster `s'` and returned `failure`.
  abbrev reported : Text → Target → World c.State → c.State → Option Error → World c.State
  reported id t w s' failure = record { state = s'; calls = w.calls ++ report id (t, failure) }

  reload_target_lem :
      (id : Text) (t : Target) (w : World c.State)
      → reload_target c id t w ≡ (
        reported id t w (trigger c t w.state).0 (trigger c t w.state).1,
        succeeded (trigger c t w.state).1,
      )
  unfolding reload_target record_event inc_restarts_performed
  reload_target_lem id t w = elim (Option-cases (trigger c t w.state).1) [
    | inl e ↦
        rw (e, reload_target)
          (ap (λ calls. (record { state = (trigger c t w.state).0; calls = calls }, true))
            (append_assoc w.calls _ _))
    | inr (x, e) ↦ rw (e, reload_target) refl
  ]

  loop_path :
      {s : c.State} {calls calls' : Calls} {m m' n n' : ℕ}
      → calls ≡ calls'
      → m ≡ m'
      → n ≡ n'
      → ◌≡◌ {A = World c.State × ℕ × ℕ}
          (record { state = s; calls = calls }, m, n)
          (record { state = s; calls = calls' }, m', n')
  loop_path {s} p q r = λ i. (record { state = s; calls = p i }, q i, r i)

  -- triggerReloads tries every target, in order, each in the cluster that the ones before it left,
  -- whether they failed or not; it reports each attempt by its calls, and adds the attempts without
  -- and with an error to its two counters.
  pub trigger_reloads_lem :
      (id : Text) (ts : List Target) (w : World c.State) (m n : ℕ)
      → trigger_reloads c id ts w m n ≡ (
        record {
          state = state_after c w.state ts;
          calls = w.calls ++ reports id (attempts c w.state ts);
        },
        m + successes (attempts c w.state ts),
        n + failures (attempts c w.state ts),
      )
  unfolding trigger_reloads state_after attempts successes failures
  trigger_reloads_lem id [] w m n = loop_path (sym (append-nil w.calls)) (omega arith) (omega arith)
  trigger_reloads_lem id (t ∷ ts) w m n =
      let (s', failure) = trigger c t w.state in
      let rest = attempts c s' ts in
      rw (reload_target_lem id t w) (
        trigger_reloads_lem id ts (reported id t w s' failure) _ _
        ∙ loop_path (append_assoc w.calls _ _) (successes-cons t failure rest m)
            (failures-cons t failure rest n))

-- Every attempt either succeeded or failed, and one restart is counted for each that succeeded.
pub reports_counts :
    (id : Text) (tried : List (Target × Option Error))
    → (successes tried + failures tried ≡ length tried)
      × (count_restarts (reports id tried) ≡ successes tried)
unfolding successes failures count_restarts
reports_counts id [] = (omega arith, refl)
reports_counts id ((t, none) ∷ rest) =
    let (total, counted) = reports_counts id rest in (omega arith, ap suc counted)
reports_counts id ((t, some e) ∷ rest) =
    let (total, counted) = reports_counts id rest in (omega arith, counted)

length-attempts :
    (c : Client) (s : c.State) (ts : List Target) → length (attempts c s ts) ≡ length ts
unfolding attempts
length-attempts c s [] = refl
length-attempts c s (t ∷ ts) = ap suc (length-attempts c (trigger c t s).0 ts)

-- The two counters that triggerReloads returns add up to the number of targets, and the first is
-- the number of restarts that it tells the metrics of.
trigger_reloads-counts :
    (c : Client) (id : Text) (ts : List Target) (w : World c.State)
    → let (w', succeeded, failed) = trigger_reloads c id ts w 0 0 in
      (succeeded + failed ≡ length ts)
      × (count_restarts w'.calls ≡ count_restarts w.calls + succeeded)
trigger_reloads-counts c id ts w =
    let tried = attempts c w.state ts in
    let (total, counted) = reports_counts id tried in
    rw (trigger_reloads_lem c id ts w 0 0) (
      omega (arith, total, length-attempts c w.state ts),
      omega (arith, counted, count_restarts-append w.calls (reports id tried)),
    )
