-- ===== src/Metrics/Gauges.antt =====
-- internal/metrics/metrics.go: the values that the calls give the gauges, by what Prometheus
-- documents of Set: the value that was set last.
use cascader.Common.{
  ℕ, ◌≡◌, refl, ◌∙◌, ap, Text, text_eq, text_eq_iff, Bool, true, ◌&&◌, Option, some, [], ◌∷◌, ◌++◌,
  arith, if◌then◌else◌,
}
use cascader.Metrics.{
  Labels, Calls, Call, CycleState, cycle_value, EventType, Note, dependency_cycles_detected,
  workload_targets, event, set_dependency_cycle_detected, set_workload_targets, record_event,
}

abbrev pub labels_eq : Labels → Labels → Bool
labels_eq (namespace, name, kind) (namespace', name', kind') =
    text_eq namespace namespace' && (text_eq name name' && text_eq kind kind')

pub labels_eq_refl : (labels : Labels) → labels_eq labels labels ≡ true
labels_eq_refl (namespace, name, kind) =
    ground (arith, text_eq_iff namespace namespace, text_eq_iff name name, text_eq_iff kind kind)

module _ (labels : Labels) where
  -- cascader_dependency_cycles_detected after a call, from its value before
  abbrev pub cycle_after : Option ℕ → Call → Option ℕ
  cycle_after v (dependency_cycles_detected l n) = if labels_eq l labels then some n else v
  cycle_after v _ = v

  abbrev pub cycle_gauge : Option ℕ → Calls → Option ℕ
  cycle_gauge v [] = v
  cycle_gauge v (call ∷ calls) = cycle_gauge (cycle_after v call) calls

  -- cascader_workload_targets
  abbrev pub targets_after : Option ℕ → Call → Option ℕ
  targets_after v (workload_targets l n) = if labels_eq l labels then some n else v
  targets_after v _ = v

  abbrev pub targets_gauge : Option ℕ → Calls → Option ℕ
  targets_gauge v [] = v
  targets_gauge v (call ∷ calls) = targets_gauge (targets_after v call) calls

  -- The two gauges.
  abbrev pub gauges : Option ℕ × Option ℕ → Calls → Option ℕ × Option ℕ
  gauges (v, u) calls = (cycle_gauge v calls, targets_gauge u calls)

  pub gauges-append :
      (v : Option ℕ × Option ℕ) (xs ys : Calls) → gauges v (xs ++ ys) ≡ gauges (gauges v xs) ys
  gauges-append v [] ys = refl
  gauges-append (v, u) (x ∷ xs) ys = gauges-append (cycle_after v x, targets_after u x) xs ys

  pub gauges-set_dependency_cycle_detected :
      (v : Option ℕ × Option ℕ) (state : CycleState) (calls : Calls)
      → gauges v (set_dependency_cycle_detected labels state calls)
        ≡ (some (cycle_value state), (gauges v calls).1)
  unfolding set_dependency_cycle_detected
  gauges-set_dependency_cycle_detected v state calls =
      gauges-append v calls (dependency_cycles_detected labels (cycle_value state) ∷ [])
      ∙ ap
          (λ same.
            (if same then some (cycle_value state) else (gauges v calls).0, (gauges v calls).1))
          (labels_eq_refl labels)

  pub gauges-set_workload_targets :
      (v : Option ℕ × Option ℕ) (n : ℕ) (calls : Calls)
      → gauges v (set_workload_targets labels n calls) ≡ ((gauges v calls).0, some n)
  unfolding set_workload_targets
  gauges-set_workload_targets v n calls =
      gauges-append v calls (workload_targets labels n ∷ [])
      ∙ ap (λ same. ((gauges v calls).0, if same then some n else (gauges v calls).1))
          (labels_eq_refl labels)

  pub gauges-record_event :
      (v : Option ℕ × Option ℕ) (id : Text) (type : EventType) (reason action : Text) (note : Note)
      (calls : Calls)
      → gauges v (record_event id type reason action note calls) ≡ gauges v calls
  unfolding record_event
  gauges-record_event v id type reason action note calls =
      gauges-append v calls (event id type reason action note ∷ [])
