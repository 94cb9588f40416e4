-- ===== src/Metrics.antt =====
-- internal/metrics/metrics.go, and the calls that leave the program: the metric vectors are
-- Prometheus', the event recorder is client-go's. What reaches them is the sequence of calls.
pub mod Gauges
use cascader.Common.{ℕ, Text, codes, List, [], ◌∷◌, ◌++◌}
use cascader.Errors.{Error}

pub data VectorType : Type 0 where
  gauge_vec counter_vec : VectorType

-- prometheus.NewGaugeVec and NewCounterVec, less the help texts
pub record Vector : Type 0 where
  pub type : VectorType
  pub name : Text
  pub labels : List Text

abbrev pub label_names : List Text
label_names = codes "namespace" ∷ codes "name" ∷ codes "resource_kind" ∷ []

-- What NewRegistry registers, in the order of MustRegister.
abbrev pub new_registry : List Vector
new_registry =
    record {
      type = gauge_vec;
      name = codes "cascader_dependency_cycles_detected";
      labels = label_names;
    }
    ∷ record { type = gauge_vec; name = codes "cascader_workload_targets"; labels = label_names }
    ∷ record {
      type = counter_vec;
      name = codes "cascader_restarts_performed_total";
      labels = label_names;
    }
    ∷ []

-- namespace, name, resource_kind
abbrev pub Labels : Type 0
Labels = Text × Text × Text

pub data CycleState : Type 0 where
  cycle_none cycle_detected : CycleState

-- float64(state), the constants being counted by iota
unfoldable pub cycle_value : CycleState → ℕ
cycle_value cycle_none = 0
cycle_value cycle_detected = 1

pub data EventType : Type 0 where
  normal warning : EventType

-- A note is the constant part of its format, as a name, with the values that it prints.
pub data Note : Type 0 where
  cycle_note : Text → Note
  failed_note : Text → Error → Note
  triggered_note : Text → Note

pub data Call : Type 0 where
  dependency_cycles_detected : Labels → ℕ → Call
  workload_targets : Labels → ℕ → Call
  restarts_performed : Labels → Call
  -- the identifier of the object, the type, the reason, the action and the note
  event : Text → EventType → Text → Text → Note → Call

-- The calls so far, the oldest first.
abbrev pub Calls : Type 0
Calls = List Call

unfoldable pub set_dependency_cycle_detected : Labels → CycleState → Calls → Calls
unfolding cycle_value
set_dependency_cycle_detected labels state calls =
    calls ++ dependency_cycles_detected labels (cycle_value state) ∷ []

unfoldable pub set_workload_targets : Labels → ℕ → Calls → Calls
set_workload_targets labels value calls = calls ++ workload_targets labels value ∷ []

unfoldable pub inc_restarts_performed : Labels → Calls → Calls
inc_restarts_performed labels calls = calls ++ restarts_performed labels ∷ []

-- Recorder.Eventf
unfoldable pub record_event : Text → EventType → Text → Text → Note → Calls → Calls
record_event regarding type reason action note calls =
    calls ++ event regarding type reason action note ∷ []
