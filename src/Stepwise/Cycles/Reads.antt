-- ===== src/Stepwise/Cycles/Reads.antt =====
-- internal/controller/cycle_detection.go: the checks only read.
use cascader.Common.{ℕ, zero, suc, inl, inr, Text, Bool-cases, List, [], ◌∷◌, ◌++◌, contains}
use cascader.Errors.{Result, ok, err}
use cascader.Client.{Client}
use cascader.Targets.{Target, target_id}
use cascader.Processes.Guarantees.{Within, Within-ask, Within-bind, within_rules}
use cascader.Controller.{BaseReconciler}
use cascader.Controller.Cycles.{Detection, clear, Check}
use cascader.Controller.Reconcile.{World}
use cascader.Stepwise.{Program}
use cascader.Stepwise.Cycles.{
  detect_rest, detect_any_program, detect_in, detect_cycle_program, check_rest, check_cycle_program,
}

module _ (b : BaseReconciler) (c : Client) where
  module _ (R : World c.State → World c.State → Type 0) (idle : (w : World c.State) → R w w) where
    detect_rest-Within :
        (rest : Program c Detection) (d : Detection)
        → Within R rest
        → Within R (detect_rest b c rest d)
    unfolding detect_rest
    detect_rest-Within rest clear h = h
    detect_rest-Within rest _ h = search within_rules

    detect_any_program-Within :
        (detect : Target → List Text → Program c Detection) (src_id : Text) (path : List Text)
        (ds : List Target)
        → ((d : Target) (path : List Text) → Within R (detect d path))
        → Within R (detect_any_program b c detect src_id path ds)
    unfolding detect_any_program
    detect_any_program-Within detect src_id path [] h = search within_rules
    detect_any_program-Within detect src_id path (d ∷ ds) h =
        let rest = detect_any_program-Within detect src_id path ds h in
        search (within_rules, detect_rest-Within)

    detect_in-Within :
        (detect : Target → List Text → Program c Detection) (src_id : Text) (path : List Text)
        (answer : Result (List Target))
        → ((d : Target) (path : List Text) → Within R (detect d path))
        → Within R (detect_in b c detect src_id path answer)
    unfolding detect_in
    detect_in-Within detect src_id path (err e) h = search within_rules
    detect_in-Within detect src_id path (ok ds) h =
        detect_any_program-Within detect src_id path ds h

    detect_cycle_program-Within :
        (fuel : ℕ) (src_id : Text) (t : Target) (path : List Text)
        → Within R (detect_cycle_program b c fuel src_id t path)
    unfolding detect_cycle_program
    detect_cycle_program-Within zero src_id t path = search within_rules
    detect_cycle_program-Within (suc fuel) src_id t path =
        elim (Bool-cases (contains path (target_id t))) [
          | inl seen ↦ rw (seen, detect_cycle_program) (search within_rules)
          | inr new ↦
              rw (new, detect_cycle_program)
                (Within-bind _ _ (Within-ask _ idle) (λ answer.
                  detect_in-Within _ src_id (path ++ target_id t ∷ []) answer
                    (detect_cycle_program-Within fuel src_id)))
        ]

    check_rest-Within :
        (src_id : Text) (rest : Program c Check) (d : Detection)
        → Within R rest
        → Within R (check_rest b c src_id rest d)
    unfolding check_rest
    check_rest-Within src_id rest clear h = h
    check_rest-Within src_id rest _ h = search within_rules

    pub check_cycle_program-Within :
        (fuel : ℕ) (src_id : Text) (ts : List Target)
        → Within R (check_cycle_program b c fuel src_id ts)
    unfolding check_cycle_program
    check_cycle_program-Within fuel src_id [] = search within_rules
    check_cycle_program-Within fuel src_id (t ∷ ts) =
        let rest = check_cycle_program-Within fuel src_id ts in
        search (within_rules, check_rest-Within, detect_cycle_program-Within)
