-- ===== src/Stepwise/Verdicts.antt =====
-- internal/controller/cycle_detection.go: what a check can answer when the cluster is changed
-- between its reads.
use cascader.Common.{
  ◌≡◌, refl, sym, ◌∙◌, ℕ, zero, suc, inl, inr, Text, Bool-cases, List, [], ◌∷◌, ◌++◌, text_eq,
  contains, codes,
}
use cascader.Errors.{Error, Result, ok, err, cycle_check_failed, indirect_kind, cycle}
use cascader.Strings.{join}
use cascader.Client.{Client}
use cascader.Targets.{Target, target_id}
use cascader.Processes.Guarantees.{Gives, Gives-bind}
use cascader.Controller.{BaseReconciler}
use cascader.Controller.Cycles.{
  Detection, found, clear, failed, out_of_fuel, Check, no_cycle, refused, undecided, dependencies,
  detect_any, detect_cycle, check_cycle,
}
use cascader.Controller.Reconcile.{World}
use cascader.Store.{look}
use cascader.Store.Graph.{graph, dependencies_iff}
use cascader.Stepwise.{Program}
use cascader.Stepwise.Cycles.{
  detect_rest, detect_any_program, detect_in, detect_cycle_program, check_rest, check_cycle_program,
}

-- Equal but for errors, which are related by `E`.
module _ (E : Error → Error → Type 0) where
  pub data SameTargets : Result (List Target) → Result (List Target) → Type 0 where
    same_targets : {ds : List Target} → SameTargets (ok ds) (ok ds)
    both_fail : {e e' : Error} → E e e' → SameTargets (err e) (err e')

  pub data SameDetection : Detection → Detection → Type 0 where
    same_found : {path : List Text} → SameDetection (found path) (found path)
    same_clear : SameDetection clear clear
    same_fuel : SameDetection out_of_fuel out_of_fuel
    both_fail : {e e' : Error} → E e e' → SameDetection (failed e) (failed e')

  pub data SameCheck : Check → Check → Type 0 where
    same_check : {x : Check} → SameCheck x x
    both_fail :
        {e e' : Error}
        → E e e'
        → SameCheck (refused (cycle_check_failed e)) (refused (cycle_check_failed e'))

module _ (b : BaseReconciler) (c : Client) where
  -- A check in states that all have the dependencies which the function reads in `s`, but for the
  -- errors.
  module _ (E : Error → Error → Type 0) (I : World c.State → Type 0)
      (R : World c.State → World c.State → Type 0) (idle : (w : World c.State) → R w w)
      (s : c.State)
      (agree : (w : World c.State)
        → I w
        → (t : Target) → SameTargets E (dependencies b c w.state t) (dependencies b c s t)) where
    detect_rest-Gives :
        (program : Program c Detection) (rest d d' : Detection)
        → SameDetection E d d'
        → Gives I R (λ x. SameDetection E x rest) program
        → Gives I R
            (λ x. SameDetection E x (elim d' [
              | failed e ↦ failed e
              | found walk ↦ found walk
              | out_of_fuel ↦ out_of_fuel
              | clear ↦ rest
            ]))
            (detect_rest b c program d)
    unfolding detect_rest
    detect_rest-Gives program rest (found path) _ same_found h = Gives.at_end same_found
    detect_rest-Gives program rest clear _ same_clear h = h
    detect_rest-Gives program rest out_of_fuel _ same_fuel h = Gives.at_end same_fuel
    detect_rest-Gives program rest _ _ (SameDetection.both_fail r) h =
        Gives.at_end (SameDetection.both_fail r)

    detect_any_program-Gives :
        (program : Target → List Text → Program c Detection)
        (detect : Target → List Text → Detection) (src_id : Text) (path : List Text)
        (ds : List Target)
        → ((d : Target) (path : List Text)
            → Gives I R (λ x. SameDetection E x (detect d path)) (program d path))
        → Gives I R
            (λ x. SameDetection E x (detect_any b c s detect src_id path ds))
            (detect_any_program b c program src_id path ds)
    unfolding detect_any detect_any_program
    detect_any_program-Gives program detect src_id path [] h = Gives.at_end same_clear
    detect_any_program-Gives program detect src_id path (d ∷ ds) h =
        let rest = detect_any_program-Gives program detect src_id path ds h in
        elim (Bool-cases (text_eq (target_id d) src_id)) [
          | inl direct ↦ rw (direct, detect_any, detect_any_program) (Gives.at_end same_found)
          | inr other ↦
              rw (other, detect_any, detect_any_program)
                (Gives-bind (program d path) (detect_rest b c _) (h d path)
                  (λ x r. detect_rest-Gives _ _ x (detect d path) r rest))
        ]

    detect_in-Gives :
        (program : Target → List Text → Program c Detection)
        (detect : Target → List Text → Detection) (src_id : Text) (path : List Text)
        (answer answer' : Result (List Target))
        → SameTargets E answer answer'
        → ((d : Target) (path : List Text)
            → Gives I R (λ x. SameDetection E x (detect d path)) (program d path))
        → Gives I R
            (λ x.
              SameDetection E x (elim answer' [
                | err e ↦ failed e
                | ok ds ↦ detect_any b c s detect src_id path ds
              ]))
            (detect_in b c program src_id path answer)
    unfolding detect_in
    detect_in-Gives program detect src_id path (ok ds) _ same_targets h =
        detect_any_program-Gives program detect src_id path ds h
    detect_in-Gives program detect src_id path _ _ (SameTargets.both_fail r) h =
        Gives.at_end (SameDetection.both_fail r)

    detect_cycle_program-Gives :
        (fuel : ℕ) (src_id : Text) (t : Target) (path : List Text)
        → Gives I R
            (λ x. SameDetection E x (detect_cycle b c s fuel src_id t path))
            (detect_cycle_program b c fuel src_id t path)
    unfolding detect_cycle detect_cycle_program
    detect_cycle_program-Gives zero src_id t path = Gives.at_end same_fuel
    detect_cycle_program-Gives (suc fuel) src_id t path =
        elim (Bool-cases (contains path (target_id t))) [
          | inl seen ↦ rw (seen, detect_cycle, detect_cycle_program) (Gives.at_end same_found)
          | inr new ↦
              rw (new, detect_cycle, detect_cycle_program)
                (Gives.at_access (λ w i. i) (λ w i. idle w)
                  (λ w i.
                    detect_in-Gives (detect_cycle_program b c fuel src_id)
                      (detect_cycle b c s fuel src_id) src_id (path ++ target_id t ∷ [])
                      (dependencies b c w.state t) (dependencies b c s t) (agree w i t)
                      (detect_cycle_program-Gives fuel src_id)))
        ]

    check_rest-Gives :
        (src_id : Text) (program : Program c Check) (rest : Check) (d d' : Detection)
        → SameDetection E d d'
        → Gives I R (λ x. SameCheck E x rest) program
        → Gives I R
            (λ x. SameCheck E x (elim d' [
              | failed e ↦ refused (cycle_check_failed e)
              | found path ↦ refused (
                  cycle (record {
                    kind = indirect_kind;
                    source_id = src_id;
                    path = join (codes " -> ") path;
                  }))
              | out_of_fuel ↦ undecided
              | clear ↦ rest
            ]))
            (check_rest b c src_id program d)
    unfolding check_rest
    check_rest-Gives src_id program rest (found path) _ same_found h = Gives.at_end same_check
    check_rest-Gives src_id program rest clear _ same_clear h = h
    check_rest-Gives src_id program rest out_of_fuel _ same_fuel h = Gives.at_end same_check
    check_rest-Gives src_id program rest _ _ (SameDetection.both_fail r) h =
        Gives.at_end (SameCheck.both_fail r)

    pub check_cycle_program-Gives :
        (fuel : ℕ) (src_id : Text) (ts : List Target)
        → Gives I R
            (λ x. SameCheck E x (check_cycle b c s fuel src_id ts))
            (check_cycle_program b c fuel src_id ts)
    unfolding check_cycle check_cycle_program
    check_cycle_program-Gives fuel src_id [] = Gives.at_end same_check
    check_cycle_program-Gives fuel src_id (t ∷ ts) =
        let rest = check_cycle_program-Gives fuel src_id ts in
        elim (Bool-cases (text_eq (target_id t) src_id)) [
          | inl direct ↦ rw (direct, check_cycle, check_cycle_program) (Gives.at_end same_check)
          | inr other ↦
              rw (other, check_cycle, check_cycle_program)
                (Gives-bind (detect_cycle_program b c fuel src_id t (src_id ∷ []))
                  (check_rest b c src_id _) (detect_cycle_program-Gives fuel src_id t (src_id ∷ []))
                  (λ x r.
                    check_rest-Gives src_id _ _ x (detect_cycle b c s fuel src_id t (src_id ∷ [])) r
                      rest))
        ]

-- Whatever the two errors are.
abbrev pub AnyErrors : Error → Error → Type 0
AnyErrors _ _ = Unit

pub graph-SameTargets :
    (b : BaseReconciler) (c : Client) (s s' : c.State) (t : Target)
    → graph b (look c s') t ≡ graph b (look c s) t
    → SameTargets AnyErrors (dependencies b c s' t) (dependencies b c s t)
graph-SameTargets b c s s' t same =
    go (dependencies b c s' t) (dependencies b c s t)
      (λ ds e. (dependencies_iff b c s t ds).1 (sym same ∙ (dependencies_iff b c s' t ds).0 e))
      (λ ds e. (dependencies_iff b c s' t ds).1 (same ∙ (dependencies_iff b c s t ds).0 e))
  where
    go :
        (x y : Result (List Target))
        → ((ds : List Target) → x ≡ ok ds → y ≡ ok ds)
        → ((ds : List Target) → y ≡ ok ds → x ≡ ok ds)
        → SameTargets AnyErrors x y
    go (ok ds) (ok ds') to from = rw (to ds refl) same_targets
    go (ok ds) (err e) to from = absurd (cc (to ds refl))
    go (err e) (ok ds) to from = absurd (cc (from ds refl))
    go (err e) (err e') to from = SameTargets.both_fail tt

pub accepted-eq : (x y : Check) → SameCheck AnyErrors x y → x ≡ no_cycle → y ≡ no_cycle
accepted-eq x _ same_check h = h
accepted-eq _ _ (SameCheck.both_fail r) h = absurd (cc)
