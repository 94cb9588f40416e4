-- ===== src/Controller/Cycles/Fuel.antt =====
-- internal/controller/cycle_detection.go: checkCycle under other amounts of fuel.
use cascader.Common.{
  ℕ, zero, suc, ◌+◌, ◌-◌, ◌<◌, ◌≡◌, refl, ◌≢◌, ◌∙◌, sym, ap, inl, inr, Text, List, [], ◌∷◌, ◌++◌,
  arith, length, contains, Bool-cases,
}
use cascader.Errors.{Result-cases}
use cascader.Client.{Client}
use cascader.Targets.{Target, target_id}
use cascader.Controller.{BaseReconciler}
use cascader.Controller.Cycles.{
  Detection, out_of_fuel, dependencies, detect_any, detect_cycle, undecided, check_cycle,
}
use cascader.Controller.Cycles.Termination.{Covers, check_cycle_decides}

module _ (b : BaseReconciler) (c : Client) (s : c.State) where
  detect_any_stable :
      (detect detect' : Target → List Text → Detection) (src_id : Text) (path : List Text)
      → ((d : Target) → detect d path ≢ out_of_fuel → detect' d path ≡ detect d path)
      → (ds : List Target) → detect_any b c s detect src_id path ds ≢ out_of_fuel
      → detect_any b c s detect' src_id path ds ≡ detect_any b c s detect src_id path ds
  unfolding detect_any
  detect_any_stable detect detect' src_id path same [] h = refl
  detect_any_stable detect detect' src_id path same (d ∷ ds) h =
      ground (arith, same d, detect_any_stable detect detect' src_id path same ds)

  detect_cycle_stable :
      (fuel : ℕ) (src_id : Text) (t : Target) (path : List Text)
      → detect_cycle b c s fuel src_id t path ≢ out_of_fuel
      → detect_cycle b c s (suc fuel) src_id t path ≡ detect_cycle b c s fuel src_id t path
  unfolding detect_cycle
  detect_cycle_stable zero src_id t path h = absurd (h refl)
  detect_cycle_stable (suc fuel) src_id t path h = elim (Bool-cases (contains path (target_id t))) [
    | inl e ↦ ground arith
    | inr e ↦ elim (Result-cases (dependencies b c s t)) [
      | inr (x, e') ↦ ground arith
      | inl (ds, e') ↦ ground (
        arith,
        detect_any_stable (detect_cycle b c s fuel src_id) (detect_cycle b c s (suc fuel) src_id)
            src_id (path ++ target_id t ∷ [])
            (λ d. detect_cycle_stable fuel src_id d (path ++ target_id t ∷ [])) ds,
      )
    ]
  ]

  check_cycle_stable :
      (fuel : ℕ) (src_id : Text) (ts : List Target)
      → check_cycle b c s fuel src_id ts ≢ undecided
      → check_cycle b c s (suc fuel) src_id ts ≡ check_cycle b c s fuel src_id ts
  unfolding check_cycle
  check_cycle_stable fuel src_id [] h = refl
  check_cycle_stable fuel src_id (t ∷ ts) h =
      ground
        (arith, detect_cycle_stable fuel src_id t (src_id ∷ []), check_cycle_stable fuel src_id ts)

  module _ (src_id : Text) (objects : List Text) (covers : Covers b c s objects) where
    check_cycle_more :
        (n fuel : ℕ) (ts : List Target)
        → length objects < fuel
        → check_cycle b c s (n + fuel) src_id ts ≡ check_cycle b c s fuel src_id ts
    check_cycle_more zero fuel ts h = ap (λ f. check_cycle b c s f src_id ts) (omega arith)
    check_cycle_more (suc n) fuel ts h =
        let more : suc n + fuel ≡ suc (n + fuel) = omega arith in
        ap (λ f. check_cycle b c s f src_id ts) more
        ∙ check_cycle_stable (n + fuel) src_id ts
            (check_cycle_decides b c s src_id objects covers (n + fuel) ts (omega arith))
        ∙ check_cycle_more n fuel ts h

    -- With any two amounts of fuel above the number of objects to fetch, checkCycle gives the same
    -- answer.
    check_cycle_fuel :
        (fuel fuel' : ℕ) (ts : List Target)
        → length objects < fuel
        → length objects < fuel'
        → check_cycle b c s fuel src_id ts ≡ check_cycle b c s fuel' src_id ts
    check_cycle_fuel fuel fuel' ts h h' =
        let least = suc (length objects) in
        let extra : fuel ≡ (fuel - least) + least = omega arith in
        let extra' : fuel' ≡ (fuel' - least) + least = omega arith in
        ap (λ f. check_cycle b c s f src_id ts) extra
        ∙ check_cycle_more (fuel - least) least ts (omega arith)
        ∙ sym (check_cycle_more (fuel' - least) least ts (omega arith))
        ∙ sym (ap (λ f. check_cycle b c s f src_id ts) extra')
