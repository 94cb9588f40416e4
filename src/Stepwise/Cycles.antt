-- ===== src/Stepwise/Cycles.antt =====
-- internal/controller/cycle_detection.go, one Get at a time.
pub mod Reads
use cascader.Common.{
  ℕ, zero, suc, Text, true, false, List, [], ◌∷◌, ◌++◌, text_eq, contains, codes, if◌then◌else◌,
}
use cascader.Errors.{Result, ok, err, direct_kind, indirect_kind, cycle_check_failed, cycle}
use cascader.Strings.{join}
use cascader.Client.{Client}
use cascader.Targets.{Target, target_id}
use cascader.Processes.{done, ◌>>=◌}
use cascader.Controller.{BaseReconciler}
use cascader.Controller.Cycles.{
  Detection, found, clear, failed, out_of_fuel, Check, no_cycle, refused, undecided, dependencies,
}
use cascader.Stepwise.{Program, asking}

module _ (b : BaseReconciler) (c : Client) where
  -- After the recursive call of detectCycle: only if there is no cycle the loop goes on.
  unfoldable pub detect_rest : Program c Detection → Detection → Program c Detection
  detect_rest rest clear = rest
  detect_rest rest d = done d

  -- The loop over the dependencies.
  unfoldable pub detect_any_program :
      (Target → List Text → Program c Detection)
      → Text
      → List Text
      → List Target
      → Program c Detection
  unfolding detect_rest
  detect_any_program detect src_id path [] = done clear
  detect_any_program detect src_id path (d ∷ ds) =
      let rest = detect_any_program detect src_id path ds in
      if text_eq (target_id d) src_id
      then done (found (path ++ src_id ∷ []))
      else detect d path >>= detect_rest rest

  -- After the dependencies of the target are read.
  unfoldable pub detect_in :
      (Target → List Text → Program c Detection)
      → Text
      → List Text
      → Result (List Target)
      → Program c Detection
  unfolding detect_any_program
  detect_in detect src_id path (err e) = done (failed e)
  detect_in detect src_id path (ok ds) = detect_any_program detect src_id path ds

  -- detectCycle
  unfoldable pub detect_cycle_program : ℕ → Text → Target → List Text → Program c Detection
  unfolding detect_in
  detect_cycle_program zero src_id t path = done out_of_fuel
  detect_cycle_program (suc fuel) src_id t path = elim (contains path (target_id t)) [
    | true ↦ done (found (path ++ target_id t ∷ []))
    | false ↦
        asking c (λ s. dependencies b c s t)
        >>= detect_in (detect_cycle_program fuel src_id) src_id (path ++ target_id t ∷ [])
  ]

  -- After the walk from one of the targets.
  unfoldable pub check_rest : Text → Program c Check → Detection → Program c Check
  check_rest src_id rest (failed e) = done (refused (cycle_check_failed e))
  check_rest src_id rest (found path) = done (
      refused (
        cycle
          (record { kind = indirect_kind; source_id = src_id; path = join (codes " -> ") path })))
  check_rest src_id rest out_of_fuel = done undecided
  check_rest src_id rest clear = rest

  -- checkCycle
  unfoldable pub check_cycle_program : ℕ → Text → List Target → Program c Check
  unfolding check_rest
  check_cycle_program fuel src_id [] = done no_cycle
  check_cycle_program fuel src_id (t ∷ ts) =
      let rest = check_cycle_program fuel src_id ts in
      if text_eq (target_id t) src_id
      then done
          (refused (cycle (record { kind = direct_kind; source_id = src_id; path = target_id t })))
      else detect_cycle_program fuel src_id t (src_id ∷ []) >>= check_rest src_id rest
