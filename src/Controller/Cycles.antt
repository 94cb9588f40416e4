-- ===== src/Controller/Cycles.antt =====
-- internal/controller/cycle_detection.go: the walk over the dependencies. The recursion of
-- detectCycle follows the cluster, not a structure, so it takes fuel.
pub mod Graph
pub mod Complete
pub mod Sound
pub mod Termination
pub mod Decides
pub mod Order
pub mod Fuel
pub mod Cascade
use cascader.Common.{
  ℕ, zero, suc, Text, true, false, List, [], ◌∷◌, ◌++◌, text_eq, contains, codes, if◌then◌else◌,
}
use cascader.Errors.{
  Error, Result, ok, err, direct_kind, indirect_kind, fetch_resource_failed,
  extract_dependencies_failed, cycle_check_failed, cycle,
}
use cascader.Strings.{join}
use cascader.Objects.{ObjectMeta}
use cascader.Client.{Client}
use cascader.Targets.{Target, target_id, fetch_meta}
use cascader.Controller.{BaseReconciler}
use cascader.Controller.Extract.{extract_targets}

-- What detectCycle returns: a cycle, none, or an error.
pub data Detection : Type 0 where
  found : List Text → Detection
  clear : Detection
  failed : Error → Detection
  out_of_fuel : Detection

-- What checkCycle returns; `undecided` is a walk that ran out of fuel.
pub data Check : Type 0 where
  no_cycle : Check
  refused : Error → Check
  undecided : Check

module _ (b : BaseReconciler) (c : Client) (s : c.State) where
  unfoldable pub dependencies_of : ObjectMeta → Result (List Target)
  dependencies_of meta = elim (extract_targets b meta.namespace meta.annotations) [
    | err e ↦ err (extract_dependencies_failed e)
    | ok ts ↦ ok ts
  ]

  -- Fetch the target's resource and extract its dependencies.
  unfoldable pub dependencies : Target → Result (List Target)
  unfolding dependencies_of
  dependencies t = elim (fetch_meta c s t) [
    | err e ↦ err (fetch_resource_failed (target_id t) e)
    | ok meta ↦ dependencies_of meta
  ]

  -- The loop over the dependencies; `detect` is the recursive call, and `path` ends in the target
  -- that they belong to.
  unfoldable pub detect_any :
      (Target → List Text → Detection) → Text → List Text → List Target → Detection
  detect_any detect src_id path [] = clear
  detect_any detect src_id path (d ∷ ds) =
      let rest = detect_any detect src_id path ds in
      if text_eq (target_id d) src_id then found (path ++ src_id ∷ []) else elim (detect d path) [
        | failed e ↦ failed e
        | found walk ↦ found walk
        | out_of_fuel ↦ out_of_fuel
        | clear ↦ rest
      ]

  -- detectCycle
  unfoldable pub detect_cycle : ℕ → Text → Target → List Text → Detection
  unfolding detect_any
  detect_cycle zero src_id t path = out_of_fuel
  detect_cycle (suc fuel) src_id t path =
      let path' = path ++ target_id t ∷ [] in
      elim (contains path (target_id t)) [
        | true ↦ found path'
        | false ↦ elim (dependencies t) [
          | err e ↦ failed e
          | ok ds ↦ detect_any (detect_cycle fuel src_id) src_id path' ds
        ]
      ]

  unfoldable pub check_cycle : ℕ → Text → List Target → Check
  check_cycle fuel src_id [] = no_cycle
  check_cycle fuel src_id (t ∷ ts) =
      let rest = check_cycle fuel src_id ts in
      if text_eq (target_id t) src_id
      then refused (cycle (record { kind = direct_kind; source_id = src_id; path = target_id t }))
      else elim (detect_cycle fuel src_id t (src_id ∷ [])) [
        | failed e ↦ refused (cycle_check_failed e)
        | found path ↦ refused (
            cycle (record {
              kind = indirect_kind;
              source_id = src_id;
              path = join (codes " -> ") path;
            }))
        | out_of_fuel ↦ undecided
        | clear ↦ rest
      ]
