-- ===== src/Controller/Cycles/Termination.antt =====
-- internal/controller/cycle_detection.go: the path of detectCycle and the depth of its recursion.
use mathlib.Core.List.Memᴰ
use cascader.Common.{
  ℕ, zero, suc, ◌+◌, ◌<◌, ◌≡◌, ◌≢◌, inl, inr, ⊎_elim, Text, List, [], ◌∷◌, ◌++◌, Memᴰ, arith,
  contains, contains_iff, false, Bool-cases, length, length-append,
}
use cascader.Errors.{ok, Result-cases}
use cascader.Client.{Client}
use cascader.Targets.{Target, target_id}
use cascader.Controller.{BaseReconciler}
use cascader.Controller.Cycles.{
  Detection, out_of_fuel, dependencies, detect_any, detect_cycle, undecided, check_cycle,
}
use cascader.Controller.Cycles.Graph.{Distinct, Distinct-concat, Distinct-length_le}

module _ (b : BaseReconciler) (c : Client) (s : c.State) where
  -- The identifiers listed are at least those of the objects that can be fetched.
  abbrev pub Covers : List Text → Type 0
  Covers objects =
      (t : Target) (ds : List Target) → dependencies b c s t ≡ ok ds → Memᴰ (target_id t) objects

  detect_any_ends :
      (detect : Target → List Text → Detection) (src_id : Text) (path : List Text)
      → ((d : Target) → detect d path ≢ out_of_fuel)
      → (ds : List Target) → detect_any b c s detect src_id path ds ≢ out_of_fuel
  unfolding detect_any
  detect_any_ends detect src_id path ends [] = λ h. cc
  detect_any_ends detect src_id path ends (d ∷ ds) =
      ground (arith, ends d, detect_any_ends detect src_id path ends ds)

  module _ (src_id : Text) (objects : List Text) (covers : Covers objects) where
    -- What the walk keeps of its path.
    record IsPath (path : List Text) : Type 0 where
      distinct : Distinct path
      known : (a : Text) → Memᴰ a path → Memᴰ a (src_id ∷ objects)

    IsPath-concat :
        (path : List Text) (t : Target) (ds : List Target)
        → contains path (target_id t) ≡ false
        → dependencies b c s t ≡ ok ds
        → IsPath path
        → IsPath (path ++ target_id t ∷ [])
    IsPath-concat path t ds new e p = record {
      distinct =
          Distinct-concat path (target_id t) (λ m. cc (new, (contains_iff path (target_id t)).1 m))
            p.distinct;
      known = λ a m.
          ⊎_elim (p.known a)
            (λ last. Memᴰ.tail (Memᴰ.cast (Memᴰ.eq_of_singleton last) (covers t ds e)))
            (Memᴰ.append_cases path m);
    }

    detect_cycle_ends :
        (fuel : ℕ) (t : Target) (path : List Text)
        → IsPath path
        → suc (length objects) < fuel + length path
        → detect_cycle b c s fuel src_id t path ≢ out_of_fuel
    unfolding detect_cycle
    detect_cycle_ends zero t path p h =
        absurd (omega (arith, Distinct-length_le path (src_id ∷ objects) p.distinct p.known))
    detect_cycle_ends (suc fuel) t path p h = elim (Bool-cases (contains path (target_id t))) [
      | inl e ↦ ground arith
      | inr new ↦ elim (Result-cases (dependencies b c s t)) [
        | inr (x, e) ↦ ground arith
        | inl (ds, e) ↦
            let p' = IsPath-concat path t ds new e p in
            let size = length-append path (target_id t ∷ []) in
            ground (
              arith,
              detect_any_ends (detect_cycle b c s fuel src_id) src_id (path ++ target_id t ∷ [])
                  (λ d.
                    detect_cycle_ends fuel d (path ++ target_id t ∷ []) p' (omega (arith, size)))
                  ds,
            )
      ]
    ]

    source-IsPath : IsPath (src_id ∷ [])
    source-IsPath = record {
      distinct = (Memᴰ.not-nil, tt);
      known = λ a m. Memᴰ.head (Memᴰ.eq_of_singleton m);
    }

    -- With more fuel than there are objects to fetch checkCycle does not run out of it: it accepts
    -- the targets or refuses them.
    pub check_cycle_decides :
        (fuel : ℕ) (ts : List Target)
        → length objects < fuel
        → check_cycle b c s fuel src_id ts ≢ undecided
    unfolding check_cycle
    check_cycle_decides fuel [] h = λ e. cc
    check_cycle_decides fuel (t ∷ ts) h = ground (
      arith,
      detect_cycle_ends fuel t (src_id ∷ []) source-IsPath (omega arith),
      check_cycle_decides fuel ts h,
    )
