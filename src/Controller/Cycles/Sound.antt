-- ===== src/Controller/Cycles/Sound.antt =====
-- internal/controller/cycle_detection.go: a walk that reports a cycle.
use mathlib.Core.List.Memᴰ
use cascader.Common.{
  ℕ, zero, suc, ◌≡◌, refl, ap, sym, ◌∙◌, ◌⊎◌, inl, inr, Text, List, [], ◌∷◌, ◌++◌, Memᴰ, arith,
  text_eq, text_eq_iff, contains, contains_iff, true, Bool-cases, append_assoc, codes,
}
use cascader.Errors.{Error, ok, CycleError, direct_kind, indirect_kind, cycle, Result-cases}
use cascader.Strings.{join}
use cascader.Client.{Client}
use cascader.Targets.{Target, target_id}
use cascader.Controller.{BaseReconciler}
use cascader.Controller.Cycles.{
  Detection, found, failed, clear, out_of_fuel, dependencies, detect_any, detect_cycle, refused,
  check_cycle,
}
use cascader.Controller.Cycles.Graph.{IsWalk, ids, ClosesUp}

pub Detection-cases :
    (d : Detection)
    → ((spelled : List Text) × (d ≡ found spelled))
      ⊎ ((d ≡ clear) ⊎ ((d ≡ out_of_fuel) ⊎ ((e : Error) × (d ≡ failed e))))
Detection-cases (found spelled) = inl (spelled, refl)
Detection-cases clear = inr (inl refl)
Detection-cases out_of_fuel = inr (inr (inl refl))
Detection-cases (failed e) = inr (inr (inr (e, refl)))

module _ (b : BaseReconciler) (c : Client) (s : c.State) where
  -- A walk from `t`, spelled behind the path, of which the last identifier occurs earlier.
  abbrev pub Spells : List Text → Target → List Text → Type 0
  Spells path t spelled =
      (us : List Target) × IsWalk b c s t us × (spelled ≡ path ++ ids (t ∷ us)) × ClosesUp spelled

  -- Such a walk from one of the targets.
  abbrev pub Continues : List Text → List Target → List Text → Type 0
  Continues path ds spelled = (d : Target) × Memᴰ d ds × Spells path d spelled

  -- Why the loop found a cycle at `d`, or after it.
  abbrev Reason :
      (Target → List Text → Detection)
      → Text
      → List Text
      → Target
      → List Target
      → List Text
      → Type 0
  Reason detect src_id path d ds spelled =
      ((target_id d ≡ src_id) × (spelled ≡ path ++ src_id ∷ []))
      ⊎ ((detect d path ≡ found spelled) ⊎ (detect_any b c s detect src_id path ds ≡ found spelled))

  detect_any_step :
      (detect : Target → List Text → Detection) (src_id : Text) (path : List Text) (d : Target)
      (ds : List Target) (spelled : List Text)
      → detect_any b c s detect src_id path (d ∷ ds) ≡ found spelled
      → Reason detect src_id path d ds spelled
  unfolding detect_any
  detect_any_step detect src_id path d ds spelled h =
      ground (arith, text_eq_iff (target_id d) src_id)

  at_source :
      (src_id : Text) (path : List Text) (d : Target) (spelled : List Text)
      → Memᴰ src_id path
      → target_id d ≡ src_id
      → spelled ≡ path ++ src_id ∷ []
      → Spells path d spelled
  at_source src_id path d spelled on_path same e =
      ([], tt, e ∙ ap (λ i. path ++ i ∷ []) (sym same), (path, src_id, e, on_path))

  module _ (detect : Target → List Text → Detection) (src_id : Text) (path : List Text)
      (on_path : Memᴰ src_id path)
      (sound : (d : Target) (spelled : List Text)
        → detect d path ≡ found spelled
        → Spells path d spelled) where
    detect_any-Continues :
        (ds : List Target) (spelled : List Text)
        → detect_any b c s detect src_id path ds ≡ found spelled
        → Continues path ds spelled
    unfolding detect_any
    detect_any-Continues [] spelled h = cc
    detect_any-Continues (d ∷ ds) spelled h =
        elim (detect_any_step detect src_id path d ds spelled h) [
          | inl (same, e) ↦ (d, Memᴰ.head refl, at_source src_id path d spelled on_path same e)
          | inr (inl deeper) ↦ (d, Memᴰ.head refl, sound d spelled deeper)
          | inr (inr after) ↦
              let (d', m, walk) = detect_any-Continues ds spelled after in (d', Memᴰ.tail m, walk)
        ]

  -- Either the target is on the path, or the loop over its dependencies found the cycle.
  detect_cycle-found :
      (fuel : ℕ) (src_id : Text) (t : Target) (path spelled : List Text)
      → detect_cycle b c s (suc fuel) src_id t path ≡ found spelled
      → ((contains path (target_id t) ≡ true) × (spelled ≡ path ++ target_id t ∷ []))
        ⊎ ((ds : List Target) × (dependencies b c s t ≡ ok ds)
            × (detect_any b c s
                  (detect_cycle b c s fuel src_id)
                  src_id
                  (path ++ target_id t ∷ [])
                  ds
                ≡ found spelled))
  unfolding detect_cycle
  detect_cycle-found fuel src_id t path spelled h =
      elim (Bool-cases (contains path (target_id t))) [
        | inl e ↦ inl (e, ground arith)
        | inr e ↦ elim (Result-cases (dependencies b c s t)) [
          | inl (ds, e') ↦ inr (ds, e', ground arith)
          | inr (x, e') ↦ absurd (ground arith)
        ]
      ]

  detect_cycle-Spells :
      (fuel : ℕ) (src_id : Text) (t : Target) (path spelled : List Text)
      → Memᴰ src_id path
      → detect_cycle b c s fuel src_id t path ≡ found spelled
      → Spells path t spelled
  unfolding detect_cycle
  detect_cycle-Spells zero src_id t path spelled on_path h = cc
  detect_cycle-Spells (suc fuel) src_id t path spelled on_path h =
      elim (detect_cycle-found fuel src_id t path spelled h) [
        | inl (e, ends) ↦
            ([], tt, ends, (path, target_id t, ends, (contains_iff path (target_id t)).0 e))
        | inr (ds, e, deeper) ↦
            let on_path' = Memᴰ.append_left (target_id t ∷ []) on_path in
            let (d, m, (us, walk, spells, closed)) =
              detect_any-Continues (detect_cycle b c s fuel src_id) src_id
                (path ++ target_id t ∷ []) on_path'
                (λ u found_there h'. detect_cycle-Spells fuel src_id u _ found_there on_path' h') ds
                spelled deeper in
            (d ∷ us, ((ds, e, m), walk), spells ∙ append_assoc path (target_id t ∷ []) _, closed)
      ]

  -- What the error of checkCycle reports about the targets.
  abbrev pub Reported : Text → List Target → CycleError → Type 0
  Reported src_id ts e =
      (e.source_id ≡ src_id)
      × (((e.kind ≡ direct_kind) × Memᴰ src_id (ids ts) × (e.path ≡ src_id))
          ⊎ ((e.kind ≡ indirect_kind)
              × ((spelled : List Text) × (e.path ≡ join (codes " -> ") spelled)
                  × Continues (src_id ∷ []) ts spelled)))

  -- Why the check refused with a cycle: at `t`, behind it, or at a later target.
  abbrev Refusal : ℕ → Text → Target → List Target → CycleError → Type 0
  Refusal fuel src_id t ts e =
      ((target_id t ≡ src_id)
        × (e ≡ record { kind = direct_kind; source_id = src_id; path = target_id t }))
      ⊎ (((spelled : List Text) × (detect_cycle b c s fuel src_id t (src_id ∷ []) ≡ found spelled)
            × (e ≡ record {
              kind = indirect_kind;
              source_id = src_id;
              path = join (codes " -> ") spelled;
            }))
          ⊎ (check_cycle b c s fuel src_id ts ≡ refused (cycle e)))

  check_cycle_step :
      (fuel : ℕ) (src_id : Text) (t : Target) (ts : List Target) (e : CycleError)
      → check_cycle b c s fuel src_id (t ∷ ts) ≡ refused (cycle e)
      → Refusal fuel src_id t ts e
  unfolding check_cycle
  check_cycle_step fuel src_id t ts e h = elim (Bool-cases (text_eq (target_id t) src_id)) [
    | inl same ↦ inl ((text_eq_iff (target_id t) src_id).0 same, ground arith)
    | inr differ ↦ elim (Detection-cases (detect_cycle b c s fuel src_id t (src_id ∷ []))) [
      | inl (spelled, d) ↦ inr (inl (spelled, d, ground arith))
      | inr other ↦ inr (inr (ground arith))
    ]
  ]

  check_cycle-nil :
      (fuel : ℕ) (src_id : Text) (e : CycleError)
      → ¬ (check_cycle b c s fuel src_id [] ≡ refused (cycle e))
  unfolding check_cycle
  check_cycle-nil fuel src_id e h = cc

  Reported-later :
      (src_id : Text) (t : Target) (ts : List Target) (e : CycleError)
      → Reported src_id ts e
      → Reported src_id (t ∷ ts) e
  Reported-later src_id t ts e (source, inl (kind, m, path)) =
      (source, inl (kind, Memᴰ.tail m, path))
  Reported-later src_id t ts e (source, inr (kind, (spelled, path, (d, m, walk)))) =
      (source, inr (kind, (spelled, path, (d, Memᴰ.tail m, walk))))

  -- If checkCycle refuses the targets with a CycleError, the error names the source, and either it
  -- is direct, and the source's own identifier, its path, is that of a target, or it is indirect,
  -- and its path spells the source and then a walk from one of the targets along the dependencies
  -- of the cluster, of which the last identifier occurs earlier on the path.
  pub check_cycle-Reported :
      (fuel : ℕ) (src_id : Text) (ts : List Target) (e : CycleError)
      → check_cycle b c s fuel src_id ts ≡ refused (cycle e)
      → Reported src_id ts e
  check_cycle-Reported fuel src_id [] e h = absurd (check_cycle-nil fuel src_id e h)
  check_cycle-Reported fuel src_id (t ∷ ts) e h = elim (check_cycle_step fuel src_id t ts e h) [
    | inl (same, e') ↦ (
      ap (λ x. x.source_id) e',
      inl (ap (λ x. x.kind) e', Memᴰ.head (sym same), ap (λ x. x.path) e' ∙ same),
    )
    | inr (inl (spelled, d, e')) ↦ (
      ap (λ x. x.source_id) e',
      inr (
        ap (λ x. x.kind) e',
        (
          spelled,
          ap (λ x. x.path) e',
          (
            t,
            Memᴰ.head refl,
            detect_cycle-Spells fuel src_id t (src_id ∷ []) spelled (Memᴰ.head refl) d,
          ),
        ),
      ),
    )
    | inr (inr after) ↦ Reported-later src_id t ts e (check_cycle-Reported fuel src_id ts e after)
  ]
