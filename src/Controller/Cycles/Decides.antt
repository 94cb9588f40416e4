-- ===== src/Controller/Cycles/Decides.antt =====
-- internal/controller/cycle_detection.go: what the errors of checkCycle mean, and its acceptance.
use mathlib.Core.List.Memᴰ
use cascader.Common.{
  ℕ, zero, suc, ◌<◌, ◌≡◌, refl, sym, subst, ◌∙◌, ◌↔◌, ◌⊎◌, inl, inr, Text, List, [], ◌∷◌, ◌++◌,
  Memᴰ, arith, text_eq, contains, Bool-cases, length, codes,
}
use cascader.Errors.{Error, ok, err, CycleError, direct_kind, indirect_kind, cycle, Result-cases}
use cascader.Strings.{join}
use cascader.Client.{Client}
use cascader.Targets.{Target, target_id}
use cascader.Controller.{BaseReconciler}
use cascader.Controller.Cycles.{
  Detection, failed, dependencies, detect_any, detect_cycle, no_cycle, refused, undecided,
  check_cycle,
}
use cascader.Controller.Cycles.Graph.{IsWalk, ids, end_of, Distinct, Distinct-not_ClosesUp}
use cascader.Controller.Cycles.Complete.{check_cycle-Distinct, check_cycle-resolves}
use cascader.Controller.Cycles.Sound.{Detection-cases, Reported, check_cycle-Reported}
use cascader.Controller.Cycles.Termination.{Covers, check_cycle_decides}

module _ (b : BaseReconciler) (c : Client) (s : c.State) where
  -- Some walk from `t` leads to an object that cannot be fetched or parsed.
  abbrev Breaks : Target → Type 0
  Breaks t =
      (us : List Target) × IsWalk b c s t us
      × ((e : Error) × (dependencies b c s (end_of t us) ≡ err e))

  failed_step :
      (detect : Target → List Text → Detection) (src_id : Text) (path : List Text) (d : Target)
      (ds : List Target) (e : Error)
      → detect_any b c s detect src_id path (d ∷ ds) ≡ failed e
      → (detect d path ≡ failed e) ⊎ (detect_any b c s detect src_id path ds ≡ failed e)
  unfolding detect_any
  failed_step detect src_id path d ds e h = ground arith

  detect_any-failed :
      (detect : Target → List Text → Detection) (src_id : Text) (path : List Text)
      → ((d : Target) (e : Error) → detect d path ≡ failed e → Breaks d)
      → (ds : List Target) (e : Error) → detect_any b c s detect src_id path ds ≡ failed e
      → (d : Target) × Memᴰ d ds × Breaks d
  unfolding detect_any
  detect_any-failed detect src_id path breaks [] e h = absurd (cc)
  detect_any-failed detect src_id path breaks (d ∷ ds) e h =
      elim (failed_step detect src_id path d ds e h) [
        | inl here ↦ (d, Memᴰ.head refl, breaks d e here)
        | inr after ↦
            let (d', m, walk) = detect_any-failed detect src_id path breaks ds e after in
            (d', Memᴰ.tail m, walk)
      ]

  -- Either the object of the target cannot be read, or the loop over its dependencies failed.
  detect_cycle-failed :
      (fuel : ℕ) (src_id : Text) (t : Target) (path : List Text) (e : Error)
      → detect_cycle b c s (suc fuel) src_id t path ≡ failed e
      → (dependencies b c s t ≡ err e)
        ⊎ ((ds : List Target) × (dependencies b c s t ≡ ok ds)
            × (detect_any b c s
                  (detect_cycle b c s fuel src_id)
                  src_id
                  (path ++ target_id t ∷ [])
                  ds
                ≡ failed e))
  unfolding detect_cycle
  detect_cycle-failed fuel src_id t path e h = elim (Bool-cases (contains path (target_id t))) [
    | inl on_path ↦ absurd (ground arith)
    | inr new ↦ elim (Result-cases (dependencies b c s t)) [
      | inl (ds, e') ↦ inr (ds, e', ground arith)
      | inr (x, e') ↦ inl (ground arith)
    ]
  ]

  detect_cycle-Breaks :
      (fuel : ℕ) (src_id : Text) (path : List Text) (t : Target) (e : Error)
      → detect_cycle b c s fuel src_id t path ≡ failed e
      → Breaks t
  unfolding detect_cycle
  detect_cycle-Breaks zero src_id path t e h = absurd (cc)
  detect_cycle-Breaks (suc fuel) src_id path t e h =
      elim (detect_cycle-failed fuel src_id t path e h) [
        | inl broken ↦ ([], tt, (e, broken))
        | inr (ds, read, deeper) ↦
            let path' = path ++ target_id t ∷ [] in
            let (d, m, (us, walk, broken)) =
              detect_any-failed (detect_cycle b c s fuel src_id) src_id path'
                (λ u e' h'. detect_cycle-Breaks fuel src_id path' u e' h') ds e deeper in
            (d ∷ us, ((ds, read, m), walk), broken)
      ]

  check_cycle_step :
      (fuel : ℕ) (src_id : Text) (t : Target) (ts : List Target)
      → ((e : CycleError) × (check_cycle b c s fuel src_id (t ∷ ts) ≡ refused (cycle e)))
        ⊎ (((e : Error) × (detect_cycle b c s fuel src_id t (src_id ∷ []) ≡ failed e))
            ⊎ ((check_cycle b c s fuel src_id (t ∷ ts) ≡ undecided)
                ⊎ (check_cycle b c s fuel src_id (t ∷ ts) ≡ check_cycle b c s fuel src_id ts)))
  unfolding check_cycle
  check_cycle_step fuel src_id t ts = elim (Bool-cases (text_eq (target_id t) src_id)) [
    | inl same ↦
        inl (record { kind = direct_kind; source_id = src_id; path = target_id t }, rw same)
    | inr differ ↦ elim (Detection-cases (detect_cycle b c s fuel src_id t (src_id ∷ []))) [
      | inl (spelled, d) ↦ inl (
        record { kind = indirect_kind; source_id = src_id; path = join (codes " -> ") spelled },
        rw (differ, d),
      )
      | inr (inl d) ↦ inr (inr (inr (rw (differ, d))))
      | inr (inr (inl d)) ↦ inr (inr (inl (rw (differ, d))))
      | inr (inr (inr (e, d))) ↦ inr (inl (e, d))
    ]
  ]

  -- The check accepts, refuses with a cycle, meets an object that cannot be read, or gives up.
  abbrev Outcomes : ℕ → Text → List Target → Type 0
  Outcomes fuel src_id ts =
      (check_cycle b c s fuel src_id ts ≡ no_cycle)
      ⊎ (((e : CycleError) × (check_cycle b c s fuel src_id ts ≡ refused (cycle e)))
          ⊎ (((t : Target) × Memᴰ t ts × Breaks t)
              ⊎ (check_cycle b c s fuel src_id ts ≡ undecided)))

  check_cycle-Outcomes : (fuel : ℕ) (src_id : Text) (ts : List Target) → Outcomes fuel src_id ts
  unfolding check_cycle
  check_cycle-Outcomes fuel src_id [] = inl refl
  check_cycle-Outcomes fuel src_id (t ∷ ts) = elim (check_cycle_step fuel src_id t ts) [
    | inl refusal ↦ inr (inl refusal)
    | inr (inl (e, broken)) ↦
        inr
          (inr (inl (t, Memᴰ.head refl, detect_cycle-Breaks fuel src_id (src_id ∷ []) t e broken)))
    | inr (inr (inl gives_up)) ↦ inr (inr (inr gives_up))
    | inr (inr (inr same)) ↦ elim (check_cycle-Outcomes fuel src_id ts) [
      | inl h ↦ inl (same ∙ h)
      | inr (inl (e, h)) ↦ inr (inl (e, same ∙ h))
      | inr (inr (inl (u, m, broken))) ↦ inr (inr (inl (u, Memᴰ.tail m, broken)))
      | inr (inr (inr h)) ↦ inr (inr (inr (same ∙ h)))
    ]
  ]

  -- On every walk from one of the targets along the dependencies, the source and the targets met
  -- have pairwise distinct identifiers, and the object of the last can be read.
  abbrev pub IsAcyclic : Text → List Target → Type 0
  IsAcyclic src_id ts =
      (t : Target) (us : List Target)
      → Memᴰ t ts
      → IsWalk b c s t us
      → Distinct (src_id ∷ ids (t ∷ us))
        × ((ds : List Target) × (dependencies b c s (end_of t us) ≡ ok ds))

  IsAcyclic-not_Reported :
      (src_id : Text) (ts : List Target) (e : CycleError)
      → IsAcyclic src_id ts
      → ¬ Reported b c s src_id ts e
  IsAcyclic-not_Reported src_id ts e acyclic (_, inl (_, m, _)) = repeats ts acyclic m
    where
      repeats :
          (us : List Target)
          → ((t : Target) (vs : List Target)
              → Memᴰ t us
              → IsWalk b c s t vs
              → Distinct (src_id ∷ ids (t ∷ vs))
                × ((ds : List Target) × (dependencies b c s (end_of t vs) ≡ ok ds)))
          → ¬ Memᴰ src_id (ids us)
      repeats [] _ k = Memᴰ.not-nil k
      repeats (u ∷ us) all k = elim (Memᴰ.cases_cons k) [
        | inl same ↦ (all u [] (Memᴰ.head refl) tt).0.0 (Memᴰ.head same)
        | inr later ↦ repeats us (λ t vs m' walk. all t vs (Memᴰ.tail m') walk) later
      ]
  IsAcyclic-not_Reported src_id ts e acyclic
        (_, inr (_, (spelled, _, (t, m, (us, walk, spells, closed))))) =
      Distinct-not_ClosesUp spelled (subst Distinct (sym spells) (acyclic t us m walk).0) closed

  -- In a cluster with fewer objects to fetch than there is fuel, checkCycle accepts the targets
  -- exactly if on every walk from a target along the dependencies the identifiers of the source
  -- and of the targets met are pairwise distinct, and each object met can be fetched and its
  -- annotations parsed.
  pub check_cycle_iff :
      (src_id : Text) (objects : List Text)
      → Covers b c s objects
      → (fuel : ℕ) (ts : List Target) → length objects < fuel
      → (check_cycle b c s fuel src_id ts ≡ no_cycle) ↔ IsAcyclic src_id ts
  check_cycle_iff src_id objects covers fuel ts h = (
    λ e t us m walk. (
      check_cycle-Distinct b c s fuel src_id ts e t us m walk,
      check_cycle-resolves b c s fuel src_id ts e t us m walk,
    ),
    λ acyclic. elim (check_cycle-Outcomes fuel src_id ts) [
      | inl e ↦ e
      | inr (inl (e, refusal)) ↦ absurd (
          IsAcyclic-not_Reported src_id ts e acyclic
            (check_cycle-Reported b c s fuel src_id ts e refusal))
      | inr (inr (inl (t, m, (us, walk, (e, broken))))) ↦
          let (ds, read) = (acyclic t us m walk).1 in absurd (cc (read, broken))
      | inr (inr (inr gives_up)) ↦
          absurd (check_cycle_decides b c s src_id objects covers fuel ts h gives_up)
    ],
  )
