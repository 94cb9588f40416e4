-- ===== src/Controller/Cycles/Complete.antt =====
-- internal/controller/cycle_detection.go: a walk that finds nothing.
use mathlib.Core.List.Memᴰ
use cascader.Common.{
  ℕ, zero, suc, ◌≡◌, Text, List, [], ◌∷◌, ◌++◌, Memᴰ, arith, All, All-Memᴰ, contains, contains_iff,
  false, subst,
}
use cascader.Errors.{ok}
use cascader.Client.{Client}
use cascader.Targets.{Target, target_id}
use cascader.Controller.{BaseReconciler}
use cascader.Controller.Cycles.{
  Detection, clear, dependencies, detect_any, detect_cycle, no_cycle, check_cycle,
}
use cascader.Controller.Cycles.Graph.{IsWalk, Edge, ids, end_of, Distinct, Fresh, Distinct-append}

module _ (b : BaseReconciler) (c : Client) (s : c.State) where
  detect_any-clear :
      (detect : Target → List Text → Detection) (src_id : Text) (path : List Text)
      (ds : List Target)
      → detect_any b c s detect src_id path ds ≡ clear
      → All (λ d. detect d path ≡ clear) ds
  unfolding detect_any
  detect_any-clear detect src_id path [] h = tt
  detect_any-clear detect src_id path (d ∷ ds) h =
      ground (arith, detect_any-clear detect src_id path ds)

  detect_cycle-clear :
      (fuel : ℕ) (src_id : Text) (t : Target) (path : List Text)
      → detect_cycle b c s (suc fuel) src_id t path ≡ clear
      → (contains path (target_id t) ≡ false)
        × ((ds : List Target) × (dependencies b c s t ≡ ok ds)
            × (detect_any b c s
                  (detect_cycle b c s fuel src_id)
                  src_id
                  (path ++ target_id t ∷ [])
                  ds
                ≡ clear))
  unfolding detect_cycle
  detect_cycle-clear fuel src_id t path h = ground arith

  detect_cycle-next :
      (fuel : ℕ) (src_id : Text) (t : Target) (path : List Text) (u : Target)
      → detect_cycle b c s (suc fuel) src_id t path ≡ clear
      → Edge b c s t u
      → detect_cycle b c s fuel src_id u (path ++ target_id t ∷ []) ≡ clear
  detect_cycle-next fuel src_id t path u h (ds', e', m) =
      let (_, (ds, e, none_found)) = detect_cycle-clear fuel src_id t path h in
      let same : ds' ≡ ds = cc (e, e') in
      All-Memᴰ _ ds
        (detect_any-clear (detect_cycle b c s fuel src_id) src_id (path ++ target_id t ∷ []) ds
          none_found)
        (subst (Memᴰ u) same m)

  detect_cycle-Fresh :
      (fuel : ℕ) (src_id : Text) (t : Target) (path : List Text) (us : List Target)
      → detect_cycle b c s fuel src_id t path ≡ clear
      → IsWalk b c s t us
      → Fresh path (ids (t ∷ us))
  unfolding detect_cycle
  detect_cycle-Fresh zero src_id t path us h walk = cc
  detect_cycle-Fresh (suc fuel) src_id t path [] h walk =
      let (new, _) = detect_cycle-clear fuel src_id t path h in
      (λ m. cc (new, (contains_iff path (target_id t)).1 m), tt)
  detect_cycle-Fresh (suc fuel) src_id t path (u ∷ us) h (edge, walk) =
      let (new, _) = detect_cycle-clear fuel src_id t path h in
      (
        λ k. cc (new, (contains_iff path (target_id t)).1 k),
        detect_cycle-Fresh fuel src_id u (path ++ target_id t ∷ []) us
            (detect_cycle-next fuel src_id t path u h edge) walk,
      )

  -- Everything that the walk meets could be fetched, and its annotations parsed.
  detect_cycle-resolves :
      (fuel : ℕ) (src_id : Text) (t : Target) (path : List Text) (us : List Target)
      → detect_cycle b c s fuel src_id t path ≡ clear
      → IsWalk b c s t us
      → (ds : List Target) × (dependencies b c s (end_of t us) ≡ ok ds)
  unfolding detect_cycle
  detect_cycle-resolves zero src_id t path us h walk = absurd (cc)
  detect_cycle-resolves (suc fuel) src_id t path [] h walk =
      let (_, (ds, e, _)) = detect_cycle-clear fuel src_id t path h in (ds, e)
  detect_cycle-resolves (suc fuel) src_id t path (u ∷ us) h (edge, walk) =
      detect_cycle-resolves fuel src_id u (path ++ target_id t ∷ []) us
        (detect_cycle-next fuel src_id t path u h edge) walk

  check_cycle-clear :
      (fuel : ℕ) (src_id : Text) (ts : List Target)
      → check_cycle b c s fuel src_id ts ≡ no_cycle
      → All (λ t. detect_cycle b c s fuel src_id t (src_id ∷ []) ≡ clear) ts
  unfolding check_cycle
  check_cycle-clear fuel src_id [] h = tt
  check_cycle-clear fuel src_id (t ∷ ts) h = ground (arith, check_cycle-clear fuel src_id ts)

  -- If checkCycle accepts the targets, then on every walk from a target along the dependencies of
  -- the cluster the source and the targets met have pairwise distinct identifiers: no cycle, of
  -- the source or of anything behind it, can be reached.
  pub check_cycle-Distinct :
      (fuel : ℕ) (src_id : Text) (ts : List Target)
      → check_cycle b c s fuel src_id ts ≡ no_cycle
      → (t : Target) (us : List Target) → Memᴰ t ts
      → IsWalk b c s t us
      → Distinct (src_id ∷ ids (t ∷ us))
  check_cycle-Distinct fuel src_id ts h t us m walk =
      Distinct-append (src_id ∷ []) (ids (t ∷ us)) (Memᴰ.not-nil, tt)
        (detect_cycle-Fresh fuel src_id t (src_id ∷ []) us
          (All-Memᴰ _ ts (check_cycle-clear fuel src_id ts h) m) walk)

  -- And every object on such a walk was fetched.
  pub check_cycle-resolves :
      (fuel : ℕ) (src_id : Text) (ts : List Target)
      → check_cycle b c s fuel src_id ts ≡ no_cycle
      → (t : Target) (us : List Target) → Memᴰ t ts
      → IsWalk b c s t us
      → (ds : List Target) × (dependencies b c s (end_of t us) ≡ ok ds)
  check_cycle-resolves fuel src_id ts h t us m walk =
      detect_cycle-resolves fuel src_id t (src_id ∷ []) us
        (All-Memᴰ _ ts (check_cycle-clear fuel src_id ts h) m) walk
