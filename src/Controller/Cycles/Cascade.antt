-- ===== src/Controller/Cycles/Cascade.antt =====
-- internal/controller/cycle_detection.go: the reloads that an accepted source can set off, one
-- after the other.
use mathlib.Core.List.Memᴰ
use mathlib.Core.WellFounded.{Acc}
use cascader.Common.{
  ℕ, zero, suc, ◌<◌, ◌≡◌, refl, inl, inr, Text, List, [], ◌∷◌, Memᴰ, arith, length,
}
use cascader.Errors.{ok}
use cascader.Client.{Client}
use cascader.Targets.{Target}
use cascader.Controller.{BaseReconciler}
use cascader.Controller.Cycles.{dependencies, no_cycle, check_cycle}
use cascader.Controller.Cycles.Graph.{IsWalk, Edge, end_of, ids, Distinct-length_le}
use cascader.Controller.Cycles.Termination.{Covers}
use cascader.Controller.Cycles.Complete.{check_cycle-Distinct, check_cycle-resolves}

length-ids : (ts : List Target) → length (ids ts) ≡ length ts
length-ids [] = refl
length-ids (t ∷ ts) = omega (arith, length-ids ts)

module _ (b : BaseReconciler) (c : Client) (s : c.State) where
  -- `u` is reloaded because of `t`.
  abbrev pub ReloadedBy : Target → Target → Type 0
  ReloadedBy u t = Edge b c s t u

  -- Everything on a walk from `t` can be read.
  abbrev Readable : Target → Type 0
  Readable t =
      (us : List Target)
      → IsWalk b c s t us
      → (ds : List Target) × (dependencies b c s (end_of t us) ≡ ok ds)

  walk_known :
      (objects : List Text)
      → Covers b c s objects
      → (t : Target) → Readable t
      → (us : List Target) → IsWalk b c s t us
      → (a : Text) → Memᴰ a (ids (t ∷ us))
      → Memᴰ a objects
  walk_known objects covers t readable [] walk a m =
      let (ds, e) = readable [] tt in Memᴰ.cast (Memᴰ.eq_of_singleton m) (covers t ds e)
  walk_known objects covers t readable (u ∷ us) (edge, walk) a m = elim (Memᴰ.cases_cons m) [
    | inl same ↦ let (ds, e) = readable [] tt in Memᴰ.cast same (covers t ds e)
    | inr later ↦ walk_known objects covers u (λ vs w. readable (u ∷ vs) (edge, w)) us walk a later
  ]

  bounded-Acc :
      (n : ℕ) (t : Target)
      → ((us : List Target) → IsWalk b c s t us → length us < n)
      → Acc ReloadedBy t
  bounded-Acc zero t bounded = absurd (omega (arith, bounded [] tt))
  bounded-Acc (suc n) t bounded =
      Acc.intro t
        (λ u edge. bounded-Acc n u (λ us walk. omega (arith, bounded (u ∷ us) (edge, walk))))

  -- If checkCycle accepts the targets of a source in a cluster with finitely many objects to fetch,
  -- the reloads that start from a target and follow the dependencies come to an end: the relation
  -- is well founded below each target.
  pub check_cycle-Acc :
      (src_id : Text) (objects : List Text)
      → Covers b c s objects
      → (fuel : ℕ) (ts : List Target) → check_cycle b c s fuel src_id ts ≡ no_cycle
      → (t : Target) → Memᴰ t ts
      → Acc ReloadedBy t
  check_cycle-Acc src_id objects covers fuel ts accepted t m =
      bounded-Acc (length objects) t bounded
    where
      readable : Readable t
      readable us walk = check_cycle-resolves b c s fuel src_id ts accepted t us m walk

      bounded : (us : List Target) → IsWalk b c s t us → length us < length objects
      bounded us walk =
          let (_, distinct) = check_cycle-Distinct b c s fuel src_id ts accepted t us m walk in
          omega (
            arith,
            length-ids (t ∷ us),
            Distinct-length_le (ids (t ∷ us)) objects distinct
                (walk_known objects covers t readable us walk),
          )
