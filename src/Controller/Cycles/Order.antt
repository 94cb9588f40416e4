-- ===== src/Controller/Cycles/Order.antt =====
-- internal/controller/cycle_detection.go: checkCycle under another order of the annotation map.
use mathlib.Core.List.{Permᴰ}
use mathlib.Core.List.Permᴰ
use cascader.Common.{ℕ, ◌<◌, ◌≡◌, refl, subst, ◌↔◌, Text, List, [], ◌∷◌, length}
use cascader.Errors.{Result, ok, err, fetch_resource_failed, extract_dependencies_failed}
use cascader.Objects.{ObjectMeta}
use cascader.Client.{Client}
use cascader.Targets.{Target, target_id, fetch_meta}
use cascader.Controller.{BaseReconciler}
use cascader.Controller.Extract.{extract_targets}
use cascader.Controller.Extract.Order.{Agree, Permᴰ-Memᴰ, extract_targets-Agree}
use cascader.Controller.Cycles.{dependencies_of, dependencies, no_cycle, check_cycle}
use cascader.Controller.Cycles.Graph.{IsWalk, end_of}
use cascader.Controller.Cycles.Termination.{Covers}
use cascader.Controller.Cycles.Decides.{IsAcyclic, check_cycle_iff}

-- What agrees with a success is a success.
Agree-ok :
    (r : Result (List Target)) (ts : List Target)
    → Agree (ok ts) r
    → (us : List Target) × (r ≡ ok us) × Permᴰ ts us
Agree-ok (ok us) ts h = (us, refl, h)
Agree-ok (err e) ts h = absurd h

-- The wrapping of the error of extractTargets.
abbrev wrap : Result (List Target) → Result (List Target)
wrap r = elim r [ err e ↦ err (extract_dependencies_failed e) | ok ts ↦ ok ts ]

module _ (c : Client) (s : c.State) where
  -- The same reconciler but for the order of its map.
  abbrev pub Reordered : BaseReconciler → BaseReconciler → Type 0
  Reordered b b' = Permᴰ b.annotation_kind_map b'.annotation_kind_map

  wrap-Agree : (q r : Result (List Target)) → Agree q r → Agree (wrap q) (wrap r)
  wrap-Agree (ok ts) (ok us) h = h
  wrap-Agree (err _) (err _) h = tt
  wrap-Agree (ok _) (err _) h = absurd h
  wrap-Agree (err _) (ok _) h = absurd h

  dependencies_of-Agree :
      (b b' : BaseReconciler) (meta : ObjectMeta)
      → Reordered b b'
      → Agree (dependencies_of b c s meta) (dependencies_of b' c s meta)
  unfolding dependencies_of
  dependencies_of-Agree b b' meta p =
      wrap-Agree (extract_targets b meta.namespace meta.annotations)
        (extract_targets b' meta.namespace meta.annotations)
        (extract_targets-Agree b b' meta.namespace meta.annotations p)

  -- What the dependencies are made of, once the object is fetched.
  abbrev fetched : BaseReconciler → Target → Result ObjectMeta → Result (List Target)
  fetched b t r = elim r [
    | err e ↦ err (fetch_resource_failed (target_id t) e)
    | ok meta ↦ dependencies_of b c s meta
  ]

  fetched-Agree :
      (b b' : BaseReconciler) (t : Target) (r : Result ObjectMeta)
      → Reordered b b'
      → Agree (fetched b t r) (fetched b' t r)
  fetched-Agree b b' t (err e) p = tt
  fetched-Agree b b' t (ok meta) p = dependencies_of-Agree b b' meta p

  dependencies-Agree :
      (b b' : BaseReconciler) (t : Target)
      → Reordered b b'
      → Agree (dependencies b c s t) (dependencies b' c s t)
  unfolding dependencies
  dependencies-Agree b b' t p = fetched-Agree b b' t (fetch_meta c s t) p

  dependencies-Reordered :
      (b b' : BaseReconciler) (t : Target) (ts : List Target)
      → Reordered b b'
      → dependencies b c s t ≡ ok ts
      → (us : List Target) × (dependencies b' c s t ≡ ok us) × Permᴰ ts us
  dependencies-Reordered b b' t ts p e =
      Agree-ok (dependencies b' c s t) ts
        (subst (λ r. Agree r (dependencies b' c s t)) e (dependencies-Agree b b' t p))

  IsWalk-Reordered :
      (b b' : BaseReconciler) (t : Target) (us : List Target)
      → Reordered b b'
      → IsWalk b c s t us
      → IsWalk b' c s t us
  IsWalk-Reordered b b' t [] p walk = tt
  IsWalk-Reordered b b' t (u ∷ us) p ((ds, e, m), walk) =
      let (ds', e', p') = dependencies-Reordered b b' t ds p e in
      ((ds', e', Permᴰ-Memᴰ p' m), IsWalk-Reordered b b' u us p walk)

  IsAcyclic-Reordered :
      (b b' : BaseReconciler) (src_id : Text) (ts ts' : List Target)
      → Reordered b b'
      → Permᴰ ts ts'
      → IsAcyclic b c s src_id ts
      → IsAcyclic b' c s src_id ts'
  IsAcyclic-Reordered b b' src_id ts ts' p q acyclic t us m walk =
      let (distinct, (ds, e)) =
        acyclic t us (Permᴰ-Memᴰ (Permᴰ.symm q) m)
          (IsWalk-Reordered b' b t us (Permᴰ.symm p) walk) in
      let (ds', e', _) = dependencies-Reordered b b' (end_of t us) ds p e in (distinct, (ds', e'))

  Covers-Reordered :
      (b b' : BaseReconciler) (objects : List Text)
      → Reordered b b'
      → Covers b c s objects
      → Covers b' c s objects
  Covers-Reordered b b' objects p covers t ds e =
      let (ds', e', _) = dependencies-Reordered b' b t ds (Permᴰ.symm p) e in covers t ds' e'

  -- In a cluster with fewer objects to fetch than there is fuel, whether checkCycle accepts depends
  -- neither on the order of the targets nor on the order in which the annotation map is iterated
  -- over.
  pub check_cycle-Reordered :
      (b b' : BaseReconciler) (src_id : Text) (objects : List Text) (fuel : ℕ)
      (ts ts' : List Target)
      → Reordered b b'
      → Permᴰ ts ts'
      → Covers b c s objects
      → length objects < fuel
      → (check_cycle b c s fuel src_id ts ≡ no_cycle)
        ↔ (check_cycle b' c s fuel src_id ts' ≡ no_cycle)
  check_cycle-Reordered b b' src_id objects fuel ts ts' p q covers h =
      let here = check_cycle_iff b c s src_id objects covers fuel ts h in
      let there =
        check_cycle_iff b' c s src_id objects (Covers-Reordered b b' objects p covers) fuel ts' h in
      (
        λ e. there.1 (IsAcyclic-Reordered b b' src_id ts ts' p q (here.0 e)),
        λ e.
            here.1
              (IsAcyclic-Reordered b' b src_id ts' ts (Permᴰ.symm p) (Permᴰ.symm q) (there.0 e)),
      )
