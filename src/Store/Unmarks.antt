-- ===== src/Store/Unmarks.antt =====
-- internal/controller/base_reconciler.go: setting the mark and clearing it again, with a client that
-- reads its own writes.
use cascader.Common.{
  ◌≡◌, refl, sym, ap, ◌∙◌, subst, inl, inr, arith, Text, Bool-cases, false, Option, none, some,
}
use cascader.Errors.{Error}
use cascader.Objects.{Annotations}
use cascader.Client.{Client, Resource}
use cascader.Utils.Patches.{
  put_annotation, delete_annotation, patch_workload_annotation, delete_workload_annotation,
}
use cascader.Utils.Patches.Laws.{value_at, delete-put_annotation}
use cascader.Workloads.{Workload}
use cascader.Targets.{Target}
use cascader.Controller.{BaseReconciler, has_annotation}
use cascader.Controller.Reconcile.{World, mark_observed, clear_observed}
use cascader.Store.{View, Cluster, look, target_eq, target_eq_iff, store, Serves, Presents}
use cascader.Store.Triggers.{written, IsFresh}
use cascader.Store.Marks.{annotations_sent, store_self}

-- The same but for how the annotations are represented: each has the value that it had.
abbrev pub Restored : Option View → Option View → Type 0
Restored none none = Unit
Restored (some v) (some v') =
    (v' ≡ record v { annotations = v'.annotations })
    × ((j : Text) → value_at j v'.annotations ≡ value_at j v.annotations)
Restored _ _ = ⊥

Restored-refl : (x : Option View) → Restored x x
Restored-refl none = tt
Restored-refl (some v) = (refl, λ j. refl)

has_annotation-false :
    (k : Text) (a : Annotations) → has_annotation a k ≡ false → value_at k a ≡ none
unfolding has_annotation
has_annotation-false k none h = refl
has_annotation-false k (some m) h = ground arith

module _ (c : Client) {O : Type 0} (resource : Resource c.State O) (view : O → View)
    (key : Text → Text → Target) (serves : Serves c resource view key) (w : Workload O)
    (presents : Presents view w) where
  abbrev at : O → Target
  at object = key (view object).namespace (view object).name

  -- A write to one place and then another one to the same place.
  written_twice :
      (t place : Target) (v v' : View) (x x' x'' : Cluster)
      → x place ≡ some v
      → ((u : Target) → x' u ≡ store place v' x u)
      → (v'' : View) → ((u : Target) → x'' u ≡ store place v'' x' u)
      → Restored (some v) (some v'')
      → Restored (x t) (x'' t)
  written_twice t place v v' x x' x'' there first v'' second restored =
      elim (Bool-cases (target_eq place t)) [
        | inl same ↦
            subst (λ u. Restored (x u) (x'' u)) ((target_eq_iff place t).0 same)
              (subst (λ o. Restored o (x'' place)) (sym there)
                (subst (λ o. Restored (some v) o) (sym (second place ∙ store_self place v'' x'))
                  restored))
        | inr other ↦
            let kept : x' t ≡ x t = first t ∙ rw other refl in
            let kept' : x'' t ≡ x' t = second t ∙ rw other refl in
            subst (λ o. Restored (x t) o) (sym (kept' ∙ kept)) (Restored-refl (x t))
      ]

  -- What the removal of an annotation returns.
  abbrev pub removal : BaseReconciler → World c.State → O → Option Error
  removal b world object =
      (delete_workload_annotation resource w.annotated world.state object
        b.last_observed_restart_annotation).2

  patches_undo :
      (k now : Text) (s : c.State) (object : O)
      → IsFresh c resource view key serves s object
      → value_at k (w.annotated.get_annotations object) ≡ none
      → let (s', object', failure) =
          patch_workload_annotation resource w.annotated s object k now in
        let (s'', _, failure') = delete_workload_annotation resource w.annotated s' object' k in
        failure ≡ none → failure' ≡ none → (t : Target) → Restored (look c s t) (look c s'' t)
  unfolding patch_workload_annotation delete_workload_annotation
  patches_undo k now s object fresh unmarked sent removed t =
      let a = w.annotated.get_annotations object in
      let (s', object', failure) = patch_workload_annotation resource w.annotated s object k now in
      let (s'', object'', failure') =
        delete_workload_annotation resource w.annotated s' object' k in
      let (viewed, stored, fresh') =
        annotations_sent c resource view key serves w presents s object (put_annotation k now a) _
          fresh in
      let (_, stored', _) =
        annotations_sent c resource view key serves w presents s' object'
          (delete_annotation k (w.annotated.get_annotations object')) _ (fresh' sent) in
      let had : w.annotated.get_annotations object' ≡ put_annotation k now a =
        presents.annotations_of object' ∙ ap (λ v. v.annotations) viewed in
      let v' : View = record (view object) { annotations = put_annotation k now a } in
      let patched : View = record (view object') {
        annotations = delete_annotation k (w.annotated.get_annotations object');
      } in
      let v'' : View = record (view object) {
        annotations = delete_annotation k (put_annotation k now a);
      } in
      let same_view : patched ≡ v'' =
        λ i. record (viewed i) { annotations = delete_annotation k (had i) } in
      let placed : at object' ≡ at object = ap (λ v. key v.namespace v.name) viewed in
      written_twice t (at object) (view object) v' (look c s) (look c s') (look c s'') fresh
        (λ u. stored u ∙ ap (λ f. written f (at object) v' (look c s) u) sent) v''
        (λ u.
          stored' u
          ∙ ap (λ f. written f (at object') patched (look c s') u) removed
          ∙ (λ i. store (placed i) (same_view i) (look c s') u))
        (
          refl,
          λ j.
              delete-put_annotation k now a unmarked j
              ∙ ap (value_at j) (presents.annotations_of object),
        )

  -- The mark that ReconcileWorkload sets on a workload without it, as it is stored, is the one that
  -- it clears: if both patches succeed, and nothing else happens between them, every object of the
  -- cluster is again as it was before, the annotations with the values that they had and none new.
  -- The client reads its own writes.
  pub clear_observed-mark_observed :
      (b : BaseReconciler) (world : World c.State) (object : O)
      → IsFresh c resource view key serves world.state object
      → has_annotation (w.annotated.get_annotations object) b.last_observed_restart_annotation
        ≡ false
      → let (marked, object', failure) = mark_observed b c resource w world object in
        failure ≡ none
        → removal b marked object' ≡ none
        → (t : Target)
        → Restored
            (look c world.state t)
            (look c (clear_observed b c resource w marked object').0.state t)
  unfolding mark_observed clear_observed
  clear_observed-mark_observed b world object fresh unmarked =
      rw (unmarked, mark_observed)
        (patches_undo b.last_observed_restart_annotation (c.now world.state) world.state object
          fresh (has_annotation-false _ _ unmarked))
