-- ===== src/Controller/Reconcile/Marks.antt =====
-- internal/controller/base_reconciler.go: marking a workload that is marked already.
use cascader.Common.{
  ◌≡◌, refl, subst, ◌∙◌, ap, inl, inr, Text, none, some, arith, text_eq_iff, true, Bool-cases,
}
use cascader.Errors.{Error, ok, Result-cases}
use cascader.Objects.{Annotations}
use cascader.Client.{Client, Resource}
use cascader.Utils.Patches.{put_annotation, patch_workload_annotation, send_patch}
use cascader.Utils.Patches.Laws.{value_at-put_annotation}
use cascader.Workloads.{Workload}
use cascader.Controller.{BaseReconciler, has_annotation}
use cascader.Controller.Reconcile.{World, mark_observed}

has_annotation-put_annotation :
    (a : Annotations) (k v : Text) → has_annotation (put_annotation k v a) k ≡ true
unfolding has_annotation put_annotation
has_annotation-put_annotation none k v =
    ground (arith, value_at-put_annotation k v k none, text_eq_iff k k)
has_annotation-put_annotation (some m) k v =
    ground (arith, value_at-put_annotation k v k (some m), text_eq_iff k k)

module _ (b : BaseReconciler) (c : Client) {O : Type 0} (resource : Resource c.State O)
    (w : Workload O)
    (kept : (annotations : Annotations) (object : O)
      → w.annotated.get_annotations (w.annotated.set_annotations annotations object) ≡ annotations)
    (answered : (s : c.State) (old new final : O)
      → (resource.patch s old new).1 ≡ ok final
      → w.annotated.get_annotations final ≡ w.annotated.get_annotations new) where
  send_patch-ok :
      (s : c.State) (old new : O) (wrap : Error → Error)
      → (send_patch resource s old new wrap).2 ≡ none
      → w.annotated.get_annotations (send_patch resource s old new wrap).1
        ≡ w.annotated.get_annotations new
  unfolding send_patch
  send_patch-ok s old new wrap h = elim (Result-cases (resource.patch s old new).1) [
    | inl (o, e) ↦ ground (arith, answered s old new o e)
    | inr (x, e) ↦ absurd (ground arith)
  ]

  patch_workload_annotation-marks :
      (s : c.State) (object : O) (k v : Text)
      → (patch_workload_annotation resource w.annotated s object k v).2 ≡ none
      → has_annotation
          (w.annotated.get_annotations
            (patch_workload_annotation resource w.annotated s object k v).1)
          k
        ≡ true
  unfolding patch_workload_annotation
  patch_workload_annotation-marks s object k v h =
      let annotations = put_annotation k v (w.annotated.get_annotations object) in
      let sent = send_patch-ok s object (w.annotated.set_annotations annotations object) _ h in
      ap (λ a. has_annotation a k) (sent ∙ kept annotations object)
      ∙ has_annotation-put_annotation (w.annotated.get_annotations object) k v

  mark_observed-marks :
      (world : World c.State) (object : O)
      → (mark_observed b c resource w world object).2 ≡ none
      → has_annotation
          (w.annotated.get_annotations (mark_observed b c resource w world object).1)
          b.last_observed_restart_annotation
        ≡ true
  unfolding mark_observed
  mark_observed-marks world object h =
      let key = b.last_observed_restart_annotation in
      elim (Bool-cases (has_annotation (w.annotated.get_annotations object) key)) [
        | inl e ↦ ground arith
        | inr e ↦
            ground
              (arith, patch_workload_annotation-marks world.state object key (c.now world.state))
      ]

  -- If the workload's annotations are read as they were set, and a successful patch answers with the
  -- annotations that were sent, a workload that was marked without an error is not marked again,
  -- whatever has become of the cluster.
  mark_observed_once :
      (world world' later : World c.State) (object object' : O)
      → mark_observed b c resource w world object ≡ (world', object', none)
      → mark_observed b c resource w later object' ≡ (later, object', none)
  unfolding mark_observed
  mark_observed_once world world' later object object' h =
      let failure : (mark_observed b c resource w world object).2 ≡ none = ap (λ x. x.2) h in
      let same : (mark_observed b c resource w world object).1 ≡ object' = ap (λ x. x.1) h in
      let marked =
        subst
          (λ o.
            has_annotation (w.annotated.get_annotations o) b.last_observed_restart_annotation
            ≡ true)
          same (mark_observed-marks world object failure) in
      rw (marked, mark_observed) refl
