-- ===== src/Store/Marks.antt =====
-- internal/controller/base_reconciler.go: setting and clearing the mark with a client that reads
-- its own writes, as writes to an abstract cluster.
use cascader.Common.{
  text_eq_iff, if◌then◌else◌, ◌≡◌, ◌≢◌, refl, sym, ap, ◌∙◌, subst, inl, inr, Text, Option, none,
  some, Bool-cases,
}
use cascader.Errors.{Error}
use cascader.Objects.{Annotations}
use cascader.Client.{Client, Resource}
use cascader.Utils.Patches.Laws.{value_at, value_at-delete_annotation}
use cascader.Utils.Patches.{
  delete_annotation, send_patch, patch_workload_annotation, delete_workload_annotation,
}
use cascader.Workloads.{Workload}
use cascader.Targets.{Target}
use cascader.Controller.{BaseReconciler, has_annotation}
use cascader.Controller.Reconcile.{World, mark_observed, clear_observed}
use cascader.Store.{View, Cluster, look, target_eq, target_eq_iff, store, Serves, Presents}
use cascader.Store.Triggers.{written, send_patch-store, IsFresh}

pub store_self : (key : Target) (v : View) (cluster : Cluster) → store key v cluster key ≡ some v
store_self key v cluster = rw ((target_eq_iff key key).1 refl) refl

written_other :
    (failure : Option Error) (key : Target) (v : View) (cluster : Cluster) (t : Target)
    → t ≢ key
    → written failure key v cluster t ≡ cluster t
written_other (some e) key v cluster t h = refl
written_other none key v cluster t h = elim (Bool-cases (target_eq key t)) [
  | inl same ↦ absurd (h (sym ((target_eq_iff key t).0 same)))
  | inr other ↦ rw other refl
]

module _ (c : Client) {O : Type 0} (resource : Resource c.State O) (view : O → View)
    (key : Text → Text → Target) (serves : Serves c resource view key) (w : Workload O)
    (presents : Presents view w) where
  abbrev pub key_of : O → Target
  key_of object = key (view object).namespace (view object).name

  -- A patch of the workload's annotations. The object in the caller's variable has them, whether
  -- the patch succeeds or not.
  pub annotations_sent :
      (s : c.State) (object : O) (m : Annotations) (wrap : Error → Error)
      → IsFresh c resource view key serves s object
      → let (s', object', failure) =
          send_patch resource s object (w.annotated.set_annotations m object) wrap in
        (view object' ≡ record (view object) { annotations = m })
        × ((t : Target)
            → look c s' t
              ≡ written failure
                  (key_of object)
                  (record (view object) { annotations = m })
                  (look c s)
                  t)
        × (failure ≡ none → IsFresh c resource view key serves s' object')
  annotations_sent s object m wrap fresh =
      let sent = w.annotated.set_annotations m object in
      let changed : view sent ≡ record (view object) { annotations = m } =
        presents.annotated m object in
      let (s', object', failure) = send_patch resource s object sent wrap in
      let (viewed, stored) =
        send_patch-store c resource view key serves s object sent wrap fresh
          (ap (λ v. v.namespace) changed) (ap (λ v. v.name) changed) in
      let stored' : (t : Target)
          → look c s' t
            ≡ written failure (key_of object) (record (view object) { annotations = m }) (look c s)
                t =
        λ t. stored t ∙ ap (λ v. written failure (key_of object) v (look c s) t) changed in
      (
        viewed ∙ changed,
        stored',
        λ done.
            subst (λ v. look c s' (key v.namespace v.name) ≡ some v) (sym (viewed ∙ changed))
              (stored' (key_of object)
                ∙ ap
                    (λ f.
                      written f (key_of object) (record (view object) { annotations = m })
                        (look c s) (key_of object))
                    done
                ∙ store_self (key_of object) (record (view object) { annotations = m }) (look c s)),
      )

  -- What the patches of the mark leave alone: every other object.
  abbrev pub Leaves : O → c.State → c.State → Type 0
  Leaves object s s' = (t : Target) → t ≢ key_of object → look c s' t ≡ look c s t

  annotations_sent-Leaves :
      (s : c.State) (object : O) (m : Annotations) (wrap : Error → Error)
      → IsFresh c resource view key serves s object
      → let (s', object', failure) =
          send_patch resource s object (w.annotated.set_annotations m object) wrap in
        Leaves object s s'
        × (key_of object' ≡ key_of object)
        × (failure ≡ none → IsFresh c resource view key serves s' object')
  annotations_sent-Leaves s object m wrap fresh =
      let (viewed, stored, fresh') = annotations_sent s object m wrap fresh in
      (
        λ t h. stored t ∙ written_other _ (key_of object) _ (look c s) t h,
        ap (λ v. key v.namespace v.name) viewed,
        fresh',
      )

  module _ (b : BaseReconciler) where
    pub mark_observed-Leaves :
        (world : World c.State) (object : O)
        → IsFresh c resource view key serves world.state object
        → let (world', object', failure) = mark_observed b c resource w world object in
          Leaves object world.state world'.state
          × (key_of object' ≡ key_of object)
          × (failure ≡ none → IsFresh c resource view key serves world'.state object')
    unfolding mark_observed patch_workload_annotation
    mark_observed-Leaves world object fresh =
        elim (Bool-cases (
          has_annotation (w.annotated.get_annotations object) b.last_observed_restart_annotation)) [
            | inl marked ↦ rw (marked, mark_observed) (λ t _. refl, refl, λ _. fresh)
            | inr unmarked ↦
                rw (unmarked, mark_observed) (annotations_sent-Leaves world.state object _ _ fresh)
          ]

    pub clear_observed-Leaves :
        (world : World c.State) (object : O)
        → IsFresh c resource view key serves world.state object
        → Leaves object world.state (clear_observed b c resource w world object).0.state
    unfolding clear_observed delete_workload_annotation
    clear_observed-Leaves world object fresh =
        (annotations_sent-Leaves world.state object _ _ fresh).0

    -- The mark is gone, unless its removal failed.
    pub clear_observed-Unmarked :
        (world : World c.State) (object : O)
        → IsFresh c resource view key serves world.state object
        → (delete_workload_annotation resource w.annotated world.state object
            b.last_observed_restart_annotation).2
          ≡ none
        → (v : View) × (look c (clear_observed b c resource w world object).0.state (key_of object)
            ≡ some v)
          × (value_at b.last_observed_restart_annotation v.annotations ≡ none)
    unfolding clear_observed delete_workload_annotation
    clear_observed-Unmarked world object fresh done =
        let k = b.last_observed_restart_annotation in
        let a = w.annotated.get_annotations object in
        let v = record (view object) { annotations = delete_annotation k a } in
        let (_, stored, _) = annotations_sent world.state object (delete_annotation k a) _ fresh in
        (
          v,
          stored (key_of object)
              ∙ ap (λ f. written f (key_of object) v (look c world.state) (key_of object)) done
              ∙ store_self (key_of object) v (look c world.state),
          value_at-delete_annotation k k a
              ∙ ap (λ same. if same then none else value_at k a) ((text_eq_iff k k).1 refl),
        )
