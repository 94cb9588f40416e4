-- ===== src/Stepwise/Tried/Answers.antt =====
-- internal/controller/base_reconciler.go: the object that a call has in hand is one that the API has
-- answered with.
use cascader.Common.{◌≡◌, refl, ◌⊎◌, inl, inr, sym, Text, none, some, List, [], ◌∷◌, Bool-cases}
use cascader.Errors.{Error, Result-cases, ok, err, patch_annotation_failed}
use cascader.Objects.{Annotations}
use cascader.Client.{Client, Resource}
use cascader.Utils.Patches.{put_annotation, send_patch, patch_workload_annotation}
use cascader.Workloads.{Workload, Verdict}
use cascader.Processes.Traces.{Traced, SomeOf}
use cascader.Controller.{BaseReconciler, has_annotation}
use cascader.Controller.Reconcile.{World}
use cascader.Stepwise.Requests.{mark_at, mark_program}

-- What the accesses of a call may have found: the verdict on a workload and its annotations, or the
-- error of a marking.
pub data Finding : Type 0 where
  judged_as : Verdict → Annotations → Finding
  refused_with : Error → Finding

module _ (c : Client) {O : Type 0} (resource : Resource c.State O) (w : Workload O) where
  -- An access in which a Get of the named object, or a patch, answers with the object.
  abbrev pub Answered : Text → Text → O → World c.State → World c.State → Type 0
  Answered namespace name object u u' =
      (resource.get u.state namespace name ≡ ok object)
      ⊎ ((old : O) × (new : O) × (u'.state ≡ (resource.patch u.state old new).0)
          × ((resource.patch u.state old new).1 ≡ ok object))

  -- An access that answers with an object that has the name, the annotations and the verdict of
  -- Stable.
  abbrev pub JudgedBy : Text → Text → Verdict → Annotations → World c.State → World c.State → Type 0
  JudgedBy namespace name v m u u' =
      (object : O) × ((w.get_meta object).namespace ≡ namespace)
      × ((w.get_meta object).name ≡ name)
      × (w.stable object ≡ v)
      × (w.annotated.get_annotations object ≡ m)
      × Answered namespace name object u u'

  -- An access in which the patch that sets the mark fails, with the error.
  abbrev pub RefusedBy : BaseReconciler → Error → World c.State → World c.State → Type 0
  RefusedBy b e u u' =
      (old : O) × (new : O) × (now : Text) × (x : Error) × (new
        ≡ w.annotated.set_annotations
            (put_annotation b.last_observed_restart_annotation now
              (w.annotated.get_annotations old))
            old)
      × ((resource.patch u.state old new).1 ≡ err x)
      × (e ≡ patch_annotation_failed b.last_observed_restart_annotation now x)

  -- What one access finds.
  abbrev pub FoundBy :
      BaseReconciler → Text → Text → Finding → World c.State → World c.State → Type 0
  FoundBy b namespace name (judged_as v m) = JudgedBy namespace name v m
  FoundBy b namespace name (refused_with e) = RefusedBy b e

  pub SomeOf-JudgedBy :
      (namespace name : Text) (object : O) (own : List (World c.State × World c.State))
      → (w.get_meta object).namespace ≡ namespace
      → (w.get_meta object).name ≡ name
      → SomeOf (Answered namespace name object) own
      → SomeOf (JudgedBy namespace name (w.stable object) (w.annotated.get_annotations object)) own
  SomeOf-JudgedBy namespace name object [] m n h = absurd h
  SomeOf-JudgedBy namespace name object ((u, u') ∷ own) m n (inl h) =
      inl (object, m, n, refl, refl, h)
  SomeOf-JudgedBy namespace name object ((u, u') ∷ own) m n (inr h) =
      inr (SomeOf-JudgedBy namespace name object own m n h)

  module _ (b : BaseReconciler) (namespace name : Text) where
    mark_at-Answered :
        (now : Text) (object : O) (u : World c.State)
        → let (s', (object', failure)) = mark_at b c resource w now object u.state in
          (failure ≡ none → Answered namespace name object' u (record u { state = s' }))
          × ((e : Error) → failure ≡ some e → RefusedBy b e u (record u { state = s' }))
    unfolding mark_at patch_workload_annotation send_patch
    mark_at-Answered now object u =
        let new =
          w.annotated.set_annotations
            (put_annotation b.last_observed_restart_annotation now
              (w.annotated.get_annotations object))
            object in
        elim (Result-cases (resource.patch u.state object new).1) [
          | inl (final, e) ↦
              rw (e, mark_at, patch_workload_annotation, send_patch)
                (λ _. inr (object, new, refl, e), λ x h. absurd (cc))
          | inr (x, e) ↦
              rw (e, mark_at, patch_workload_annotation, send_patch)
                (
                  (λ h. absurd (cc)),
                  λ y h.
                      let same : patch_annotation_failed b.last_observed_restart_annotation now x
                          ≡ y =
                        cc h in
                      (object, new, now, x, refl, e, sym same),
                )
        ]

    -- After the marking it is the object from before, or the answer to the patch, which is refused if
    -- the marking fails.
    pub mark_program-Answered :
        (object : O)
        → Traced
            (λ _. Unit)
            (λ own marked.
              (marked.1 ≡ none
                → (marked.0 ≡ object) ⊎ SomeOf (Answered namespace name marked.0) own)
              × ((e : Error) → marked.1 ≡ some e → SomeOf (RefusedBy b e) own))
            (mark_program b c resource w object)
    unfolding mark_program
    mark_program-Answered object =
        elim (Bool-cases (
          has_annotation (w.annotated.get_annotations object) b.last_observed_restart_annotation)) [
            | inl marked ↦
                rw (marked, mark_program) (Traced.at_end (λ _. inl refl, λ e h. absurd (cc)))
            | inr unmarked ↦
                rw (unmarked, mark_program)
                  (Traced.at_access (λ _ _. tt)
                    (λ u _.
                      Traced.at_access (λ _ _. tt)
                        (λ u' _.
                          let (answered, refused) = mark_at-Answered (c.now u.state) object u' in
                          Traced.at_end
                            (λ h. inr (inr (inl (answered h))), λ e h. inr (inl (refused e h))))))
          ]
