-- ===== src/Predicates/Marks.antt =====
-- The filters of the three reconcilers, and what they do with the program's own patches.
use cascader.Common.{
  ℕ, ℤ, pos, ◌<ℤ◌, ◌≡◌, refl, ap, ◌∙◌, sym, ◌≢◌, ◌↔◌, ◌⊎◌, inl, inr, Bool, true, false, Option,
  none, some, List, arith,
}
use cascader.Errors.{Result}
use cascader.Kinds.{AnnotationKindMap}
use cascader.Objects.{
  Annotations, PodTemplateSpec, Object, object_meta, Deployment, StatefulSet, DaemonSet, deployment,
  stateful_set, daemon_set,
}
use cascader.Workloads.{deployment_workload, stateful_set_workload, daemon_set_workload}
use cascader.Predicates.{
  extract_pod_template, scaled_to_zero, scaled_from_zero, single_replica_pod_deleted,
  daemon_set_transitioning, spec_changed, wrap_single_object_check, deployment_predicate,
  stateful_set_predicate, daemon_set_predicate,
}
use cascader.Predicates.Hash.{sum64a}
use cascader.Predicates.Laws.{
  IsAnnotated, IsRunning, replicas_of, scaled_iff, HashesDiffer, spec_changed_iff, four_checks_iff,
}

-- The count of the old object is 1, that of the new one is set, and the pod is lost: ready, and
-- for a Deployment available, before, and not afterwards.
abbrev pub PodLost : Object → Object → Type 0
PodLost (deployment old) (deployment new) =
    (old.replicas ≡ some (pos 1))
    × (new.replicas ≢ none)
    × (old.status.ready_replicas ≡ pos 1)
    × (new.status.ready_replicas ≡ pos 0)
    × (old.status.available_replicas ≡ pos 1)
    × (new.status.available_replicas ≡ pos 0)
PodLost (stateful_set old) (stateful_set new) =
    (old.replicas ≡ some (pos 1))
    × (new.replicas ≢ none)
    × (old.status.ready_replicas ≡ pos 1)
    × (new.status.ready_replicas ≡ pos 0)
PodLost _ _ = ⊥

pod_deleted_iff : (old new : Object) → (single_replica_pod_deleted old new ≡ true) ↔ PodLost old new
unfolding single_replica_pod_deleted
pod_deleted_iff (deployment old) (deployment new) = ground arith
pod_deleted_iff (stateful_set old) (stateful_set new) = ground arith
pod_deleted_iff _ _ = (λ h. absurd (cc), λ h. absurd h)

-- Not all the pods that are wanted are updated, or some are unavailable.
abbrev pub IsTransitioning : Object → Type 0
IsTransitioning (daemon_set ds) =
    (ds.status.updated_number_scheduled ≢ ds.status.desired_number_scheduled)
    ⊎ (pos 0 <ℤ ds.status.number_unavailable)
IsTransitioning _ = ⊥

IsTransitioning-iff :
    (object : Object) → (daemon_set_transitioning object ≡ true) ↔ IsTransitioning object
unfolding daemon_set_transitioning
IsTransitioning-iff (daemon_set ds) = ground arith
IsTransitioning-iff _ = (λ h. absurd (cc), λ h. absurd h)

module _ (marshal : PodTemplateSpec → Result (List ℕ)) (kinds : AnnotationKindMap) where
  -- A change of an annotated object that concerns all reconcilers, or that of `Own`.
  abbrev pub Concerns : Type 0 → Object → Object → Type 0
  Concerns Own old new =
      IsAnnotated (object_meta new).annotations kinds
      × (HashesDiffer marshal old new
          ⊎ (Own
              ⊎ ((IsRunning (replicas_of old) × (replicas_of new ≡ some (pos 0)))
                  ⊎ ((replicas_of old ≡ some (pos 0)) × IsRunning (replicas_of new)))))

  -- The reconciler of Deployments is told of an update exactly if the new object has one of the
  -- configured annotations, and the hash of the pod template changed, the pod of a single replica
  -- was lost, or the count went to or from zero.
  pub deployment_update_iff :
      (old new : Object)
      → ((deployment_predicate marshal kinds).update old new ≡ true)
        ↔ Concerns (PodLost old new) old new
  unfolding deployment_predicate
  deployment_update_iff old new = ground (
    arith,
    four_checks_iff kinds (spec_changed marshal) single_replica_pod_deleted scaled_to_zero
        scaled_from_zero old new,
    spec_changed_iff marshal old new,
    pod_deleted_iff old new,
    scaled_iff old new,
  )

  -- So for StatefulSets.
  stateful_set_update_iff :
      (old new : Object)
      → ((stateful_set_predicate marshal kinds).update old new ≡ true)
        ↔ Concerns (PodLost old new) old new
  unfolding stateful_set_predicate deployment_predicate
  stateful_set_update_iff old new = deployment_update_iff old new

  -- The reconciler of DaemonSets is told of an update exactly if the new object has one of the
  -- configured annotations, and the hash of the pod template changed, the new object is a DaemonSet
  -- with pods that are not updated or not available, or the count went to or from zero.
  pub daemon_set_update_iff :
      (old new : Object)
      → ((daemon_set_predicate marshal kinds).update old new ≡ true)
        ↔ Concerns (IsTransitioning new) old new
  unfolding daemon_set_predicate wrap_single_object_check
  daemon_set_update_iff old new = ground (
    arith,
    four_checks_iff kinds (spec_changed marshal) (λ _ o. daemon_set_transitioning o) scaled_to_zero
        scaled_from_zero old new,
    spec_changed_iff marshal old new,
    IsTransitioning-iff new,
    scaled_iff old new,
  )

  same_template :
      (old new : Object)
      → extract_pod_template old ≡ extract_pod_template new
      → ¬ HashesDiffer marshal old new
  same_template old new e (t, u, x, y, e1, e2, e3, e4, differ) =
      let same : t ≡ u = cc (e1, e2, e) in
      let same' : x ≡ y = cc (e3, e4, ap marshal same) in differ (ap sum64a same')

  same_count : (r : Option ℤ) → ¬ (IsRunning r × (r ≡ some (pos 0)))
  same_count r ((m, e, h), e') = absurd (ground arith)

  not_concerned :
      (Own : Type 0) (old new : Object)
      → extract_pod_template old ≡ extract_pod_template new
      → replicas_of old ≡ replicas_of new
      → Concerns Own old new
      → Own
  not_concerned Own old new e e' (_, inl differ) = absurd (same_template old new e differ)
  not_concerned Own old new e e' (_, inr (inl own)) = own
  not_concerned Own old new e e' (_, inr (inr (inl (running, zero)))) =
      absurd (same_count (replicas_of old) (running, e' ∙ zero))
  not_concerned Own old new e e' (_, inr (inr (inr (zero, running)))) =
      absurd (same_count (replicas_of new) (running, sym e' ∙ zero))

  false_of : (x : Bool) → ¬ (x ≡ true) → x ≡ false
  false_of true h = absurd (h refl)
  false_of false h = refl

  one_not_zero : (n : ℤ) → n ≡ pos 1 → n ≡ pos 0 → ⊥
  one_not_zero n p q = cc (p, q)

  -- The updates by which the program itself sets or removes an annotation in the metadata of a
  -- Deployment or a StatefulSet do not reach its reconciler, whatever annotations are left.
  pub marks_filtered :
      (m : Annotations) (dep : Deployment) (sts : StatefulSet)
      → ((deployment_predicate marshal kinds).update
            (deployment dep)
            (deployment (deployment_workload.annotated.set_annotations m dep))
          ≡ false)
        × ((stateful_set_predicate marshal kinds).update
              (stateful_set sts)
              (stateful_set (stateful_set_workload.annotated.set_annotations m sts))
            ≡ false)
  unfolding extract_pod_template
  marks_filtered m dep sts =
      let dep' = deployment_workload.annotated.set_annotations m dep in
      let sts' = stateful_set_workload.annotated.set_annotations m sts in
      (
        false_of _ (λ h.
            let lost : PodLost (deployment dep) (deployment dep') =
              not_concerned (PodLost (deployment dep) (deployment dep')) (deployment dep)
                (deployment dep') refl refl ((deployment_update_iff _ _).0 h) in
            one_not_zero dep.status.ready_replicas lost.2 lost.3),
        false_of _ (λ h.
            let lost : PodLost (stateful_set sts) (stateful_set sts') =
              not_concerned (PodLost (stateful_set sts) (stateful_set sts')) (stateful_set sts)
                (stateful_set sts') refl refl ((stateful_set_update_iff _ _).0 h) in
            one_not_zero sts.status.ready_replicas lost.2 lost.3),
      )

  -- An update by which the program itself sets or removes an annotation in the metadata of a
  -- DaemonSet does not reach its reconciler, if all its pods are updated and none is unavailable.
  pub daemon_set_marks_filtered :
      (m : Annotations) (ds : DaemonSet)
      → ¬ IsTransitioning (daemon_set ds)
      → (daemon_set_predicate marshal kinds).update
          (daemon_set ds)
          (daemon_set (daemon_set_workload.annotated.set_annotations m ds))
        ≡ false
  unfolding extract_pod_template
  daemon_set_marks_filtered m ds settled =
      let ds' = daemon_set_workload.annotated.set_annotations m ds in
      false_of _ (λ h. settled (
        not_concerned (IsTransitioning (daemon_set ds')) (daemon_set ds) (daemon_set ds') refl refl
          ((daemon_set_update_iff _ _).0 h)))
