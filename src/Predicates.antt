-- ===== src/Predicates.antt =====
-- internal/predicates: which events reach a reconciler, and the SetupWithManager methods of
-- internal/controller, which choose the checks. json.Marshal of a pod template is a parameter.
pub mod Hash
pub mod Laws
pub mod Marks
use cascader.Common.{
  ℕ, ℤ, pos, negsuc, Text, Bool, true, false, not, ◌&&◌, ◌||◌, Option, none, some, List, [], ◌∷◌,
  text_eq, ltb_ℤ, eqb_ℤ, if◌then◌else◌,
}
use cascader.Errors.{Result, ok, err, unsupported_object, serialize_failed}
use cascader.Dict.{Dict, lookup}
use cascader.Kinds.{AnnotationKindMap}
use cascader.Objects.{
  Annotations, PodTemplateSpec, Object, deployment, stateful_set, daemon_set, other_object,
  object_meta, Deployment, StatefulSet,
}
use cascader.Predicates.Hash.{sum64a, hex}

-- The loop of hasAnnotation over the keys of the map.
unfoldable pub has_key_of : Dict Text → AnnotationKindMap → Bool
has_key_of annotations [] = false
has_key_of annotations ((key, _) ∷ entries) =
    let rest = has_key_of annotations entries in
    elim (lookup key annotations) [ some _ ↦ true | none ↦ rest ]

unfoldable pub has_annotation : Annotations → AnnotationKindMap → Bool
unfolding has_key_of
has_annotation none kinds = false
has_annotation (some annotations) kinds = has_key_of annotations kinds

unfoldable pub extract_pod_template : Object → Result PodTemplateSpec
extract_pod_template (deployment d) = ok d.template
extract_pod_template (stateful_set s) = ok s.template
extract_pod_template (daemon_set d) = ok d.template
extract_pod_template (other_object _) = err unsupported_object

-- -1 where there is no count
unfoldable pub get_replicas : Object → ℤ
get_replicas (deployment d) = elim d.replicas [ some n ↦ n | none ↦ negsuc 0 ]
get_replicas (stateful_set s) = elim s.replicas [ some n ↦ n | none ↦ negsuc 0 ]
get_replicas (daemon_set d) = d.status.desired_number_scheduled
get_replicas (other_object _) = negsuc 0

unfoldable pub scaled_to_zero : Object → Object → Bool
unfolding get_replicas
scaled_to_zero old new = ltb_ℤ (pos 0) (get_replicas old) && eqb_ℤ (get_replicas new) (pos 0)

unfoldable pub scaled_from_zero : Object → Object → Bool
unfolding get_replicas
scaled_from_zero old new = eqb_ℤ (get_replicas old) (pos 0) && ltb_ℤ (pos 0) (get_replicas new)

-- Both counts are set, and the old one is 1.
unfoldable pub single_replica : Option ℤ → Option ℤ → Bool
single_replica none _ = false
single_replica (some _) none = false
single_replica (some n) (some _) = eqb_ℤ n (pos 1)

unfoldable pub deployment_pod_deleted : Deployment → Deployment → Bool
unfolding single_replica
deployment_pod_deleted old new =
    single_replica old.replicas new.replicas
    && (eqb_ℤ old.status.ready_replicas (pos 1)
        && eqb_ℤ new.status.ready_replicas (pos 0)
        && eqb_ℤ old.status.available_replicas (pos 1)
        && eqb_ℤ new.status.available_replicas (pos 0))

unfoldable pub stateful_set_pod_deleted : StatefulSet → StatefulSet → Bool
unfolding single_replica
stateful_set_pod_deleted old new =
    single_replica old.replicas new.replicas
    && (eqb_ℤ old.status.ready_replicas (pos 1) && eqb_ℤ new.status.ready_replicas (pos 0))

unfoldable pub single_replica_pod_deleted : Object → Object → Bool
unfolding deployment_pod_deleted stateful_set_pod_deleted
single_replica_pod_deleted (deployment old) (deployment new) = deployment_pod_deleted old new
single_replica_pod_deleted (stateful_set old) (stateful_set new) = stateful_set_pod_deleted old new
single_replica_pod_deleted _ _ = false

unfoldable pub daemon_set_transitioning : Object → Bool
daemon_set_transitioning (daemon_set ds) =
    not (eqb_ℤ ds.status.updated_number_scheduled ds.status.desired_number_scheduled)
    || ltb_ℤ (pos 0) ds.status.number_unavailable
daemon_set_transitioning _ = false

-- UpdateCheck
abbrev pub UpdateCheck : Type 0
UpdateCheck = Object → Object → Bool

unfoldable pub wrap_single_object_check : (Object → Bool) → UpdateCheck
wrap_single_object_check check old new = check new

-- predicate.Funcs: the four filters. The object of a delete event may be nil.
pub record Predicate : Type 0 where
  pub update : Object → Object → Bool
  pub delete : Option Object → Bool
  pub create : Object → Bool
  pub generic : Object → Bool

-- The loop over the update checks.
unfoldable pub any_check : List UpdateCheck → Object → Object → Bool
any_check [] old new = false
any_check (check ∷ checks) old new = check old new || any_check checks old new

unfoldable pub delete_filter : AnnotationKindMap → Option Object → Bool
unfolding has_annotation
delete_filter kinds none = false
delete_filter kinds (some object) = has_annotation (object_meta object).annotations kinds

unfoldable pub new_predicate : AnnotationKindMap → List UpdateCheck → Predicate
unfolding any_check delete_filter has_annotation
new_predicate kinds checks = record {
  update = λ old new.
      if not (has_annotation (object_meta new).annotations kinds)
      then false
      else any_check checks old new;
  delete = delete_filter kinds;
  create = λ _. false;
  generic = λ _. false;
}

module _ (marshal : PodTemplateSpec → Result (List ℕ)) where
  unfoldable pub hash_template : PodTemplateSpec → Result Text
  hash_template t = elim (marshal t) [
    | err e ↦ err (serialize_failed e)
    | ok bytes ↦ ok (hex (sum64a bytes))
  ]

  unfoldable pub hashes_differ : Result Text → Result Text → Bool
  hashes_differ (ok old) (ok new) = not (text_eq old new)
  hashes_differ (ok _) (err _) = false
  hashes_differ (err _) _ = false

  unfoldable pub templates_differ : Result PodTemplateSpec → Result PodTemplateSpec → Bool
  unfolding hash_template hashes_differ
  templates_differ (ok old) (ok new) = hashes_differ (hash_template old) (hash_template new)
  templates_differ (ok _) (err _) = false
  templates_differ (err _) _ = false

  unfoldable pub spec_changed : UpdateCheck
  unfolding templates_differ extract_pod_template
  spec_changed old new = templates_differ (extract_pod_template old) (extract_pod_template new)

  -- The SetupWithManager methods.
  unfoldable pub deployment_predicate : AnnotationKindMap → Predicate
  unfolding new_predicate
  deployment_predicate kinds =
      new_predicate kinds
        (spec_changed ∷ single_replica_pod_deleted ∷ scaled_to_zero ∷ scaled_from_zero ∷ [])

  unfoldable pub stateful_set_predicate : AnnotationKindMap → Predicate
  unfolding new_predicate
  stateful_set_predicate kinds =
      new_predicate kinds
        (spec_changed ∷ single_replica_pod_deleted ∷ scaled_to_zero ∷ scaled_from_zero ∷ [])

  unfoldable pub daemon_set_predicate : AnnotationKindMap → Predicate
  unfolding new_predicate wrap_single_object_check
  daemon_set_predicate kinds = new_predicate kinds (
      spec_changed
      ∷ wrap_single_object_check daemon_set_transitioning
      ∷ scaled_to_zero
      ∷ scaled_from_zero
      ∷ [])
