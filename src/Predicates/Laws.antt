-- ===== src/Predicates/Laws.antt =====
-- When the filters let an event through.
use mathlib.Core.List.Memᴰ
use cascader.Common.{
  ℕ, ℤ, pos, ◌<ℤ◌, ◌≡◌, refl, ap, ◌∙◌, subst, ◌≢◌, negsuc, ◌↔◌, ◌⊎◌, inl, inr, ⊎_elim, Text, Bool,
  true, false, Option, none, some, Option-cases, List, [], ◌∷◌, Memᴰ, text_eq_iff, text_eq, arith,
  not, ◌&&◌, ltb_ℤ, eqb_ℤ, eqb_ℤ_iff,
}
use cascader.Errors.{Result, ok, Result-cases}
use cascader.Dict.{Dict, lookup, keys}
use cascader.Kinds.{AnnotationKindMap}
use cascader.Objects.{
  Annotations, PodTemplateSpec, Object, object_meta, deployment, stateful_set, daemon_set,
  other_object,
}
use cascader.Predicates.{
  has_key_of, has_annotation, extract_pod_template, get_replicas, scaled_to_zero, scaled_from_zero,
  UpdateCheck, new_predicate, spec_changed, templates_differ, hash_template,
}
use cascader.Predicates.Hash.{sum64a, hex, hex_inj, sum64a-lt}

-- One of the configured keys is an annotation of the object.
abbrev pub IsAnnotated : Annotations → AnnotationKindMap → Type 0
IsAnnotated none kinds = ⊥
IsAnnotated (some annotations) kinds =
    (key : Text) × Memᴰ key (keys kinds) × (lookup key annotations ≢ none)

has_key_of_iff :
    (annotations : Dict Text) (kinds : AnnotationKindMap)
    → (has_key_of annotations kinds ≡ true) ↔ IsAnnotated (some annotations) kinds
unfolding has_key_of
has_key_of_iff annotations [] = (λ h. absurd (cc), λ (key, m, _). absurd (Memᴰ.not-nil m))
has_key_of_iff annotations ((key, kind) ∷ entries) = elim (Option-cases (lookup key annotations)) [
  | inr (v, e) ↦ (λ _. (key, Memᴰ.head refl, λ h. cc (h, e)), λ _. rw (e, has_key_of))
  | inl e ↦
      let (sound, full) = has_key_of_iff annotations entries in
      (
        λ h. let (k, m, v) = sound (rw (e, has_key_of) at h) in (k, Memᴰ.tail m, v),
        λ (k, m, v).
            rw (e, has_key_of)
              (⊎_elim (λ same. absurd (v (ap (λ x. lookup x annotations) same ∙ e)))
                (λ m'. full (k, m', v)) (Memᴰ.cases_cons m)),
      )
]

has_annotation_iff :
    (annotations : Annotations) (kinds : AnnotationKindMap)
    → (has_annotation annotations kinds ≡ true) ↔ IsAnnotated annotations kinds
unfolding has_annotation
has_annotation_iff none kinds = (λ h. cc, λ h. absurd h)
has_annotation_iff (some annotations) kinds = has_key_of_iff annotations kinds

module _ (kinds : AnnotationKindMap) (a b c d : UpdateCheck) where
  -- With four checks, an update passes exactly if the new object is annotated and a check holds.
  pub four_checks_iff :
      (old new : Object)
      → ((new_predicate kinds (a ∷ b ∷ c ∷ d ∷ [])).update old new ≡ true) ↔ (
          IsAnnotated (object_meta new).annotations kinds
          × ((a old new ≡ true) ⊎ ((b old new ≡ true) ⊎ ((c old new ≡ true) ⊎ (d old new ≡ true)))))
  unfolding new_predicate
  four_checks_iff old new = ground (arith, has_annotation_iff (object_meta new).annotations kinds)

-- What the replica count of an object is: none for another type or an unset count.
abbrev pub replicas_of : Object → Option ℤ
replicas_of (deployment d) = d.replicas
replicas_of (stateful_set s) = s.replicas
replicas_of (daemon_set d) = some d.status.desired_number_scheduled
replicas_of (other_object _) = none

abbrev or_minus_one : Option ℤ → ℤ
or_minus_one none = negsuc 0
or_minus_one (some n) = n

get_replicas_lem : (object : Object) → get_replicas object ≡ or_minus_one (replicas_of object)
unfolding get_replicas
get_replicas_lem (deployment d) = ground arith
get_replicas_lem (stateful_set s) = ground arith
get_replicas_lem (daemon_set d) = refl
get_replicas_lem (other_object _) = refl

-- A count above zero, and a count of zero.
abbrev pub IsRunning : Option ℤ → Type 0
IsRunning r = (m : ℤ) × (r ≡ some m) × (pos 0 <ℤ m)

IsRunning-iff : (r : Option ℤ) → (ltb_ℤ (pos 0) (or_minus_one r) ≡ true) ↔ IsRunning r
IsRunning-iff none = (λ h. absurd (cc), λ (m, e, _). absurd (cc))
IsRunning-iff (some n) = (
  λ h. (n, refl, ground arith),
  λ (m, e, h). subst (λ k. ltb_ℤ (pos 0) k ≡ true) (cc) (ltb_ℤ_intro m h),
)
  where
    ltb_ℤ_intro : (m : ℤ) → pos 0 <ℤ m → ltb_ℤ (pos 0) m ≡ true
    ltb_ℤ_intro m h = ground arith

zero_iff : (r : Option ℤ) → (eqb_ℤ (or_minus_one r) (pos 0) ≡ true) ↔ (r ≡ some (pos 0))
zero_iff none = (λ h. absurd (cc), λ e. absurd (cc))
zero_iff (some n) = (λ h. ap some ((eqb_ℤ_iff n (pos 0)).0 h), λ e. (eqb_ℤ_iff n (pos 0)).1 (cc))

-- ScaledToZero and ScaledFromZero hold exactly of objects with replica counts where the count went
-- from above zero to zero, and from zero to above zero; an unset count, or an object of another
-- type, is never scaled.
pub scaled_iff :
    (old new : Object)
    → ((scaled_to_zero old new ≡ true)
        ↔ (IsRunning (replicas_of old) × (replicas_of new ≡ some (pos 0))))
      × ((scaled_from_zero old new ≡ true)
          ↔ ((replicas_of old ≡ some (pos 0)) × IsRunning (replicas_of new)))
unfolding scaled_to_zero scaled_from_zero
scaled_iff old new = (
  rw (get_replicas_lem old, get_replicas_lem new)
      (both _ _ (IsRunning-iff (replicas_of old)) (zero_iff (replicas_of new))),
  rw (get_replicas_lem old, get_replicas_lem new)
      (both _ _ (zero_iff (replicas_of old)) (IsRunning-iff (replicas_of new))),
)
  where
    both :
        (x y : Bool) {P Q : Type 0} → (x ≡ true) ↔ P → (y ≡ true) ↔ Q → ((x && y) ≡ true) ↔ (P × Q)
    both true y p q = (λ h. (p.0 refl, q.0 h), λ (_, k). q.1 k)
    both false y p q = (λ h. absurd (cc), λ (h, _). cc (p.1 h))

module _ (marshal : PodTemplateSpec → Result (List ℕ)) where
  -- The serialised templates of both objects exist, and their 64-bit hashes are different.
  abbrev pub HashesDiffer : Object → Object → Type 0
  HashesDiffer old new =
      (t u : PodTemplateSpec) × (x y : List ℕ) × (extract_pod_template old ≡ ok t)
      × (extract_pod_template new ≡ ok u)
      × (marshal t ≡ ok x)
      × (marshal u ≡ ok y)
      × (sum64a x ≢ sum64a y)

  text_differ_iff : (s t : Text) → (not (text_eq s t) ≡ true) ↔ (s ≢ t)
  text_differ_iff s t = ground (arith, text_eq_iff s t)

  spec_changed_sound :
      (old new : Object) → spec_changed marshal old new ≡ true → HashesDiffer old new
  unfolding spec_changed
  spec_changed_sound old new h = elim (Result-cases (extract_pod_template old)) [
    | inr (e, e1) ↦ absurd (ground arith)
    | inl (t, e1) ↦ elim (Result-cases (extract_pod_template new)) [
      | inr (e, e2) ↦ absurd (ground arith)
      | inl (u, e2) ↦ elim (Result-cases (marshal t)) [
        | inr (e, e3) ↦ absurd (ground arith)
        | inl (x, e3) ↦ elim (Result-cases (marshal u)) [
          | inr (e, e4) ↦ absurd (ground arith)
          | inl (y, e4) ↦
              let differ : not (text_eq (hex (sum64a x)) (hex (sum64a y))) ≡ true = ground arith in
              (t, u, x, y, e1, e2, e3, e4, λ same. (text_differ_iff _ _).0 differ (ap hex same))
        ]
      ]
    ]
  ]

  spec_changed_complete :
      (old new : Object) → HashesDiffer old new → spec_changed marshal old new ≡ true
  unfolding spec_changed
  spec_changed_complete old new (t, u, x, y, e1, e2, e3, e4, differ) =
      rw (e1, e2, templates_differ, e3, e4, hash_template)
        ((text_differ_iff _ _).1 (λ same. differ (hex_inj _ _ (sum64a-lt x) (sum64a-lt y) same)))

  -- SpecChanged holds exactly if both objects have a pod template that can be serialised, and the
  -- 64-bit hashes of the two are different.
  pub spec_changed_iff :
      (old new : Object) → (spec_changed marshal old new ≡ true) ↔ HashesDiffer old new
  spec_changed_iff old new = (spec_changed_sound old new, spec_changed_complete old new)
