-- ===== src/Tests/Stores.antt =====
-- The cluster of the tests reads its own writes, and what follows for runs on it.
use cascader.Common.{
  ◌≡◌, refl, sym, ap, ◌∙◌, inl, inr, Text, text_eq, text_eq_iff, Bool-cases, true, false, arith,
  ◌&&◌, some, [], ◌∷◌,
}
use cascader.Errors.{ok, Result-cases}
use cascader.Objects.{Deployment}
use cascader.Targets.{Target, deployment_target, stateful_set_target, daemon_set_target}
use cascader.Store.{View, look, seen, store, IsStore, deployment_view}
use cascader.Tests.{Cluster, client, find, replace, is_named}

pub find-named :
    (s : Cluster) (namespace name : Text) (d : Deployment)
    → find s namespace name ≡ ok d
    → is_named namespace name d ≡ true
unfolding find
find-named [] namespace name d h = absurd (cc)
find-named (e ∷ es) namespace name d h = elim (Bool-cases (is_named namespace name e)) [
  | inl same ↦ ground arith
  | inr other ↦ find-named es namespace name d (ground arith)
]

-- The two have one name, so they are found under the same names.
is_named-same :
    (new e : Deployment) (m n : Text)
    → is_named new.meta.namespace new.meta.name e ≡ true
    → is_named m n e ≡ is_named m n new
is_named-same new e m n h =
    ground (
      arith,
      text_eq_iff e.meta.namespace new.meta.namespace,
      text_eq_iff e.meta.name new.meta.name,
    )

is_named-different :
    (new e : Deployment) (m n : Text)
    → is_named new.meta.namespace new.meta.name e ≡ false
    → is_named m n new ≡ true
    → is_named m n e ≡ false
is_named-different new e m n different h =
    let same_namespace : new.meta.namespace ≡ m =
      ground (arith, text_eq_iff new.meta.namespace m) in
    let same_name : new.meta.name ≡ n = ground (arith, text_eq_iff new.meta.name n) in
    (λ i. is_named (sym same_namespace i) (sym same_name i) e) ∙ different

find-replace_other :
    (s : Cluster) (new : Deployment) (m n : Text)
    → is_named m n new ≡ false
    → find (replace s new) m n ≡ find s m n
unfolding find replace
find-replace_other [] new m n h = refl
find-replace_other (e ∷ es) new m n h =
    let rest = find-replace_other es new m n h in
    elim (Bool-cases (is_named new.meta.namespace new.meta.name e)) [
      | inl same ↦
          let other = is_named-same new e m n same ∙ h in rw (same, h, other, find, replace) rest
      | inr different ↦ elim (Bool-cases (is_named m n e)) [
        | inl found ↦ rw (different, found, find, replace) refl
        | inr missed ↦ rw (different, missed, find, replace) rest
      ]
    ]

find-replace_same :
    (s : Cluster) (new d : Deployment) (m n : Text)
    → is_named m n new ≡ true
    → find s new.meta.namespace new.meta.name ≡ ok d
    → find (replace s new) m n ≡ ok new
unfolding find replace
find-replace_same [] new d m n h found = absurd (cc)
find-replace_same (e ∷ es) new d m n h found =
    elim (Bool-cases (is_named new.meta.namespace new.meta.name e)) [
      | inl same ↦ rw (same, h, find, replace) refl
      | inr different ↦
          let missed = is_named-different new e m n different h in
          let found' : find es new.meta.namespace new.meta.name ≡ ok d = ground arith in
          rw (different, missed, find, replace) (find-replace_same es new d m n h found')
    ]

seen-ok :
    (s : Cluster) (namespace name : Text) (v : View)
    → seen deployment_view (find s namespace name) ≡ some v
    → (d : Deployment) × (find s namespace name ≡ ok d)
seen-ok s namespace name v h = elim (Result-cases (find s namespace name)) [
  | inl found ↦ found
  | inr (x, e) ↦ absurd (ground arith)
]

pub look-replace :
    (s : Cluster) (old new d : Deployment)
    → new.meta.namespace ≡ old.meta.namespace
    → new.meta.name ≡ old.meta.name
    → find s old.meta.namespace old.meta.name ≡ ok d
    → (t : Target)
    → look client (replace s new) t
      ≡ store
          (deployment_target old.meta.namespace old.meta.name)
          (deployment_view new)
          (look client s)
          t
look-replace s old new d same_namespace same_name found (deployment_target m n) =
    let named : is_named m n new ≡ is_named m n old =
      λ i. text_eq (same_namespace i) m && text_eq (same_name i) n in
    elim (Bool-cases (is_named m n old)) [
      | inl same ↦
          let found' : find s new.meta.namespace new.meta.name ≡ ok d =
            (λ i. find s (same_namespace i) (same_name i)) ∙ found in
          let e = find-replace_same s new d m n (named ∙ same) found' in rw (e, same) refl
      | inr other ↦ let e = find-replace_other s new m n (named ∙ other) in rw (e, other) refl
    ]
look-replace s old new d same_namespace same_name found (stateful_set_target m n) = refl
look-replace s old new d same_namespace same_name found (daemon_set_target m n) = refl

pub client-IsStore : IsStore client
client-IsStore = record {
  deployments = record {
    looks = λ s namespace name. refl;
    named = λ s namespace name d h. ground (
      arith,
      find-named s namespace name d h,
      text_eq_iff d.meta.namespace namespace,
      text_eq_iff d.meta.name name,
    );
    stored = λ s old new final fresh same_namespace same_name h.
        let e : final ≡ new = cc in
        let (d, found) = seen-ok s old.meta.namespace old.meta.name (deployment_view old) fresh in
        (ap deployment_view e, look-replace s old new d same_namespace same_name found);
    refused = λ s old new e h. absurd (cc);
  };
  stateful_sets = record {
    looks = λ s namespace name. refl;
    named = λ s namespace name d h. absurd (cc);
    stored = λ s old new final fresh same_namespace same_name h. absurd (cc);
    refused = λ s old new e h. absurd (cc);
  };
  daemon_sets = record {
    looks = λ s namespace name. refl;
    named = λ s namespace name d h. absurd (cc);
    stored = λ s old new final fresh same_namespace same_name h. absurd (cc);
    refused = λ s old new e h. absurd (cc);
  };
}
