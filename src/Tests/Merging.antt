-- ===== src/Tests/Merging.antt =====
-- The cluster of the tests with a server that merges the patches, and its laws.
pub mod Maps
use cascader.Common.{
  ◌≡◌, refl, sym, ap, ◌∙◌, subst, inl, inr, Text, codes, text_eq, text_eq_iff, Bool, true, false,
  Option, none, some, arith, if◌then◌else◌, ℤ, eqb_ℤ, eqb_ℤ_iff,
}
use cascader.Errors.{Error, Result, ok, err, api_not_found, Result-cases}
use cascader.Objects.{Deployment}
use cascader.Client.{Client}
use cascader.Store.{deployment_view, look, seen}
use cascader.Store.Merges.{Merged, IsMerging}
use cascader.Tests.{Cluster, find, replace}
use cascader.Tests.Stores.{find-named, look-replace}
use cascader.Tests.Merging.Maps.{merge_annotations, merge_annotations-Merged}

abbrev same_count : Option ℤ → Option ℤ → Bool
same_count none none = true
same_count (some m) (some n) = eqb_ℤ m n
same_count _ _ = false

same_count_refl : (x : Option ℤ) → same_count x x ≡ true
same_count_refl none = refl
same_count_refl (some n) = (eqb_ℤ_iff n n).1 refl

-- The stored Deployment with the changes from the old one to the new one.
unfoldable pub merge : Deployment → Deployment → Deployment → Deployment
unfolding merge_annotations
merge old new stored = record stored {
  meta = record (stored.meta) {
    annotations =
        merge_annotations old.meta.annotations new.meta.annotations stored.meta.annotations;
  };
  replicas = if same_count new.replicas old.replicas then stored.replicas else new.replicas;
  template = record {
    annotations =
        merge_annotations old.template.annotations new.template.annotations
          stored.template.annotations;
    rest =
        if text_eq new.template.rest old.template.rest
        then stored.template.rest
        else new.template.rest;
  };
}

merge_names :
    (old new stored : Deployment)
    → ((merge old new stored).meta.namespace ≡ stored.meta.namespace)
      × ((merge old new stored).meta.name ≡ stored.meta.name)
unfolding merge
merge_names old new stored = (refl, refl)

merge-Merged :
    (old new stored : Deployment)
    → Merged
        (deployment_view old)
        (deployment_view new)
        (deployment_view stored)
        (deployment_view (merge old new stored))
unfolding merge
merge-Merged old new stored = record {
  namespace = refl;
  name = refl;
  annotations =
      merge_annotations-Merged old.meta.annotations new.meta.annotations stored.meta.annotations;
  replicas = λ h. rw (h, same_count_refl old.replicas) refl;
  rest = λ h. ground (arith, text_eq_iff new.template.rest old.template.rest);
  template =
      merge_annotations-Merged old.template.annotations new.template.annotations
        stored.template.annotations;
}

unfoldable pub patch_merging : Cluster → Deployment → Deployment → Cluster × Result Deployment
unfolding find replace merge
patch_merging s old new = elim (find s old.meta.namespace old.meta.name) [
  | err e ↦ (s, err e)
  | ok stored ↦ (replace s (merge old new stored), ok (merge old new stored))
]

abbrev pub merging_client : Client
merging_client = record {
  State = Cluster;
  deployments = record { get = find; patch = patch_merging };
  stateful_sets = record {
    get = λ s ns name. err api_not_found;
    patch = λ s old new. (s, err api_not_found);
  };
  daemon_sets = record {
    get = λ s ns name. err api_not_found;
    patch = λ s old new. (s, err api_not_found);
  };
  now = λ s. codes "2026-01-01T00:00:00Z";
}

patch_merging-merged :
    (s : Cluster) (old new final : Deployment)
    → (patch_merging s old new).1 ≡ ok final
    → (stored : Deployment) × (find s old.meta.namespace old.meta.name ≡ ok stored)
      × (final ≡ merge old new stored)
      × ((patch_merging s old new).0 ≡ replace s final)
unfolding patch_merging
patch_merging-merged s old new final h =
    elim (Result-cases (find s old.meta.namespace old.meta.name)) [
      | inl (stored, e) ↦
          let same : final ≡ merge old new stored = ground (arith, e) in
          rw (e, patch_merging) (stored, refl, same, ap (replace s) (sym same))
      | inr (x, e) ↦ absurd (ground (arith, e))
    ]

pub find_names :
    (s : Cluster) (namespace name : Text) (d : Deployment)
    → find s namespace name ≡ ok d
    → (d.meta.namespace ≡ namespace) × (d.meta.name ≡ name)
find_names s namespace name d h = ground (
  arith,
  find-named s namespace name d h,
  text_eq_iff d.meta.namespace namespace,
  text_eq_iff d.meta.name name,
)

patch_merging-refused :
    (s : Cluster) (old new : Deployment) (e : Error)
    → (patch_merging s old new).1 ≡ err e
    → (patch_merging s old new).0 ≡ s
unfolding patch_merging
patch_merging-refused s old new e h =
    elim (Result-cases (find s old.meta.namespace old.meta.name)) [
      | inl (stored, found) ↦ absurd (ground (arith, found))
      | inr (x, missing) ↦ rw (missing, patch_merging) refl
    ]

pub merging_client-IsMerging : IsMerging merging_client
merging_client-IsMerging = record {
  deployments = record {
    looks = λ s namespace name. refl;
    named = find_names;
    merged = λ s old new final same_namespace same_name h.
        let (stored, found, same, written) = patch_merging-merged s old new final h in
        let (m, n) = find_names s old.meta.namespace old.meta.name stored found in
        let named : (final.meta.namespace ≡ old.meta.namespace)
            × (final.meta.name ≡ old.meta.name) =
          (
            ap (λ d. d.meta.namespace) same ∙ (merge_names old new stored).0 ∙ m,
            ap (λ d. d.meta.name) same ∙ (merge_names old new stored).1 ∙ n,
          ) in
        (
          deployment_view stored,
          deployment_view final,
          ap (seen deployment_view) found,
          subst
              (λ d.
                Merged (deployment_view old) (deployment_view new) (deployment_view stored)
                  (deployment_view d))
              (sym same) (merge-Merged old new stored),
          refl,
          λ t.
              ap (λ s'. look merging_client s' t) written
              ∙ look-replace s old final stored named.0 named.1 found t,
        );
    refused = λ s old new e h t.
        ap (λ s'. look merging_client s' t) (patch_merging-refused s old new e h);
  };
  stateful_sets = record {
    looks = λ s namespace name. refl;
    named = λ s namespace name d h. absurd (cc);
    merged = λ s old new final same_namespace same_name h. absurd (cc);
    refused = λ s old new e h t. refl;
  };
  daemon_sets = record {
    looks = λ s namespace name. refl;
    named = λ s namespace name d h. absurd (cc);
    merged = λ s old new final same_namespace same_name h. absurd (cc);
    refused = λ s old new e h t. refl;
  };
}
