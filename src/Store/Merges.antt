-- ===== src/Store/Merges.antt =====
-- The Kubernetes API with other writers: what the program sends is a JSON merge patch (RFC 7386)
-- without a resource version, as client.MergeFrom makes it. It says how the object that the program
-- has read is to be changed, and the server makes the same change to the object as it is stored by
-- then, which need not be the one that was read. A Get sees the patch from then on, as it does at the
-- API server; the cache of the manager's client, from which Run has the reconcilers read, may be
-- behind.
pub mod Restarts
use cascader.Common.{◌≡◌, sym, ap, ◌∙◌, subst, inl, inr, ◌≢◌, Text, some, Bool-cases}
use cascader.Errors.{Error, Result-cases, ok, err}
use cascader.Objects.{Annotations}
use cascader.Client.{Client, Resource}
use cascader.Utils.Patches.{send_patch}
use cascader.Utils.Patches.Laws.{value_at}
use cascader.Targets.{Target, deployment_target, stateful_set_target, daemon_set_target}
use cascader.Store.{
  View, Cluster, look, target_eq, target_eq_iff, seen, store, deployment_view, stateful_set_view,
  daemon_set_view,
}
use cascader.Store.Runs.{OnlyMarks, OnlyMarks-refl, Keeps}

-- The keys at which the two sent objects differ are set as in the new one, and the others are kept.
pub record MergedAnnotations (old new stored final : Annotations) : Type 0 where
  pub kept : (j : Text) → value_at j new ≡ value_at j old → value_at j final ≡ value_at j stored
  pub sent : (j : Text) → value_at j new ≢ value_at j old → value_at j final ≡ value_at j new

-- So for the parts of an object.
pub record Merged (old new stored final : View) : Type 0 where
  pub namespace : final.namespace ≡ stored.namespace
  pub name : final.name ≡ stored.name
  pub annotations :
      MergedAnnotations old.annotations new.annotations stored.annotations final.annotations
  pub replicas : new.replicas ≡ old.replicas → final.replicas ≡ stored.replicas
  pub rest : new.template.rest ≡ old.template.rest → final.template.rest ≡ stored.template.rest
  pub template :
      MergedAnnotations old.template.annotations new.template.annotations
        stored.template.annotations final.template.annotations

-- The laws of one type of object, of which `key` names the target.
pub record Merges (c : Client) {O : Type 0} (resource : Resource c.State O) (view : O → View)
    (key : Text → Text → Target) : Type 0 where
  pub looks :
      (s : c.State) (namespace name : Text)
      → look c s (key namespace name) ≡ seen view (resource.get s namespace name)
  -- Get answers with the object that was asked for.
  pub named :
      (s : c.State) (namespace name : Text) (object : O)
      → resource.get s namespace name ≡ ok object
      → ((view object).namespace ≡ namespace) × ((view object).name ≡ name)
  -- A patch that succeeds changes the one object that it names, which is there, and answers with it.
  pub merged :
      (s : c.State) (old new final : O)
      → (view new).namespace ≡ (view old).namespace
      → (view new).name ≡ (view old).name
      → (resource.patch s old new).1 ≡ ok final
      → (stored : View) × (v : View) × (look c s (key (view old).namespace (view old).name)
          ≡ some stored)
        × Merged (view old) (view new) stored v
        × (view final ≡ v)
        × ((t : Target)
            → look c (resource.patch s old new).0 t
              ≡ store (key (view old).namespace (view old).name) v (look c s) t)
  -- A patch that fails stores nothing.
  pub refused :
      (s : c.State) (old new : O) (e : Error)
      → (resource.patch s old new).1 ≡ err e
      → (t : Target) → look c (resource.patch s old new).0 t ≡ look c s t

pub record IsMerging (c : Client) : Type 0 where
  pub deployments : Merges c c.deployments deployment_view deployment_target
  pub stateful_sets : Merges c c.stateful_sets stateful_set_view stateful_set_target
  pub daemon_sets : Merges c c.daemon_sets daemon_set_view daemon_set_target

module _ (k : Text) where
  -- The change of two annotations is the change of these in whatever object is stored.
  Merged-OnlyMarks :
      (old new stored final : View)
      → OnlyMarks k (some old) (some new)
      → Merged old new stored final
      → OnlyMarks k (some stored) (some final)
  Merged-OnlyMarks old new stored final (_, _, same_replicas, agree, same_rest, agree') m = (
    m.namespace,
    m.name,
    m.replicas same_replicas,
    λ j h. m.annotations.kept j (agree j h),
    m.rest same_rest,
    λ j h. m.template.kept j (agree' j h),
  )

  stored-OnlyMarks :
      (key : Target) (stored v : View) (cluster : Cluster)
      → cluster key ≡ some stored
      → OnlyMarks k (some stored) (some v)
      → (t : Target) → OnlyMarks k (cluster t) (store key v cluster t)
  stored-OnlyMarks key stored v cluster there only t = elim (Bool-cases (target_eq key t)) [
    | inl same ↦ rw same (
        subst (λ o. OnlyMarks k o (some v)) (sym there ∙ ap cluster ((target_eq_iff key t).0 same))
          only)
    | inr other ↦ rw other (OnlyMarks-refl k (cluster t))
  ]

  -- A patch that changes at most the two annotations of the object that the program has read, which
  -- may have been changed since, changes at most these of the stored one.
  pub send_patch-Keeps :
      (c : Client) {O : Type 0} (resource : Resource c.State O) (view : O → View)
      (key : Text → Text → Target) (merges : Merges c resource view key) (s : c.State) (old new : O)
      (wrap : Error → Error)
      → OnlyMarks k (some (view old)) (some (view new))
      → Keeps k c s (send_patch resource s old new wrap).0
  unfolding send_patch
  send_patch-Keeps c resource view key merges s old new wrap only =
      let (same_namespace, same_name, _, _, _, _) = only in
      elim (Result-cases (resource.patch s old new).1) [
        | inl (final, e) ↦
            let (stored, v, there, merged, _, written) =
              merges.merged s old new final same_namespace same_name e in
            rw (e, send_patch)
              (λ t. subst (OnlyMarks k (look c s t)) (sym (written t)) (
                stored-OnlyMarks (key (view old).namespace (view old).name) stored v (look c s)
                  there (Merged-OnlyMarks (view old) (view new) stored v only merged) t))
        | inr (x, e) ↦
            rw (e, send_patch)
              (λ t.
                subst (OnlyMarks k (look c s t)) (sym (merges.refused s old new x e t))
                  (OnlyMarks-refl k (look c s t)))
      ]
