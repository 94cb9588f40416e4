-- ===== src/Store/Merges/Restarts.antt =====
-- The API with other writers: which patches restart an object, and what can be read of it.
use cascader.Common.{
  ◌≡◌, sym, ap, ◌∙◌, subst, inl, inr, ◌⊎◌, Text, Option, none, some, Bool-cases, if◌then◌else◌,
}
use cascader.Errors.{Error, Result-cases, ok}
use cascader.Flags.{last_observed_restart_annotation}
use cascader.Client.{Client, Resource}
use cascader.Utils.Patches.{send_patch}
use cascader.Utils.Patches.Laws.{value_at}
use cascader.Targets.{Target}
use cascader.Store.{View, look, target_eq, target_eq_iff, seen}
use cascader.Store.Marks.{store_self}
use cascader.Store.Merges.{Merges}

-- When the object was last restarted by the operator.
abbrev pub restarted_at : Option View → Option Text
restarted_at none = none
restarted_at (some v) = value_at last_observed_restart_annotation v.template.annotations

module _ (c : Client) {O : Type 0} (resource : Resource c.State O) (view : O → View)
    (key : Text → Text → Target) (merges : Merges c resource view key) where
  abbrev pub key_of : O → Target
  key_of object = key (view object).namespace (view object).name

  -- What is stored under a name has that name.
  pub look-named :
      (s : c.State) (namespace name : Text) (v : View)
      → look c s (key namespace name) ≡ some v
      → (v.namespace ≡ namespace) × (v.name ≡ name)
  look-named s namespace name v there = elim (Result-cases (resource.get s namespace name)) [
    | inl (object, e) ↦
        let same : some (view object) ≡ some v =
          sym (merges.looks s namespace name ∙ ap (seen view) e) ∙ there in
        let same_view : view object ≡ v = cc in
        subst (λ x. (x.namespace ≡ namespace) × (x.name ≡ name)) same_view
          (merges.named s namespace name object e)
    | inr (x, e) ↦ absurd (cc (sym (merges.looks s namespace name ∙ ap (seen view) e) ∙ there))
  ]

  -- The object that Get answers with is stored under its name.
  pub get-stored :
      (s : c.State) (namespace name : Text) (object : O)
      → resource.get s namespace name ≡ ok object
      → look c s (key namespace name) ≡ some (view object)
  get-stored s namespace name object e = merges.looks s namespace name ∙ ap (seen view) e

  module _ (s : c.State) (old new : O) (wrap : Error → Error)
      (same_namespace : (view new).namespace ≡ (view old).namespace)
      (same_name : (view new).name ≡ (view old).name) where
    -- A patch changes no other object.
    pub send_patch_other :
        (t : Target)
        → (look c (send_patch resource s old new wrap).0 t ≡ look c s t) ⊎ (t ≡ key_of old)
    unfolding send_patch
    send_patch_other t = elim (Result-cases (resource.patch s old new).1) [
      | inl (final, e) ↦
          let (stored, v, there, merged, answered, written) =
            merges.merged s old new final same_namespace same_name e in
          elim (Bool-cases (target_eq (key_of old) t)) [
            | inl same ↦ inr (sym ((target_eq_iff (key_of old) t).0 same))
            | inr other ↦
                rw (e, send_patch)
                  (inl (written t ∙ ap (λ x. if x then some v else look c s t) other))
          ]
      | inr (x, e) ↦ rw (e, send_patch) (inl (merges.refused s old new x e t))
    ]

    -- A patch that leaves the annotation that restarts the object as it is does not restart it.
    pub send_patch_unrestarted :
        value_at last_observed_restart_annotation (view new).template.annotations
          ≡ value_at last_observed_restart_annotation (view old).template.annotations
        → (t : Target)
        → restarted_at (look c (send_patch resource s old new wrap).0 t) ≡ restarted_at (look c s t)
    unfolding send_patch
    send_patch_unrestarted unchanged t = elim (Result-cases (resource.patch s old new).1) [
      | inl (final, e) ↦
          let (stored, v, there, merged, answered, written) =
            merges.merged s old new final same_namespace same_name e in
          elim (Bool-cases (target_eq (key_of old) t)) [
            | inl same ↦
                rw (e, send_patch)
                  (ap restarted_at (written t ∙ ap (λ x. if x then some v else look c s t) same)
                    ∙ merged.template.kept last_observed_restart_annotation unchanged
                    ∙ ap restarted_at
                        (sym there ∙ ap (look c s) ((target_eq_iff (key_of old) t).0 same)))
            | inr other ↦
                rw (e, send_patch)
                  (ap restarted_at (written t ∙ ap (λ x. if x then some v else look c s t) other))
          ]
      | inr (x, e) ↦ rw (e, send_patch) (ap restarted_at (merges.refused s old new x e t))
    ]

    -- The object in the caller's variable is then the stored one, with its name.
    pub send_patch_answer :
        let (s', object, failure) = send_patch resource s old new wrap in
        failure ≡ none
        → (look c s' (key_of old) ≡ some (view object))
          × ((view object).namespace ≡ (view old).namespace)
          × ((view object).name ≡ (view old).name)
    unfolding send_patch
    send_patch_answer = elim (Result-cases (resource.patch s old new).1) [
      | inl (final, e) ↦
          let (stored, v, there, merged, answered, written) =
            merges.merged s old new final same_namespace same_name e in
          let (m, n) = look-named s (view old).namespace (view old).name stored there in
          rw (e, send_patch)
            (λ _. (
              written (key_of old) ∙ store_self (key_of old) v (look c s) ∙ ap some (sym answered),
              ap (λ x. x.namespace) answered ∙ merged.namespace ∙ m,
              ap (λ x. x.name) answered ∙ merged.name ∙ n,
            ))
      | inr (x, e) ↦ rw (e, send_patch) (λ h. absurd (cc))
    ]
