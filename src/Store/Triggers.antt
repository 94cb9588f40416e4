-- ===== src/Store/Triggers.antt =====
-- internal/utils/helper.go and internal/targets: the patches of a client that reads its own writes,
-- as writes to an abstract cluster.
use cascader.Common.{
  ◌≡◌, refl, sym, ap, ◌∙◌, inl, inr, Text, Option, none, some, Option-cases, Bool-cases,
  if◌then◌else◌,
}
use cascader.Errors.{Error, ok, Result-cases}
use cascader.Flags.{last_observed_restart_annotation}
use cascader.Kinds.{Kind}
use cascader.Client.{Client, Resource}
use cascader.Utils.Patches.{Annotated, put_annotation, send_patch, patch_pod_template_annotation}
use cascader.Targets.{
  Target, deployment_target, stateful_set_target, daemon_set_target, patch_restart, trigger_restart,
  trigger, deployment_trigger, stateful_set_trigger, daemon_set_trigger, deployment_template,
  stateful_set_template, daemon_set_template,
}
use cascader.Store.{
  View, deployment_view, stateful_set_view, daemon_set_view, seen, Cluster, look, target_eq,
  target_eq_iff, store, Serves, IsStore, Templates,
}

-- One write, which happens unless there is an error.
abbrev pub written : Option Error → Target → View → Cluster → Cluster
written none key v cluster = store key v cluster
written (some e) key v cluster = cluster

-- The pod template is marked with the time.
abbrev pub restarted : Text → View → View
restarted now v = record v {
  template = record (v.template) {
    annotations = put_annotation last_observed_restart_annotation now v.template.annotations;
  };
}

abbrev pub map_view : (View → View) → Option View → Option View
map_view f none = none
map_view f (some v) = some (f v)

-- The restart of one object.
abbrev pub restart : Target → Text → Cluster → Cluster
restart key now cluster t =
    if target_eq key t then map_view (restarted now) (cluster t) else cluster t

-- A restart that happens unless there is an error.
abbrev pub triggered : Option Error → Target → Text → Cluster → Cluster
triggered none key now cluster = restart key now cluster
triggered (some e) key now cluster = cluster

store-restarted :
    (key : Target) (now : Text) (v : View) (cluster : Cluster)
    → cluster key ≡ some v
    → (t : Target) → store key (restarted now v) cluster t ≡ restart key now cluster t
store-restarted key now v cluster h t = elim (Bool-cases (target_eq key t)) [
  | inl same ↦
      rw same
        (sym (ap (map_view (restarted now)) (ap cluster (sym ((target_eq_iff key t).0 same)) ∙ h)))
  | inr other ↦ rw other refl
]

written-triggered :
    (failure : Option Error) (key : Target) (now : Text) (v v' : View) (cluster : Cluster)
    → cluster key ≡ some v
    → v' ≡ restarted now v
    → (t : Target) → written failure key v' cluster t ≡ triggered failure key now cluster t
written-triggered none key now v v' cluster h e t =
    ap (λ x. store key x cluster t) e ∙ store-restarted key now v cluster h t
written-triggered (some _) key now v v' cluster h e t = refl

module _ (c : Client) {O : Type 0} (resource : Resource c.State O) (view : O → View)
    (key : Text → Text → Target) (serves : Serves c resource view key) where
  -- The object is what is stored under its name.
  abbrev pub IsFresh : c.State → O → Type 0
  IsFresh s object = look c s (key (view object).namespace (view object).name) ≡ some (view object)

  pub get-IsFresh :
      (s : c.State) (namespace name : Text) (object : O)
      → resource.get s namespace name ≡ ok object
      → IsFresh s object
  get-IsFresh s namespace name object h =
      let (same_namespace, same_name) = serves.named s namespace name object h in
      (λ i. look c s (key (same_namespace i) (same_name i)))
      ∙ serves.looks s namespace name
      ∙ ap (seen view) h

  -- The object in the caller's variable is then what was sent, and the cluster has it, or the patch
  -- failed and the cluster is as it was.
  pub send_patch-store :
      (s : c.State) (old new : O) (wrap : Error → Error)
      → IsFresh s old
      → (view new).namespace ≡ (view old).namespace
      → (view new).name ≡ (view old).name
      → let (s', object, failure) = send_patch resource s old new wrap in
        (view object ≡ view new)
        × ((t : Target)
            → look c s' t
              ≡ written failure (key (view old).namespace (view old).name) (view new) (look c s) t)
  unfolding send_patch
  send_patch-store s old new wrap fresh same_namespace same_name =
      elim (Result-cases (resource.patch s old new).1) [
        | inl (final, e) ↦
            rw (e, send_patch) (serves.stored s old new final fresh same_namespace same_name e)
        | inr (x, e) ↦ rw (e, send_patch) (refl, serves.refused s old new x e)
      ]

  module _ (template : Annotated O) (templates : Templates view template) where
    -- What the pod template's patch does.
    patch_pod_template_annotation-store :
        (s : c.State) (object : O) (now : Text)
        → IsFresh s object
        → let (s', _, failure) =
            patch_pod_template_annotation resource template s object
              last_observed_restart_annotation now in
          (t : Target)
          → look c s' t
            ≡ triggered failure (key (view object).namespace (view object).name) now (look c s) t
    unfolding patch_pod_template_annotation
    patch_pod_template_annotation-store s object now fresh t =
        let annotations =
          put_annotation last_observed_restart_annotation now (template.get_annotations object) in
        let sent = template.set_annotations annotations object in
        let changed : view sent ≡ record (view object) {
          template = record ((view object).template) { annotations = annotations };
        } =
          templates.annotated annotations object in
        let marked : view sent ≡ restarted now (view object) =
          changed
          ∙ ap
              (λ m. record (view object) {
                template = record ((view object).template) {
                  annotations = put_annotation last_observed_restart_annotation now m;
                };
              })
              (templates.annotations_of object) in
        let (_, stored) =
          send_patch-store s object sent _ fresh (ap (λ v. v.namespace) changed)
            (ap (λ v. v.name) changed) in
        stored t
        ∙ written-triggered _ (key (view object).namespace (view object).name) now (view object)
            (view sent) (look c s) fresh marked t

    patch_restart-store :
        (kind : Kind) (namespace name : Text) (s : c.State) (object : O)
        → resource.get s namespace name ≡ ok object
        → let (s', failure) = patch_restart c resource template kind namespace name s object in
          (t : Target) → look c s' t ≡ triggered failure (key namespace name) (c.now s) (look c s) t
    unfolding patch_restart
    patch_restart-store kind namespace name s object found t =
        let (same_namespace, same_name) = serves.named s namespace name object found in
        let (s', _, failure) =
          patch_pod_template_annotation resource template s object last_observed_restart_annotation
            (c.now s) in
        let stored : look c s' t ≡ triggered failure (key namespace name) (c.now s) (look c s) t =
          patch_pod_template_annotation-store s object (c.now s)
            (get-IsFresh s namespace name object found) t
          ∙ (λ i.
              triggered failure (key (same_namespace i) (same_name i)) (c.now s) (look c s) t) in
        elim (Option-cases failure) [
          | inl e ↦
              rw (e, patch_restart)
                (stored ∙ ap (λ f. triggered f (key namespace name) (c.now s) (look c s) t) e)
          | inr (x, e) ↦
              rw (e, patch_restart)
                (stored ∙ ap (λ f. triggered f (key namespace name) (c.now s) (look c s) t) e)
        ]

    trigger_restart-store :
        (kind : Kind) (namespace name : Text) (s : c.State)
        → let (s', failure) = trigger_restart c resource template kind namespace name s in
          (t : Target) → look c s' t ≡ triggered failure (key namespace name) (c.now s) (look c s) t
    unfolding trigger_restart
    trigger_restart-store kind namespace name s t =
        elim (Result-cases (resource.get s namespace name)) [
          | inl (object, e) ↦
              rw (e, trigger_restart) (patch_restart-store kind namespace name s object e t)
          | inr (x, e) ↦ rw (e, trigger_restart) refl
        ]

pub deployment-Templates : Templates deployment_view deployment_template
deployment-Templates = record { annotations_of = λ o. refl; annotated = λ m o. refl }

pub stateful_set-Templates : Templates stateful_set_view stateful_set_template
stateful_set-Templates = record { annotations_of = λ o. refl; annotated = λ m o. refl }

pub daemon_set-Templates : Templates daemon_set_view daemon_set_template
daemon_set-Templates = record { annotations_of = λ o. refl; annotated = λ m o. refl }

-- With a client that reads its own writes, Trigger either fails, and then nothing is stored, or it
-- puts the restart annotation with the time into the pod template of the target, and changes
-- nothing else of it and no other object.
pub trigger-store :
    (c : Client)
    → IsStore c
    → (key : Target) (s : c.State)
    → let (s', failure) = trigger c key s in
      (t : Target) → look c s' t ≡ triggered failure key (c.now s) (look c s) t
unfolding trigger deployment_trigger stateful_set_trigger daemon_set_trigger
trigger-store c laws (deployment_target namespace name) s =
    trigger_restart-store c c.deployments deployment_view deployment_target laws.deployments
      deployment_template deployment-Templates _ namespace name s
trigger-store c laws (stateful_set_target namespace name) s =
    trigger_restart-store c c.stateful_sets stateful_set_view stateful_set_target laws.stateful_sets
      stateful_set_template stateful_set-Templates _ namespace name s
trigger-store c laws (daemon_set_target namespace name) s =
    trigger_restart-store c c.daemon_sets daemon_set_view daemon_set_target laws.daemon_sets
      daemon_set_template daemon_set-Templates _ namespace name s
