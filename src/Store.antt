-- ===== src/Store.antt =====
-- What is assumed of the Kubernetes API where a theorem says so: the client reads its own writes.
-- A patch that was made from the object as it is stored, and succeeds, stores what was sent, at
-- the one object that it names; a patch that fails stores nothing. The status and the generation
-- of an object are the server's own, so they are not part of what is stored here. What a patch does
-- after another writer has changed the object is left to Store/Merges.
pub mod Triggers
pub mod Graph
pub mod Marks
pub mod Runs
pub mod Frames
pub mod Restarts
pub mod Unmarks
pub mod Merges
use cascader.Common.{
  ℤ, ◌≡◌, ◌↔◌, Text, Bool, true, false, ◌&&◌, Option, none, some, arith, text_eq, text_eq_iff,
  if◌then◌else◌,
}
use cascader.Errors.{Error, Result, ok, err}
use cascader.Objects.{Annotations, PodTemplateSpec, Deployment, StatefulSet, DaemonSet}
use cascader.Client.{Client, Resource}
use cascader.Utils.Patches.{Annotated}
use cascader.Workloads.{Workload}
use cascader.Targets.{Target, deployment_target, stateful_set_target, daemon_set_target}

-- What is stored of an object.
pub record View : Type 0 where
  pub namespace : Text
  pub name : Text
  pub annotations : Annotations
  pub replicas : Option ℤ
  pub template : PodTemplateSpec

abbrev pub deployment_view : Deployment → View
deployment_view d = record {
  namespace = d.meta.namespace;
  name = d.meta.name;
  annotations = d.meta.annotations;
  replicas = d.replicas;
  template = d.template;
}

abbrev pub stateful_set_view : StatefulSet → View
stateful_set_view s = record {
  namespace = s.meta.namespace;
  name = s.meta.name;
  annotations = s.meta.annotations;
  replicas = s.replicas;
  template = s.template;
}

abbrev pub daemon_set_view : DaemonSet → View
daemon_set_view d = record {
  namespace = d.meta.namespace;
  name = d.meta.name;
  annotations = d.meta.annotations;
  replicas = none;
  template = d.template;
}

abbrev pub seen : {O : Type 0} → (O → View) → Result O → Option View
seen view (ok object) = some (view object)
seen view (err e) = none

-- A cluster, abstractly: a target names an object by its kind, its namespace and its name.
abbrev pub Cluster : Type 0
Cluster = Target → Option View

abbrev pub look : (c : Client) → c.State → Cluster
look c s (deployment_target namespace name) =
    seen deployment_view (c.deployments.get s namespace name)
look c s (stateful_set_target namespace name) =
    seen stateful_set_view (c.stateful_sets.get s namespace name)
look c s (daemon_set_target namespace name) =
    seen daemon_set_view (c.daemon_sets.get s namespace name)

-- The two name one object.
abbrev pub target_eq : Target → Target → Bool
target_eq (deployment_target m n) (deployment_target m' n') = text_eq m m' && text_eq n n'
target_eq (stateful_set_target m n) (stateful_set_target m' n') = text_eq m m' && text_eq n n'
target_eq (daemon_set_target m n) (daemon_set_target m' n') = text_eq m m' && text_eq n n'
target_eq _ _ = false

pub target_eq_iff : (t u : Target) → (target_eq t u ≡ true) ↔ (t ≡ u)
target_eq_iff (deployment_target m n) (deployment_target m' n') =
    ground (arith, text_eq_iff m m', text_eq_iff n n')
target_eq_iff (stateful_set_target m n) (stateful_set_target m' n') =
    ground (arith, text_eq_iff m m', text_eq_iff n n')
target_eq_iff (daemon_set_target m n) (daemon_set_target m' n') =
    ground (arith, text_eq_iff m m', text_eq_iff n n')
target_eq_iff _ _ = ground arith

-- Writing one object.
abbrev pub store : Target → View → Cluster → Cluster
store key v cluster t = if target_eq key t then some v else cluster t

-- The laws of one type of object, of which `key` names the target.
pub record Serves (c : Client) {O : Type 0} (resource : Resource c.State O) (view : O → View)
    (key : Text → Text → Target) : Type 0 where
  pub looks :
      (s : c.State) (namespace name : Text)
      → look c s (key namespace name) ≡ seen view (resource.get s namespace name)
  -- Get answers with the object that was asked for.
  pub named :
      (s : c.State) (namespace name : Text) (object : O)
      → resource.get s namespace name ≡ ok object
      → ((view object).namespace ≡ namespace) × ((view object).name ≡ name)
  -- A patch that succeeds stores what was sent, and answers with it.
  pub stored :
      (s : c.State) (old new final : O)
      → look c s (key (view old).namespace (view old).name) ≡ some (view old)
      → (view new).namespace ≡ (view old).namespace
      → (view new).name ≡ (view old).name
      → (resource.patch s old new).1 ≡ ok final
      → (view final ≡ view new)
        × ((t : Target)
            → look c (resource.patch s old new).0 t
              ≡ store (key (view old).namespace (view old).name) (view new) (look c s) t)
  -- A patch that fails stores nothing.
  pub refused :
      (s : c.State) (old new : O) (e : Error)
      → (resource.patch s old new).1 ≡ err e
      → (t : Target) → look c (resource.patch s old new).0 t ≡ look c s t

pub record IsStore (c : Client) : Type 0 where
  pub deployments : Serves c c.deployments deployment_view deployment_target
  pub stateful_sets : Serves c c.stateful_sets stateful_set_view stateful_set_target
  pub daemon_sets : Serves c c.daemon_sets daemon_set_view daemon_set_target

-- What the annotations of an object are in its view, read and set.
pub record Presents {O : Type 0} (view : O → View) (w : Workload O) : Type 0 where
  pub annotations_of : (o : O) → w.annotated.get_annotations o ≡ (view o).annotations
  pub annotated :
      (m : Annotations) (o : O)
      → view (w.annotated.set_annotations m o) ≡ record (view o) { annotations = m }

-- And those of its pod template.
pub record Templates {O : Type 0} (view : O → View) (template : Annotated O) : Type 0 where
  pub annotations_of : (o : O) → template.get_annotations o ≡ (view o).template.annotations
  pub annotated :
      (m : Annotations) (o : O)
      → view (template.set_annotations m o)
        ≡ record (view o) { template = record ((view o).template) { annotations = m } }
