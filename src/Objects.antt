-- ===== src/Objects.antt =====
-- The fields of the Kubernetes API objects (k8s.io/api/apps/v1, core/v1) that the program reads
-- or writes. The structures are not part of the repository; nothing here computes but accessors.
use cascader.Common.{ℤ, Text, Option}
use cascader.Dict.{Dict}

-- A nil map is `none`.
abbrev pub Annotations : Type 0
Annotations = Option (Dict Text)

pub record ObjectMeta : Type 0 where
  pub namespace : Text
  pub name : Text
  pub annotations : Annotations
  pub generation : ℤ

-- `rest` stands for all of the template but its annotations.
pub record PodTemplateSpec : Type 0 where
  pub annotations : Annotations
  pub rest : Text

pub record DeploymentStatus : Type 0 where
  pub observed_generation : ℤ
  pub updated_replicas : ℤ
  pub ready_replicas : ℤ
  pub available_replicas : ℤ
  pub unavailable_replicas : ℤ

-- `replicas` is a pointer.
pub record Deployment : Type 0 where
  pub meta : ObjectMeta
  pub replicas : Option ℤ
  pub template : PodTemplateSpec
  pub status : DeploymentStatus

pub record StatefulSetStatus : Type 0 where
  pub observed_generation : ℤ
  pub updated_replicas : ℤ
  pub ready_replicas : ℤ

pub record StatefulSet : Type 0 where
  pub meta : ObjectMeta
  pub replicas : Option ℤ
  pub template : PodTemplateSpec
  pub status : StatefulSetStatus

pub record DaemonSetStatus : Type 0 where
  pub observed_generation : ℤ
  pub desired_number_scheduled : ℤ
  pub updated_number_scheduled : ℤ
  pub number_ready : ℤ
  pub number_available : ℤ
  pub number_unavailable : ℤ

pub record DaemonSet : Type 0 where
  pub meta : ObjectMeta
  pub template : PodTemplateSpec
  pub status : DaemonSetStatus

-- client.Object: the three workloads, and any other type with its metadata
pub data Object : Type 0 where
  deployment : Deployment → Object
  stateful_set : StatefulSet → Object
  daemon_set : DaemonSet → Object
  other_object : ObjectMeta → Object

abbrev pub object_meta : Object → ObjectMeta
object_meta (deployment d) = d.meta
object_meta (stateful_set s) = s.meta
object_meta (daemon_set d) = d.meta
object_meta (other_object m) = m
