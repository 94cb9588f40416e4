-- ===== src/Utils/Patches.antt =====
-- internal/utils/helper.go: the three helpers that change one annotation and send the patch. They
-- return the new cluster, the object as the caller's variable holds it afterwards, and the error.
pub mod Laws
use cascader.Common.{Text, Option, none, some, []}
use cascader.Errors.{Error, ok, err, patch_annotation_failed, delete_annotation_failed}
use cascader.Dict.{insert, erase}
use cascader.Objects.{Annotations}
use cascader.Client.{Resource}

-- Where an object keeps the annotations that are changed.
pub record Annotated (O : Type 0) : Type 0 where
  pub get_annotations : O → Annotations
  pub set_annotations : Annotations → O → O

-- annotations[key] = value, in a new map if there is none
unfoldable pub put_annotation : Text → Text → Annotations → Annotations
put_annotation key value none = some (insert key value [])
put_annotation key value (some m) = some (insert key value m)

-- delete(annotations, key), which does nothing to a nil map
unfoldable pub delete_annotation : Text → Annotations → Annotations
delete_annotation key none = none
delete_annotation key (some m) = some (erase key m)

module _ {S O : Type 0} (resource : Resource S O) where
  -- c.Patch(ctx, obj, client.MergeFrom(original)), the error wrapped
  unfoldable pub send_patch : S → O → O → (Error → Error) → S × O × Option Error
  send_patch s original modified wrap =
      let (s', answer) = resource.patch s original modified in
      elim answer [ ok object ↦ (s', object, none) | err e ↦ (s', modified, some (wrap e)) ]

  -- `template` says where the object keeps its pod template's annotations.
  unfoldable pub patch_pod_template_annotation :
      Annotated O → S → O → Text → Text → S × O × Option Error
  unfolding put_annotation send_patch
  patch_pod_template_annotation template s object key value =
      let annotations = put_annotation key value (template.get_annotations object) in
      send_patch s object (template.set_annotations annotations object)
        (patch_annotation_failed key value)

  unfoldable pub patch_workload_annotation :
      Annotated O → S → O → Text → Text → S × O × Option Error
  unfolding put_annotation send_patch
  patch_workload_annotation meta s object key value =
      let annotations = put_annotation key value (meta.get_annotations object) in
      send_patch s object (meta.set_annotations annotations object)
        (patch_annotation_failed key value)

  unfoldable pub delete_workload_annotation : Annotated O → S → O → Text → S × O × Option Error
  unfolding delete_annotation send_patch
  delete_workload_annotation meta s object key =
      let annotations = delete_annotation key (meta.get_annotations object) in
      send_patch s object (meta.set_annotations annotations object) (delete_annotation_failed key)
