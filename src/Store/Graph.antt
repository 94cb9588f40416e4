-- ===== src/Store/Graph.antt =====
-- internal/controller: the dependencies that detectCycle reads, in terms of what is stored.
use cascader.Common.{
  ◌≡◌, refl, sym, ◌∙◌, ◌↔◌, ◌≢◌, Text, Option, none, some, List, [], ◌∷◌, arith, text_eq_iff,
}
use cascader.Errors.{Result, ok}
use cascader.Dict.{Dict, lookup}
use cascader.Kinds.{AnnotationKindMap}
use cascader.Objects.{Annotations}
use cascader.Client.{Client}
use cascader.Utils.Patches.{put_annotation, delete_annotation}
use cascader.Utils.Patches.Laws.{value_at, value_at-put_annotation, value_at-delete_annotation}
use cascader.Targets.{Target, deployment_target, stateful_set_target, daemon_set_target, fetch_meta}
use cascader.Controller.{BaseReconciler}
use cascader.Controller.Extract.{targets_of_entries, extract_targets}
use cascader.Controller.Cycles.{dependencies, dependencies_of}
use cascader.Controller.Reconcile.{World}
use cascader.Store.{View, Cluster, look}

-- The annotations agree but for one key.
abbrev pub AgreeBut : Text → Annotations → Annotations → Type 0
AgreeBut k a a' = (j : Text) → k ≢ j → value_at j a ≡ value_at j a'

targets_of_entries-congr :
    (k source_ns : Text) (m m' : Dict Text) (entries : AnnotationKindMap)
    → lookup k entries ≡ none
    → AgreeBut k (some m) (some m')
    → targets_of_entries m source_ns entries ≡ targets_of_entries m' source_ns entries
unfolding targets_of_entries lookup
targets_of_entries-congr k source_ns m m' [] _ agree = refl
targets_of_entries-congr k source_ns m m' ((j, kind) ∷ entries) missing agree =
    ground (arith, agree j, text_eq_iff j k, targets_of_entries-congr k source_ns m m' entries)

targets_of_entries-nil :
    (source_ns : Text) (entries : AnnotationKindMap)
    → targets_of_entries [] source_ns entries ≡ ok []
unfolding targets_of_entries lookup
targets_of_entries-nil source_ns [] = refl
targets_of_entries-nil source_ns ((j, kind) ∷ entries) = targets_of_entries-nil source_ns entries

-- A nil map is read like an empty one.
entries_of : Annotations → Dict Text
entries_of none = []
entries_of (some m) = m

extract_targets-entries_of :
    (b : BaseReconciler) (source_ns : Text) (a : Annotations)
    → extract_targets b source_ns a
      ≡ targets_of_entries (entries_of a) source_ns b.annotation_kind_map
unfolding extract_targets entries_of
extract_targets-entries_of b source_ns none =
    sym (targets_of_entries-nil source_ns b.annotation_kind_map)
extract_targets-entries_of b source_ns (some m) = refl

value_at-entries_of : (j : Text) (a : Annotations) → value_at j (some (entries_of a)) ≡ value_at j a
unfolding entries_of lookup
value_at-entries_of j none = refl
value_at-entries_of j (some m) = refl

-- A key that the annotation map lacks has no part in the extraction of the targets.
pub extract_targets-congr :
    (b : BaseReconciler) (k source_ns : Text) (a a' : Annotations)
    → lookup k b.annotation_kind_map ≡ none
    → AgreeBut k a a'
    → extract_targets b source_ns a ≡ extract_targets b source_ns a'
extract_targets-congr b k source_ns a a' missing agree =
    extract_targets-entries_of b source_ns a
    ∙ targets_of_entries-congr k source_ns (entries_of a) (entries_of a') b.annotation_kind_map
        missing
        (λ j differ. value_at-entries_of j a ∙ agree j differ ∙ sym (value_at-entries_of j a'))
    ∙ sym (extract_targets-entries_of b source_ns a')

pub put_annotation-AgreeBut : (k v : Text) (a : Annotations) → AgreeBut k (put_annotation k v a) a
put_annotation-AgreeBut k v a j differ =
    ground (arith, value_at-put_annotation k v j a, text_eq_iff k j)

pub delete_annotation-AgreeBut : (k : Text) (a : Annotations) → AgreeBut k (delete_annotation k a) a
delete_annotation-AgreeBut k a j differ =
    ground (arith, value_at-delete_annotation k j a, text_eq_iff k j)

module _ (b : BaseReconciler) where
  -- The targets that an object names, if there is one.
  abbrev pub links_of : Option View → Option (Result (List Target))
  links_of none = none
  links_of (some v) = some (extract_targets b v.namespace v.annotations)

  -- The dependency graph of a cluster.
  abbrev pub graph : Cluster → Target → Option (Result (List Target))
  graph cluster t = links_of (cluster t)

  pub dependencies_iff :
      (c : Client) (s : c.State) (t : Target) (ds : List Target)
      → (dependencies b c s t ≡ ok ds) ↔ (graph (look c s) t ≡ some (ok ds))
  unfolding dependencies dependencies_of fetch_meta
  dependencies_iff c s (deployment_target namespace name) ds = ground arith
  dependencies_iff c s (stateful_set_target namespace name) ds = ground arith
  dependencies_iff c s (daemon_set_target namespace name) ds = ground arith

-- The dependency graph is as it was.
abbrev pub SameGraph : (b : BaseReconciler) (c : Client) → World c.State → World c.State → Type 0
SameGraph b c w w' = (t : Target) → graph b (look c w'.state) t ≡ graph b (look c w.state) t
