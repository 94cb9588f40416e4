-- ===== src/Tests/Orders.antt =====
-- Orders of the annotation map, and the fuel.
use mathlib.Core.List.{Permᴰ}
use cascader.Common.{◌≡◌, refl, ◌↔◌, Text, codes, List, [], ◌∷◌, some, arith}
use cascader.Kinds.{Kind, deployment_kind, stateful_set_kind}
use cascader.Objects.{Annotations}
use cascader.Flags.{deployment_annotation, stateful_set_annotation}
use cascader.Targets.{Target, deployment_target}
use cascader.Controller.{BaseReconciler}
use cascader.Controller.Extract.{extract_targets}
use cascader.Controller.Extract.Order.{Agree, extract_targets-Agree}
use cascader.Controller.Cycles.{no_cycle, check_cycle}
use cascader.Controller.Cycles.Order.{check_cycle-Reordered}
use cascader.Tests.{client, reconciler, chain, ids_of, cluster_Covers}

abbrev with_map : List (Text × Kind) → BaseReconciler
with_map entries = record reconciler { annotation_kind_map = entries }

abbrev forth : BaseReconciler
forth =
    with_map
      ((deployment_annotation, deployment_kind) ∷ (stateful_set_annotation, stateful_set_kind) ∷ [])

abbrev back : BaseReconciler
back =
    with_map
      ((stateful_set_annotation, stateful_set_kind) ∷ (deployment_annotation, deployment_kind) ∷ [])

forth_back : Permᴰ forth.annotation_kind_map back.annotation_kind_map
forth_back = Permᴰ.swap refl refl

abbrev annotated : Annotations
annotated = some ((deployment_annotation, codes "b") ∷ (stateful_set_annotation, codes "db") ∷ [])

extract_targets-Agree_example :
    Agree
      (extract_targets forth (codes "ns") annotated)
      (extract_targets back (codes "ns") annotated)
extract_targets-Agree_example = extract_targets-Agree forth back (codes "ns") annotated forth_back

abbrev source : Text
source = codes "Deployment/ns/a"

abbrev b_c : List Target
b_c = deployment_target (codes "ns") (codes "b") ∷ deployment_target (codes "ns") (codes "c") ∷ []

abbrev c_b : List Target
c_b = deployment_target (codes "ns") (codes "c") ∷ deployment_target (codes "ns") (codes "b") ∷ []

check_cycle-Reordered_example :
    (check_cycle forth client chain 4 source b_c ≡ no_cycle)
    ↔ (check_cycle back client chain 4 source c_b ≡ no_cycle)
check_cycle-Reordered_example =
    check_cycle-Reordered client chain forth back source (ids_of chain) 4 b_c c_b forth_back
      (Permᴰ.swap refl refl) (cluster_Covers forth chain) (omega arith)
