-- ===== src/Tests/References.antt =====
-- References, identifiers and the configured annotations.
use cascader.Common.{◌≡◌, refl, ◌≢◌, ◌↔◌, Text, codes, some, [], ◌∷◌, Memᴰ, arith}
use cascader.Errors.{ok}
use cascader.Dict.{Dict, lookup}
use cascader.Strings.{split, trim_space}
use cascader.Strings.Split.{Lacks}
use cascader.Flags.{deployment_annotation}
use cascader.Kinds.{deployment_kind, stateful_set_kind}
use cascader.Utils.{slash, parse_target_ref, unique_annotations}
use cascader.Utils.Refs.{Names, parse_target_ref_iff}
use cascader.Utils.Unique.{AllDistinct, values, unique_annotations_iff}
use cascader.Targets.{
  Target, deployment_target, new_target, target_kind, target_namespace, target_name,
}
use cascader.Targets.Ids.{new_target_iff, target_id_inj}
use cascader.Controller.Extract.{extract_targets}
use cascader.Controller.Extract.Members.{Annotated, mem-extract_targets}
use cascader.Tests.{reconciler}

abbrev configured : Dict Text
configured =
    (codes "x/deployment", deployment_kind) ∷ (codes "x/statefulset", stateful_set_kind) ∷ []

unique_annotations_iff_example :
    (unique_annotations configured ≡ ok tt) ↔ ((configured ≢ []) × AllDistinct (values configured))
unique_annotations_iff_example = unique_annotations_iff configured

parse_target_ref_iff_example :
    (parse_target_ref (codes "prod/db") (codes "ns") ≡ ok (codes "prod", codes "db"))
    ↔ Names (codes "prod/db") (codes "ns") (codes "prod") (codes "db")
parse_target_ref_iff_example =
    parse_target_ref_iff (codes "prod/db") (codes "ns") (codes "prod") (codes "db")

ns-Lacks : Lacks slash (codes "ns")
ns-Lacks = omega arith

abbrev db : Target
db = deployment_target (codes "ns") (codes "db")

new_target_iff_example : (new_target deployment_kind (codes "db") (codes "ns") ≡ ok db) ↔ (
    (target_kind db ≡ deployment_kind)
    × Names (codes "db") (codes "ns") (target_namespace db) (target_name db))
new_target_iff_example = new_target_iff deployment_kind (codes "db") (codes "ns") db

bare : new_target deployment_kind (codes "db") (codes "ns") ≡ ok db
unfolding new_target parse_target_ref split
bare = refl

qualified : new_target deployment_kind (codes "ns/db") (codes "other") ≡ ok db
unfolding new_target parse_target_ref split
qualified = refl

other-Lacks : Lacks slash (codes "other")
other-Lacks = omega arith

target_id_inj_example : db ≡ db
target_id_inj_example =
    target_id_inj deployment_kind deployment_kind (codes "db") (codes "ns/db") (codes "ns")
      (codes "other") db db ns-Lacks other-Lacks bare qualified refl

abbrev annotations : Dict Text
annotations = (deployment_annotation, codes "db, , prod/web") ∷ []

extracted :
    extract_targets reconciler (codes "ns") (some annotations)
    ≡ ok (db ∷ deployment_target (codes "prod") (codes "web") ∷ [])
unfolding extract_targets lookup split trim_space new_target parse_target_ref
extracted = refl

mem-extract_targets_example :
    Memᴰ db (db ∷ deployment_target (codes "prod") (codes "web") ∷ [])
    ↔ Annotated annotations (codes "ns") reconciler.annotation_kind_map db
mem-extract_targets_example =
    mem-extract_targets reconciler (codes "ns") annotations
      (db ∷ deployment_target (codes "prod") (codes "web") ∷ []) db extracted
