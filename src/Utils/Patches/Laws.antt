-- ===== src/Utils/Patches/Laws.antt =====
-- What the changes of an annotation do to the others.
use cascader.Common.{◌≡◌, Text, Option, none, some, [], arith, text_eq, text_eq_iff, if◌then◌else◌}
use cascader.Dict.{lookup}
use cascader.Dict.Laws.{lookup-insert, lookup-erase}
use cascader.Objects.{Annotations}
use cascader.Utils.Patches.{put_annotation, delete_annotation}

-- The value of an annotation; a nil map has none.
abbrev pub value_at : Text → Annotations → Option Text
value_at key none = none
value_at key (some m) = lookup key m

pub value_at-put_annotation :
    (k v j : Text) (a : Annotations)
    → value_at j (put_annotation k v a) ≡ (if text_eq k j then some v else value_at j a)
unfolding put_annotation lookup
value_at-put_annotation k v j none = lookup-insert k j v []
value_at-put_annotation k v j (some m) = lookup-insert k j v m

pub value_at-delete_annotation :
    (k j : Text) (a : Annotations)
    → value_at j (delete_annotation k a) ≡ (if text_eq k j then none else value_at j a)
unfolding delete_annotation
value_at-delete_annotation k j none = ground arith
value_at-delete_annotation k j (some m) = lookup-erase k j m

-- Setting an annotation that an object does not have, and removing it again, leaves every
-- annotation at the value that it had.
pub delete-put_annotation :
    (k v : Text) (a : Annotations)
    → value_at k a ≡ none
    → (j : Text) → value_at j (delete_annotation k (put_annotation k v a)) ≡ value_at j a
delete-put_annotation k v a new j = ground (
  arith,
  value_at-delete_annotation k j (put_annotation k v a),
  value_at-put_annotation k v j a,
  text_eq_iff k j,
)
