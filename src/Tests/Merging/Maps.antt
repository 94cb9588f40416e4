-- ===== src/Tests/Merging/Maps.antt =====
-- Annotations, merged as a JSON merge patch does it.
use cascader.Common.{
  ◌≡◌, refl, sym, ◌∙◌, inl, inr, ◌≢◌, ◌↔◌, Text, text_eq, text_eq_iff, Bool, true, false,
  Bool-cases, Option, none, some, List, [], ◌∷◌, ◌++◌, contains, arith, if◌then◌else◌, ◌||◌,
}
use cascader.Dict.{Dict, lookup, keys}
use cascader.Objects.{Annotations}
use cascader.Utils.Patches.{put_annotation, delete_annotation}
use cascader.Utils.Patches.Laws.{value_at, value_at-put_annotation, value_at-delete_annotation}
use cascader.Store.Merges.{MergedAnnotations}

abbrev same_value : Option Text → Option Text → Bool
same_value none none = true
same_value none (some t) = false
same_value (some s) none = false
same_value (some s) (some t) = text_eq s t

same_value_iff : (x y : Option Text) → (same_value x y ≡ true) ↔ (x ≡ y)
same_value_iff none none = ground arith
same_value_iff none (some t) = ground arith
same_value_iff (some s) none = ground arith
same_value_iff (some s) (some t) = ground (arith, text_eq_iff s t)

-- One key, to a value or to none.
abbrev assign : Text → Option Text → Annotations → Annotations
assign k none a = delete_annotation k a
assign k (some v) a = put_annotation k v a

value_at-assign :
    (k j : Text) (x : Option Text) (a : Annotations)
    → value_at j (assign k x a) ≡ (if text_eq k j then x else value_at j a)
value_at-assign k j none a = value_at-delete_annotation k j a
value_at-assign k j (some v) a = value_at-put_annotation k v j a

abbrev key_list : Annotations → List Text
key_list none = []
key_list (some m) = keys m

-- The keys of the list at which the sent maps differ are set as in the new one.
unfoldable merge_keys : List Text → Annotations → Annotations → Annotations → Annotations
merge_keys [] old new stored = stored
merge_keys (k ∷ ks) old new stored =
    let rest = merge_keys ks old new stored in
    if same_value (value_at k new) (value_at k old) then rest else assign k (value_at k new) rest

unfoldable pub merge_annotations : Annotations → Annotations → Annotations → Annotations
unfolding merge_keys
merge_annotations old new stored = merge_keys (key_list old ++ key_list new) old new stored

merge_keys-same :
    (ks : List Text) (old new stored : Annotations) (j : Text)
    → value_at j new ≡ value_at j old
    → value_at j (merge_keys ks old new stored) ≡ value_at j stored
unfolding merge_keys
merge_keys-same [] old new stored j h = refl
merge_keys-same (k ∷ ks) old new stored j h = ground (
  arith,
  text_eq_iff k j,
  same_value_iff (value_at k new) (value_at k old),
  value_at-assign k j (value_at k new) (merge_keys ks old new stored),
  merge_keys-same ks old new stored j h,
)

merge_keys-other :
    (ks : List Text) (old new stored : Annotations) (j : Text)
    → value_at j new ≢ value_at j old
    → contains ks j ≡ true
    → value_at j (merge_keys ks old new stored) ≡ value_at j new
unfolding merge_keys contains
merge_keys-other [] old new stored j h listed = absurd (cc)
merge_keys-other (k ∷ ks) old new stored j h listed = ground (
  arith,
  text_eq_iff k j,
  same_value_iff (value_at k new) (value_at k old),
  value_at-assign k j (value_at k new) (merge_keys ks old new stored),
  merge_keys-other ks old new stored j h,
)

lookup_missing : (j : Text) (m : Dict Text) → contains (keys m) j ≡ false → lookup j m ≡ none
unfolding lookup contains
lookup_missing j [] h = refl
lookup_missing j ((k, v) ∷ m) h = ground (arith, lookup_missing j m)

value_at_missing :
    (j : Text) (a : Annotations) → contains (key_list a) j ≡ false → value_at j a ≡ none
value_at_missing j none h = refl
value_at_missing j (some m) h = lookup_missing j m h

contains-append :
    (ks ls : List Text) (j : Text) → contains (ks ++ ls) j ≡ (contains ks j || contains ls j)
unfolding contains
contains-append [] ls j = refl
contains-append (k ∷ ks) ls j = ground (arith, contains-append ks ls j)

pub merge_annotations-Merged :
    (old new stored : Annotations)
    → MergedAnnotations old new stored (merge_annotations old new stored)
unfolding merge_annotations
merge_annotations-Merged old new stored = record {
  kept = λ j h. merge_keys-same (key_list old ++ key_list new) old new stored j h;
  sent = λ j h. elim (Bool-cases (contains (key_list old ++ key_list new) j)) [
    | inl listed ↦ merge_keys-other (key_list old ++ key_list new) old new stored j h listed
    | inr missing ↦
        let none_of : (contains (key_list old) j ≡ false) × (contains (key_list new) j ≡ false) =
          ground (arith, contains-append (key_list old) (key_list new) j) in
        absurd (h (value_at_missing j new none_of.1 ∙ sym (value_at_missing j old none_of.0)))
  ];
}
