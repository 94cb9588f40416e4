-- ===== src/Utils/Refs.antt =====
-- internal/utils/helper.go: the references that ParseTargetRef reads, and the identifiers of
-- GenerateID.
use cascader.Common.{
  ◌≡◌, refl, ap, ◌∙◌, ◌↔◌, ◌⊎◌, inl, inr, List, [], ◌∷◌, ◌++◌, Text, All, subst, ⊎_elim,
}
use cascader.Errors.{ok}
use cascader.Strings.{split, join}
use cascader.Strings.Split.{Lacks, split-Lacks, split_of_Lacks, split-append, join-split}
use cascader.Utils.{slash, ref_of_parts, parse_target_ref, generate_id}

-- The references that name `name` in `namespace`: a bare name, or both joined by a slash.
abbrev pub Names : Text → Text → Text → Text → Type 0
Names ref default_ns namespace name =
    (Lacks slash ref × (namespace ≡ default_ns) × (name ≡ ref))
    ⊎ (Lacks slash namespace × Lacks slash name × (ref ≡ namespace ++ (slash ∷ name)))

ref_of_parts-Names :
    (ref default_ns namespace name : Text) (parts : List Text)
    → All (Lacks slash) parts
    → join (slash ∷ []) parts ≡ ref
    → ref_of_parts ref default_ns parts ≡ ok (namespace, name)
    → Names ref default_ns namespace name
unfolding ref_of_parts join
ref_of_parts-Names ref default_ns namespace name [] _ j h = cc
ref_of_parts-Names ref default_ns namespace name (p ∷ []) (hp, _) j h =
    inl (subst (Lacks slash) j hp, cc, cc)
ref_of_parts-Names ref default_ns namespace name (p ∷ q ∷ []) (hp, (hq, _)) j h =
    inr (subst (Lacks slash) (cc) hp, subst (Lacks slash) (cc) hq, cc)
ref_of_parts-Names ref default_ns namespace name (p ∷ q ∷ r ∷ parts) _ j h = cc

-- The prefix before the first slash is determined.
pub Lacks-append_inj :
    (p q s t : Text)
    → Lacks slash p
    → Lacks slash q
    → p ++ (slash ∷ s) ≡ q ++ (slash ∷ t)
    → (p ≡ q) × (s ≡ t)
Lacks-append_inj [] [] s t _ _ e = (refl, cc)
Lacks-append_inj [] (d ∷ q) s t _ (hd, _) e = absurd (hd (cc))
Lacks-append_inj (c ∷ p) [] s t (hc, _) _ e = absurd (hc (cc))
Lacks-append_inj (c ∷ p) (d ∷ q) s t (_, hp) (_, hq) e =
    let (same, rest) = Lacks-append_inj p q s t hp hq (cc) in (cc, rest)

module _ (ref default_ns namespace name : Text) where
  bare-accepted :
      Lacks slash ref × (namespace ≡ default_ns) × (name ≡ ref)
      → parse_target_ref ref default_ns ≡ ok (namespace, name)
  unfolding parse_target_ref
  bare-accepted (h, same_ns, same_name) = rw (split_of_Lacks slash ref h, ref_of_parts) (cc)

  qualified-accepted :
      Lacks slash namespace × Lacks slash name × (ref ≡ namespace ++ (slash ∷ name))
      → parse_target_ref ref default_ns ≡ ok (namespace, name)
  unfolding parse_target_ref
  qualified-accepted (hns, hname, e) =
      let parts = ap (split slash) e ∙ split-append slash namespace name hns in
      rw (parts, split_of_Lacks slash name hname, ref_of_parts) refl

-- A reference is accepted exactly if it is a bare name, or a namespace and a name around the
-- only slash, and then these are what comes back.
pub parse_target_ref_iff :
    (ref default_ns namespace name : Text)
    → (parse_target_ref ref default_ns ≡ ok (namespace, name)) ↔ Names ref default_ns namespace name
unfolding parse_target_ref
parse_target_ref_iff ref default_ns namespace name = (
  ref_of_parts-Names ref default_ns namespace name (split slash ref) (split-Lacks slash ref)
      (join-split slash ref),
  ⊎_elim (bare-accepted ref default_ns namespace name)
      (qualified-accepted ref default_ns namespace name),
)

-- Two identifiers are equal only if kind, namespace and name are, where kind and namespace hold no
-- slash.
pub generate_id_inj :
    (kind kind' namespace namespace' name name' : Text)
    → Lacks slash kind
    → Lacks slash kind'
    → Lacks slash namespace
    → Lacks slash namespace'
    → generate_id kind namespace name ≡ generate_id kind' namespace' name'
    → (kind ≡ kind') × (namespace ≡ namespace') × (name ≡ name')
unfolding generate_id
generate_id_inj kind kind' namespace namespace' name name' hk hk' hn hn' e =
    let (same, rest) = Lacks-append_inj kind kind' _ _ hk hk' e in
    let (same_ns, same_name) = Lacks-append_inj namespace namespace' _ _ hn hn' rest in
    (same, same_ns, same_name)
