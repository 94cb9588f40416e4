-- ===== src/Controller/Extract/Members.antt =====
-- internal/controller/base_reconciler.go: the targets that extractTargets returns.
use mathlib.Core.List.Memᴰ
use cascader.Common.{
  ◌≡◌, refl, sym, ap, ◌∙◌, subst, ◌≢◌, ◌↔◌, ◌⊎◌, inl, inr, ⊎_elim, Text, true, false, none, some,
  Option-cases, List, [], ◌∷◌, ◌++◌, Memᴰ, arith,
}
use cascader.Errors.{ok, Result-cases}
use cascader.Strings.{split, trim_space}
use cascader.Dict.{Dict, lookup}
use cascader.Kinds.{Kind, AnnotationKindMap}
use cascader.Targets.{Target, new_target}
use cascader.Controller.{BaseReconciler}
use cascader.Controller.Extract.{
  comma, is_empty, targets_of_refs, targets_of_entries, extract_targets,
}

is_empty_cases : (t : Text) → ((is_empty t ≡ true) × (t ≡ [])) ⊎ ((is_empty t ≡ false) × (t ≢ []))
unfolding is_empty
is_empty_cases [] = inl (refl, refl)
is_empty_cases (c ∷ t) = inr (refl, λ h. cc)

-- The reference is not blank, and names `t`.
abbrev pub RefersTo : Kind → Text → Text → Target → Type 0
RefersTo kind source_ns ref t =
    (trim_space ref ≢ []) × (new_target kind (trim_space ref) source_ns ≡ ok t)

module _ (kind : Kind) (source_ns : Text) where
  -- The reference is blank, or it names a target ahead of the rest.
  pub targets_of_refs-cons :
      (ref : Text) (refs : List Text) (ts : List Target)
      → targets_of_refs kind source_ns (ref ∷ refs) ≡ ok ts
      → ((trim_space ref ≡ []) × (targets_of_refs kind source_ns refs ≡ ok ts))
        ⊎ ((t : Target) × (us : List Target) × RefersTo kind source_ns ref t
            × (targets_of_refs kind source_ns refs ≡ ok us)
            × (ts ≡ t ∷ us))
  unfolding targets_of_refs
  targets_of_refs-cons ref refs ts h = elim (is_empty_cases (trim_space ref)) [
    | inl (e, blank) ↦ inl (blank, ground arith)
    | inr (e, full) ↦ elim (Result-cases (new_target kind (trim_space ref) source_ns)) [
      | inr (x, e') ↦ absurd (ground arith)
      | inl (t, e') ↦ elim (Result-cases (targets_of_refs kind source_ns refs)) [
        | inr (x, e'') ↦ absurd (ground arith)
        | inl (us, e'') ↦ inr (t, us, (full, e'), e'', ground arith)
      ]
    ]
  ]

  abbrev pub Referred : List Text → Target → Type 0
  Referred refs t = (ref : Text) × Memᴰ ref refs × RefersTo kind source_ns ref t

  Referred-later :
      (ref : Text) (refs : List Text) (t : Target) → Referred refs t → Referred (ref ∷ refs) t
  Referred-later ref refs t (r, m, h) = (r, Memᴰ.tail m, h)

  pub mem-targets_of_refs :
      (refs : List Text) (ts : List Target) (t : Target)
      → targets_of_refs kind source_ns refs ≡ ok ts
      → Memᴰ t ts ↔ Referred refs t
  unfolding targets_of_refs
  mem-targets_of_refs [] ts t h =
      (λ m. absurd (Memᴰ.not-nil (subst (Memᴰ t) (cc) m)), λ r. absurd (Memᴰ.not-nil r.1))
  mem-targets_of_refs (ref ∷ refs) ts t h = elim (targets_of_refs-cons ref refs ts h) [
    | inl (blank, rest) ↦
        let (sound, full) = mem-targets_of_refs refs ts t rest in
        (
          λ m. Referred-later ref refs t (sound m),
          λ (r, m, (ne, e)).
              ⊎_elim (λ same. absurd (ne (ap trim_space same ∙ blank))) (λ k. full (r, k, (ne, e)))
                (Memᴰ.cases_cons m),
        )
    | inr (u, us, names, rest, whole) ↦
        let (sound, full) = mem-targets_of_refs refs us t rest in
        (
          λ m.
              ⊎_elim (λ same. (ref, Memᴰ.head refl, (names.0, names.1 ∙ ap ok (sym same))))
                (λ k. Referred-later ref refs t (sound k))
                (Memᴰ.cases_cons (subst (Memᴰ t) whole m)),
          λ (r, m, (ne, e)). subst (Memᴰ t) (sym whole) (
              ⊎_elim (λ same. Memᴰ.head (cc (e, names.1, ap trim_space same)))
                (λ k. Memᴰ.tail (full (r, k, (ne, e)))) (Memᴰ.cases_cons m)),
        )
  ]

module _ (annotations : Dict Text) (source_ns : Text) where
  -- The annotation is missing, or it names the targets in front of the rest.
  pub targets_of_entries-cons :
      (key : Text) (kind : Kind) (entries : AnnotationKindMap) (ts : List Target)
      → targets_of_entries annotations source_ns ((key, kind) ∷ entries) ≡ ok ts
      → ((lookup key annotations ≡ none)
          × (targets_of_entries annotations source_ns entries ≡ ok ts))
        ⊎ ((val : Text) × (us vs : List Target) × (lookup key annotations ≡ some val)
            × (targets_of_refs kind source_ns (split comma val) ≡ ok us)
            × (targets_of_entries annotations source_ns entries ≡ ok vs)
            × (ts ≡ us ++ vs))
  unfolding targets_of_entries
  targets_of_entries-cons key kind entries ts h = elim (Option-cases (lookup key annotations)) [
    | inl e ↦ inl (e, ground arith)
    | inr (val, e) ↦ elim (Result-cases (targets_of_refs kind source_ns (split comma val))) [
      | inr (x, e') ↦ absurd (ground arith)
      | inl (us, e') ↦ elim (Result-cases (targets_of_entries annotations source_ns entries)) [
        | inr (x, e'') ↦ absurd (ground arith)
        | inl (vs, e'') ↦ inr (val, us, vs, e, e', e'', ground arith)
      ]
    ]
  ]

  -- Some entry of the map has its annotation on the object, with a reference to `t` in the value.
  abbrev pub Annotated : AnnotationKindMap → Target → Type 0
  Annotated entries t =
      (key : Text) × (kind : Kind) × (val : Text) × Memᴰ (key, kind) entries
      × (lookup key annotations ≡ some val)
      × Referred kind source_ns (split comma val) t

  Annotated-later :
      (entry : Text × Kind) (entries : AnnotationKindMap) (t : Target)
      → Annotated entries t
      → Annotated (entry ∷ entries) t
  Annotated-later entry entries t (key, kind, val, m, e, r) = (key, kind, val, Memᴰ.tail m, e, r)

  -- A map holds one value at a key.
  same_entry :
      (k : Text) (d : Kind) (v val : Text) {key : Text} {kind : Kind} {t : Target}
      → ◌≡◌ {A = Text × Kind} (k, d) (key, kind)
      → lookup key annotations ≡ some val
      → lookup k annotations ≡ some v
      → Referred d source_ns (split comma v) t
      → Referred kind source_ns (split comma val) t
  same_entry k d v val {key} {kind} {t} same e e' r =
      let same_key : lookup k annotations ≡ lookup key annotations =
        ap (λ (p : Text × Kind). lookup p.0 annotations) same in
      let same_val : v ≡ val = cc in
      subst (λ kind'. Referred kind' source_ns (split comma val) t)
        (ap (λ (p : Text × Kind). p.1) same)
        (subst (λ v'. Referred d source_ns (split comma v') t) same_val r)

  mem-targets_of_entries :
      (entries : AnnotationKindMap) (ts : List Target) (t : Target)
      → targets_of_entries annotations source_ns entries ≡ ok ts
      → Memᴰ t ts ↔ Annotated entries t
  unfolding targets_of_entries
  mem-targets_of_entries [] ts t h =
      (λ m. absurd (Memᴰ.not-nil (subst (Memᴰ t) (cc) m)), λ r. absurd (Memᴰ.not-nil r.3))
  mem-targets_of_entries ((key, kind) ∷ entries) ts t h =
      elim (targets_of_entries-cons key kind entries ts h) [
        | inl (missing, rest) ↦
            let (sound, full) = mem-targets_of_entries entries ts t rest in
            (
              λ m. Annotated-later (key, kind) entries t (sound m),
              λ (k, d, val, m, e, r).
                  ⊎_elim (λ same. absurd (missing_entry k d val same missing e))
                    (λ m'. full (k, d, val, m', e, r)) (Memᴰ.cases_cons m),
            )
        | inr (val, us, vs, e, here, rest, whole) ↦
            let (sound, full) = mem-targets_of_entries entries vs t rest in
            let (sound', full') = mem-targets_of_refs kind source_ns (split comma val) us t here in
            (
              λ m.
                  ⊎_elim (λ m'. (key, kind, val, Memᴰ.head refl, e, sound' m'))
                    (λ m'. Annotated-later (key, kind) entries t (sound m'))
                    (Memᴰ.append_cases us (subst (Memᴰ t) whole m)),
              λ (k, d, v, m, e', r). subst (Memᴰ t) (sym whole) (
                  ⊎_elim (λ same. Memᴰ.append_left vs (full' (same_entry k d v val same e e' r)))
                    (λ m'. Memᴰ.append_right us (full (k, d, v, m', e', r))) (Memᴰ.cases_cons m)),
            )
      ]
    where
      missing_entry :
          (k : Text) (d : Kind) (val : Text)
          → ◌≡◌ {A = Text × Kind} (k, d) (key, kind)
          → lookup key annotations ≡ none
          → lookup k annotations ≡ some val
          → ⊥
      missing_entry k d val same missing e =
          cc (ap (λ (p : Text × Kind). lookup p.0 annotations) same)

-- If extractTargets succeeds on an object with annotations, the targets that it returns are exactly
-- those that a reference that is not blank names, among the parts between the commas of the value
-- of an annotation whose key the map has, at the kind that the map gives the key.
pub mem-extract_targets :
    (b : BaseReconciler) (source_ns : Text) (annotations : Dict Text) (ts : List Target)
    (t : Target)
    → extract_targets b source_ns (some annotations) ≡ ok ts
    → Memᴰ t ts ↔ Annotated annotations source_ns b.annotation_kind_map t
unfolding extract_targets
mem-extract_targets b source_ns annotations ts t h =
    mem-targets_of_entries annotations source_ns b.annotation_kind_map ts t h
