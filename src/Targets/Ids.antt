-- ===== src/Targets/Ids.antt =====
-- The identifiers of the targets that NewTarget makes name one object each.
use cascader.Common.{
  ◌≡◌, refl, sym, ap, ◌∙◌, subst, ◌↔◌, inl, inr, Text, Bool-cases, text_eq, text_eq_iff, arith,
}
use cascader.Errors.{Result, ok, Result-cases}
use cascader.Kinds.{Kind, deployment_kind, stateful_set_kind, daemon_set_kind}
use cascader.Strings.Split.{Lacks}
use cascader.Utils.{slash, parse_target_ref}
use cascader.Utils.Refs.{Names, parse_target_ref_iff, generate_id_inj}
use cascader.Targets.{
  Target, deployment_target, stateful_set_target, daemon_set_target, target_kind, target_namespace,
  target_name, target_id, target_of_kind, new_target,
}

-- Of the three kinds, none holds a slash and no two are equal.
target_kind-Lacks : (t : Target) → Lacks slash (target_kind t)
unfolding target_kind
target_kind-Lacks (deployment_target _ _) = omega arith
target_kind-Lacks (stateful_set_target _ _) = omega arith
target_kind-Lacks (daemon_set_target _ _) = omega arith

Target_path :
    (t u : Target)
    → target_kind t ≡ target_kind u
    → target_namespace t ≡ target_namespace u
    → target_name t ≡ target_name u
    → t ≡ u
unfolding target_kind target_namespace target_name
Target_path (deployment_target _ _) (deployment_target _ _) k ns n = cc
Target_path (stateful_set_target _ _) (stateful_set_target _ _) k ns n = cc
Target_path (daemon_set_target _ _) (daemon_set_target _ _) k ns n = cc
Target_path (deployment_target _ _) (stateful_set_target _ _) k ns n = cc
Target_path (deployment_target _ _) (daemon_set_target _ _) k ns n = cc
Target_path (stateful_set_target _ _) (deployment_target _ _) k ns n = cc
Target_path (stateful_set_target _ _) (daemon_set_target _ _) k ns n = cc
Target_path (daemon_set_target _ _) (deployment_target _ _) k ns n = cc
Target_path (daemon_set_target _ _) (stateful_set_target _ _) k ns n = cc

-- The parts of a target from those of an equal one.
same_target :
    (t u : Target) {kind : Kind} {namespace name : Text}
    → target_kind u ≡ kind
    → target_namespace u ≡ namespace
    → target_name u ≡ name
    → ◌≡◌ {A = Result Target} (ok u) (ok t)
    → (target_kind t ≡ kind) × (target_namespace t ≡ namespace) × (target_name t ≡ name)
same_target t u k ns n h =
    let e : t ≡ u = cc in (ap target_kind e ∙ k, ap target_namespace e ∙ ns, ap target_name e ∙ n)

pair_path : {a a' b b' : Text} → a ≡ a' → b ≡ b' → ◌≡◌ {A = Text × Text} (a, b) (a', b')
pair_path p q = λ i. (p i, q i)

target_of_kind_sound :
    (kind : Kind) (namespace name : Text) (t : Target)
    → target_of_kind kind namespace name ≡ ok t
    → (target_kind t ≡ kind) × (target_namespace t ≡ namespace) × (target_name t ≡ name)
unfolding target_of_kind target_kind target_namespace target_name
target_of_kind_sound kind namespace name t h = elim (Bool-cases (text_eq kind deployment_kind)) [
  | inl e ↦
      same_target t (deployment_target namespace name)
        (sym ((text_eq_iff kind deployment_kind).0 e)) refl refl (ground arith)
  | inr e ↦ elim (Bool-cases (text_eq kind stateful_set_kind)) [
    | inl e' ↦
        same_target t (stateful_set_target namespace name)
          (sym ((text_eq_iff kind stateful_set_kind).0 e')) refl refl (ground arith)
    | inr e' ↦ elim (Bool-cases (text_eq kind daemon_set_kind)) [
      | inl e'' ↦
          same_target t (daemon_set_target namespace name)
            (sym ((text_eq_iff kind daemon_set_kind).0 e'')) refl refl (ground arith)
      | inr e'' ↦ absurd (ground arith)
    ]
  ]
]

target_of_kind_complete :
    (t : Target) → target_of_kind (target_kind t) (target_namespace t) (target_name t) ≡ ok t
unfolding target_of_kind target_kind target_namespace target_name
target_of_kind_complete (deployment_target _ _) = refl
target_of_kind_complete (stateful_set_target _ _) = refl
target_of_kind_complete (daemon_set_target _ _) = refl

new_target_sound :
    (kind : Kind) (ref source_ns : Text) (t : Target)
    → new_target kind ref source_ns ≡ ok t
    → (target_kind t ≡ kind) × Names ref source_ns (target_namespace t) (target_name t)
unfolding new_target
new_target_sound kind ref source_ns t h = elim (Result-cases (parse_target_ref ref source_ns)) [
  | inr (e, h') ↦ absurd (ground arith)
  | inl ((namespace, name), h') ↦
      let (same_kind, same_ns, same_name) =
        target_of_kind_sound kind namespace name t (rw (h', new_target) at h) in
      (
        same_kind,
        (parse_target_ref_iff ref source_ns _ _).0
            (h' ∙ ap ok (pair_path (sym same_ns) (sym same_name))),
      )
]

new_target_complete :
    (kind : Kind) (ref source_ns : Text) (t : Target)
    → (target_kind t ≡ kind) × Names ref source_ns (target_namespace t) (target_name t)
    → new_target kind ref source_ns ≡ ok t
unfolding new_target
new_target_complete kind ref source_ns t (same_kind, names) =
    rw ((parse_target_ref_iff ref source_ns _ _).1 names, new_target)
      (subst (λ k. target_of_kind k (target_namespace t) (target_name t) ≡ ok t) same_kind
        (target_of_kind_complete t))

-- NewTarget returns a target exactly for a reference that names a namespace and a name, from the
-- source's namespace, and one of the three kinds; the target has that kind, namespace and name.
pub new_target_iff :
    (kind : Kind) (ref source_ns : Text) (t : Target)
    → (new_target kind ref source_ns ≡ ok t)
      ↔ ((target_kind t ≡ kind) × Names ref source_ns (target_namespace t) (target_name t))
new_target_iff kind ref source_ns t =
    (new_target_sound kind ref source_ns t, new_target_complete kind ref source_ns t)

-- A target as NewTarget makes it for a source whose namespace holds no slash.
Names-Lacks :
    (ref source_ns namespace name : Text)
    → Lacks slash source_ns
    → Names ref source_ns namespace name
    → Lacks slash namespace
Names-Lacks ref source_ns namespace name h (inl (_, e, _)) = subst (Lacks slash) (sym e) h
Names-Lacks ref source_ns namespace name h (inr (h', _, _)) = h'

-- Targets made from references, of sources whose namespaces hold no slash, have equal identifiers
-- only if they are the same target.
pub target_id_inj :
    (kind kind' : Kind) (ref ref' source_ns source_ns' : Text) (t u : Target)
    → Lacks slash source_ns
    → Lacks slash source_ns'
    → new_target kind ref source_ns ≡ ok t
    → new_target kind' ref' source_ns' ≡ ok u
    → target_id t ≡ target_id u
    → t ≡ u
unfolding target_id
target_id_inj kind kind' ref ref' source_ns source_ns' t u h h' made made' e =
    let (_, names) = new_target_sound kind ref source_ns t made in
    let (_, names') = new_target_sound kind' ref' source_ns' u made' in
    let (same_kind, same_ns, same_name) =
      generate_id_inj _ _ _ _ _ _ (target_kind-Lacks t) (target_kind-Lacks u)
        (Names-Lacks ref source_ns _ _ h names) (Names-Lacks ref' source_ns' _ _ h' names') e in
    Target_path t u same_kind same_ns same_name
