-- ===== src/Controller/Extract/Order.antt =====
-- internal/controller/base_reconciler.go: extractTargets under another order of the annotation map.
use mathlib.Core.List.{Permᴰ}
use mathlib.Core.List.Permᴰ
use mathlib.Core.List.Memᴰ
use cascader.Common.{◌∙◌, subst, inl, inr, Text, Option, none, some, List, ◌++◌, Memᴰ, append_assoc}
use cascader.Errors.{Result, ok, err}
use cascader.Strings.{split}
use cascader.Dict.{Dict, lookup}
use cascader.Kinds.{Kind, AnnotationKindMap}
use cascader.Objects.{Annotations}
use cascader.Targets.{Target}
use cascader.Controller.{BaseReconciler}
use cascader.Controller.Extract.{
  comma, join_targets, targets_of_refs, targets_of_entries, extract_targets,
}

-- Both fail, or both give the same targets up to their order.
abbrev pub Agree : Result (List Target) → Result (List Target) → Type 0
Agree (ok ts) (ok us) = Permᴰ ts us
Agree (err _) (err _) = Unit
Agree (ok _) (err _) = ⊥
Agree (err _) (ok _) = ⊥

Agree-refl : (r : Result (List Target)) → Agree r r
Agree-refl (ok ts) = Permᴰ.refl ts
Agree-refl (err e) = tt

Agree-trans : (p q r : Result (List Target)) → Agree p q → Agree q r → Agree p r
Agree-trans (ok ts) (ok us) (ok vs) h k = Permᴰ.trans h k
Agree-trans (err _) (err _) (err _) h k = tt
Agree-trans (ok _) (err _) r h k = absurd h
Agree-trans (err _) (ok _) r h k = absurd h
Agree-trans (ok _) (ok _) (err _) h k = absurd k
Agree-trans (err _) (err _) (ok _) h k = absurd k

pub Agree-symm : (p q : Result (List Target)) → Agree p q → Agree q p
Agree-symm (ok ts) (ok us) h = Permᴰ.symm h
Agree-symm (err _) (err _) h = tt
Agree-symm (ok _) (err _) h = absurd h
Agree-symm (err _) (ok _) h = absurd h

pub Permᴰ-Memᴰ {ℓ} : {A : Type ℓ} {xs ys : List A} {a : A} → Permᴰ xs ys → Memᴰ a xs → Memᴰ a ys
Permᴰ-Memᴰ Permᴰ.nil m = m
Permᴰ-Memᴰ (Permᴰ.cons e p) m = elim (Memᴰ.cases_cons m) [
  | inl same ↦ Memᴰ.head (same ∙ e)
  | inr later ↦ Memᴰ.tail (Permᴰ-Memᴰ p later)
]
Permᴰ-Memᴰ (Permᴰ.swap e f) m = elim (Memᴰ.cases_cons m) [
  | inl same ↦ Memᴰ.tail (Memᴰ.head (same ∙ e))
  | inr later ↦ elim (Memᴰ.cases_cons later) [
    | inl same ↦ Memᴰ.head (same ∙ f)
    | inr last ↦ Memᴰ.tail (Memᴰ.tail last)
  ]
]
Permᴰ-Memᴰ (Permᴰ.trans p q) m = Permᴰ-Memᴰ q (Permᴰ-Memᴰ p m)

module _ (annotations : Dict Text) (source_ns : Text) where
  -- The body of the outer loop at the value of one annotation, with the rest of the loop.
  abbrev at_value : Option Text → Kind → Result (List Target) → Result (List Target)
  at_value value kind rest = elim value [
    | none ↦ rest
    | some val ↦ join_targets (targets_of_refs kind source_ns (split comma val)) rest
  ]

  abbrev step : Text × Kind → Result (List Target) → Result (List Target)
  step (key, kind) rest = at_value (lookup key annotations) kind rest

  join-Agree :
      (here p q : Result (List Target))
      → Agree p q
      → Agree (join_targets here p) (join_targets here q)
  unfolding join_targets
  join-Agree (ok ts) (ok us) (ok vs) h = Permᴰ.append_left ts h
  join-Agree (ok ts) (err _) (err _) h = tt
  join-Agree (ok ts) (ok _) (err _) h = absurd h
  join-Agree (ok ts) (err _) (ok _) h = absurd h
  join-Agree (err e) p q h = tt

  join_swap :
      (x y rest : Result (List Target))
      → Agree (join_targets x (join_targets y rest)) (join_targets y (join_targets x rest))
  unfolding join_targets
  join_swap (ok xs) (ok ys) (ok ts) =
      subst (λ l. Permᴰ l (ys ++ (xs ++ ts))) (append_assoc xs ys ts)
        (subst (Permᴰ ((xs ++ ys) ++ ts)) (append_assoc ys xs ts)
          (Permᴰ.append_right ts (Permᴰ.append_comm xs ys)))
  join_swap (ok xs) (ok ys) (err _) = tt
  join_swap (ok xs) (err _) (ok ts) = tt
  join_swap (ok xs) (err _) (err _) = tt
  join_swap (err _) (ok ys) (ok ts) = tt
  join_swap (err _) (ok ys) (err _) = tt
  join_swap (err _) (err _) rest = tt

  at_value-Agree :
      (value : Option Text) (kind : Kind) (p q : Result (List Target))
      → Agree p q
      → Agree (at_value value kind p) (at_value value kind q)
  at_value-Agree none kind p q h = h
  at_value-Agree (some val) kind p q h =
      join-Agree (targets_of_refs kind source_ns (split comma val)) p q h

  at_value_swap :
      (v w : Option Text) (d e : Kind) (rest : Result (List Target))
      → Agree (at_value v d (at_value w e rest)) (at_value w e (at_value v d rest))
  at_value_swap none w d e rest = Agree-refl (at_value w e rest)
  at_value_swap (some v) none d e rest = Agree-refl (at_value (some v) d rest)
  at_value_swap (some v) (some w) d e rest =
      join_swap (targets_of_refs d source_ns (split comma v))
        (targets_of_refs e source_ns (split comma w)) rest

  targets_of_entries-Agree :
      {es fs : AnnotationKindMap}
      → Permᴰ es fs
      → Agree
          (targets_of_entries annotations source_ns es)
          (targets_of_entries annotations source_ns fs)
  unfolding targets_of_entries
  targets_of_entries-Agree Permᴰ.nil = Permᴰ.nil
  targets_of_entries-Agree (Permᴰ.cons {a} {b} {l₁} {l₂} e p) =
      subst
        (λ x.
          Agree (step a (targets_of_entries annotations source_ns l₁))
            (step x (targets_of_entries annotations source_ns l₂)))
        e (at_value-Agree (lookup a.0 annotations) a.1 _ _ (targets_of_entries-Agree p))
  targets_of_entries-Agree (Permᴰ.swap {a} {b} {a'} {b'} {l} e f) =
      subst
        (λ x.
          Agree (step a (step b (targets_of_entries annotations source_ns l)))
            (step a' (step x (targets_of_entries annotations source_ns l))))
        e
        (subst
          (λ x.
            Agree (step a (step b (targets_of_entries annotations source_ns l)))
              (step x (step a (targets_of_entries annotations source_ns l))))
          f
          (at_value_swap (lookup a.0 annotations) (lookup b.0 annotations) a.1 b.1
            (targets_of_entries annotations source_ns l)))
  targets_of_entries-Agree (Permᴰ.trans {l₁} {l₂} {l₃} p q) =
      Agree-trans (targets_of_entries annotations source_ns l₁) _
        (targets_of_entries annotations source_ns l₃) (targets_of_entries-Agree p)
        (targets_of_entries-Agree q)

-- Whatever the order in which the annotation map is iterated over, extractTargets fails for the
-- same objects, and otherwise returns the same targets, each as often, up to their order.
pub extract_targets-Agree :
    (b b' : BaseReconciler) (source_ns : Text) (annotations : Annotations)
    → Permᴰ b.annotation_kind_map b'.annotation_kind_map
    → Agree (extract_targets b source_ns annotations) (extract_targets b' source_ns annotations)
unfolding extract_targets
extract_targets-Agree b b' source_ns none p = Permᴰ.nil
extract_targets-Agree b b' source_ns (some annotations) p =
    targets_of_entries-Agree annotations source_ns p
