-- ===== src/Store/Frames.antt =====
-- internal/controller/base_reconciler.go: what ReconcileWorkload does to the other objects.
use cascader.Common.{
  ℕ, ℤ, ◌≡◌, ◌≢◌, refl, sym, ap, ◌∙◌, subst, true, ◌⊎◌, inl, inr, Text, text_eq, text_eq_iff,
  Option, none, some, Option-cases, Bool-cases, List, [], ◌∷◌, Memᴰ,
}
use cascader.Errors.{Error, ok}
use cascader.Flags.{last_observed_restart_annotation}
use cascader.Dict.{Dict, insert}
use cascader.Objects.{Annotations}
use cascader.Client.{Client, Resource}
use cascader.Utils.Patches.{put_annotation}
use cascader.Workloads.{Workload}
use cascader.Targets.{Target, trigger}
use cascader.Controller.{BaseReconciler}
use cascader.Controller.Extract.{extract_targets}
use cascader.Controller.Reconcile.{
  World, Reply, returned, mark_observed, clear_observed, reconcile_workload,
}
use cascader.Controller.Reconcile.Reloads.{state_after}
use cascader.Controller.Reconcile.Branches.{reconcile_workload-Endings}
use cascader.Store.{View, Cluster, look, target_eq, target_eq_iff, Serves, IsStore, Presents}
use cascader.Store.Triggers.{restarted, triggered, trigger-store, IsFresh}
use cascader.Store.Marks.{key_of, mark_observed-Leaves, clear_observed-Leaves}

insert-insert : (k v v' : Text) (m : Dict Text) → insert k v' (insert k v m) ≡ insert k v' m
unfolding insert
insert-insert k v v' [] = let same : text_eq k k ≡ true = (text_eq_iff k k).1 refl in rw same refl
insert-insert k v v' ((j, u) ∷ m) = elim (Bool-cases (text_eq j k)) [
  | inl same ↦ rw (same, insert, same) refl
  | inr other ↦ rw (other, insert, other) (ap (λ r. (j, u) ∷ r) (insert-insert k v v' m))
]

put-put_annotation :
    (k v v' : Text) (a : Annotations)
    → put_annotation k v' (put_annotation k v a) ≡ put_annotation k v' a
unfolding put_annotation
put-put_annotation k v v' none = ap some (insert-insert k v v' [])
put-put_annotation k v v' (some m) = ap some (insert-insert k v v' m)

restarted_twice :
    (now later : Text) (v : View) → restarted later (restarted now v) ≡ restarted later v
restarted_twice now later v =
    ap (λ a. record v { template = record (v.template) { annotations = a } })
      (put-put_annotation last_observed_restart_annotation now later v.template.annotations)

-- The object was stored, and its pod template has the annotation that restarts it, with some time;
-- nothing else of it is changed.
abbrev pub Restarted : Option View → Option View → Type 0
Restarted before after =
    (v : View) × (now : Text) × (before ≡ some v) × (after ≡ some (restarted now v))

pub Restarted-trans : (x y z : Option View) → Restarted x y → Restarted y z → Restarted x z
Restarted-trans x y z (v, now, e, f) (v', later, e', f') =
    let same : restarted now v ≡ v' = cc (sym f ∙ e') in
    (
      v,
      later,
      e,
      f' ∙ ap (λ u. some (restarted later u)) (sym same) ∙ ap some (restarted_twice now later v),
    )

pub triggered_cases :
    (failure : Option Error) (key : Target) (now : Text) (cluster : Cluster) (t : Target)
    → (triggered failure key now cluster t ≡ cluster t)
      ⊎ ((t ≡ key) × Restarted (cluster t) (triggered failure key now cluster t))
triggered_cases (some e) key now cluster t = inl refl
triggered_cases none key now cluster t = elim (Bool-cases (target_eq key t)) [
  | inr other ↦ rw other (inl refl)
  | inl same ↦ elim (Option-cases (cluster t)) [
    | inl e ↦ rw (same, e) (inl refl)
    | inr (v, e) ↦ rw (same, e) (inr (sym ((target_eq_iff key t).0 same), (v, now, refl, refl)))
  ]
]

-- What the reloads of the targets can do to an object.
abbrev pub Reached : List Target → Target → Option View → Option View → Type 0
Reached ts t before after = (after ≡ before) ⊎ (Memᴰ t ts × Restarted before after)

Reached-cons :
    (u t : Target) (ts : List Target) (x y z : Option View)
    → (y ≡ x) ⊎ ((t ≡ u) × Restarted x y)
    → Reached ts t y z
    → Reached (u ∷ ts) t x z
Reached-cons u t ts x y z (inl e) (inl f) = inl (f ∙ e)
Reached-cons u t ts x y z (inl e) (inr (m, r)) = inr (Memᴰ.tail m, subst (λ a. Restarted a z) e r)
Reached-cons u t ts x y z (inr (e, r)) (inl f) =
    inr (Memᴰ.head e, subst (λ a. Restarted x a) (sym f) r)
Reached-cons u t ts x y z (inr (e, r)) (inr (m, r')) = inr (Memᴰ.head e, Restarted-trans x y z r r')

pub state_after-Reached :
    (c : Client)
    → IsStore c
    → (s : c.State) (ts : List Target) (t : Target)
    → Reached ts t (look c s t) (look c (state_after c s ts) t)
unfolding state_after
state_after-Reached c laws s [] t = inl refl
state_after-Reached c laws s (u ∷ ts) t =
    let (s', failure) = trigger c u s in
    let head =
      subst (λ o. (o ≡ look c s t) ⊎ ((t ≡ u) × Restarted (look c s t) o))
        (sym (trigger-store c laws u s t)) (triggered_cases failure u (c.now s) (look c s) t) in
    Reached-cons u t ts (look c s t) (look c s' t) (look c (state_after c s' ts) t) head
      (state_after-Reached c laws s' ts t)

module _ (b : BaseReconciler) (c : Client) {O : Type 0} (resource : Resource c.State O)
    (view : O → View) (key : Text → Text → Target) (serves : Serves c resource view key)
    (w : Workload O) (presents : Presents view w) where
  -- The object is a target of the workload as it is after the marking, and it is restarted.
  abbrev pub RestartedTarget : World c.State → O → Target → Option View → Option View → Type 0
  RestartedTarget world object t before after =
      let (_, object', _) = mark_observed b c resource w world object in
      (ts : List Target) × (extract_targets b (w.get_meta object').namespace
          (w.annotated.get_annotations object')
        ≡ ok ts)
      × Memᴰ t ts
      × Restarted before after

  -- With a client that reads its own writes, ReconcileWorkload on the stored object writes to no
  -- other object but the targets, and to these at most the annotation that restarts them: whenever
  -- it returns, every other object is as it was, or it is one of the targets that the annotations
  -- of the workload name, and its pod template has the restart annotation with some time, while
  -- nothing else of it is changed.
  pub reconcile_workload-frame :
      IsStore c
      → (parse_duration : Text → Option ℤ) (fuel : ℕ) (world final : World c.State) (object : O)
        (reply : Reply)
      → IsFresh c resource view key serves world.state object
      → reconcile_workload parse_duration b c resource w fuel world object ≡ returned final reply
      → (t : Target) → t ≢ key_of c resource view key serves w presents object
      → (look c final.state t ≡ look c world.state t)
        ⊎ RestartedTarget world object t (look c world.state t) (look c final.state t)
  reconcile_workload-frame laws parse_duration fuel world final object reply fresh h t other =
      let (world', object', _) = mark_observed b c resource w world object in
      let (leaves, placed, still_fresh) =
        mark_observed-Leaves c resource view key serves w presents b world object fresh in
      let marked = leaves t other in
      elim (reconcile_workload-Endings parse_duration b c resource w fuel world object final reply
        h) [
          | inl ((same, _), _) ↦ inl (seen same ∙ marked)
          | inr (_, inl ((same, _), _)) ↦ inl (seen same ∙ marked)
          | inr (_, inr (_, _, _, _, inl (_, _, (same, _)))) ↦ inl (seen same ∙ marked)
          | inr (done, inr (ts, _, extracted, _, inr (_, (_, same)))) ↦
              let cleared = clear_observed b c resource w world' object' in
              let unmarked =
                clear_observed-Leaves c resource view key serves w presents b world' object'
                  (still_fresh done) t (λ e. other (e ∙ placed))
                ∙ marked in
              elim (state_after-Reached c laws cleared.0.state ts t) [
                | inl kept ↦ inl (seen same ∙ kept ∙ unmarked)
                | inr (m, r) ↦ inr (
                  ts,
                  extracted,
                  m,
                  subst (λ x. Restarted x (look c final.state t)) unmarked
                      (subst (λ x. Restarted (look c cleared.0.state t) x) (sym (seen same)) r),
                )
              ]
        ]
    where
      seen : {s s' : c.State} → s ≡ s' → look c s t ≡ look c s' t
      seen e = ap (λ s. look c s t) e
