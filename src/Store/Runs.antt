-- ===== src/Store/Runs.antt =====
-- internal/controller/base_reconciler.go: what ReconcileWorkload may change of the cluster, with a
-- client that reads its own writes.
use cascader.Common.{
  ℕ, ℤ, ◌≡◌, refl, sym, ap, ◌∙◌, subst, inl, inr, Text, Option, none, some, Bool-cases, List, [],
  ◌∷◌,
}
use cascader.Errors.{Error}
use cascader.Flags.{last_observed_restart_annotation}
use cascader.Objects.{Annotations}
use cascader.Client.{Client, Resource}
use cascader.Utils.Patches.{send_patch, patch_workload_annotation, delete_workload_annotation}
use cascader.Workloads.{Workload}
use cascader.Targets.{Target, trigger}
use cascader.Controller.{BaseReconciler, has_annotation}
use cascader.Controller.Reconcile.{
  World, Reply, returned, mark_observed, clear_observed, reconcile_workload,
}
use cascader.Controller.Reconcile.Reloads.{state_after}
use cascader.Controller.Reconcile.Branches.{reconcile_workload-Endings}
use cascader.Store.{View, Cluster, look, target_eq, target_eq_iff, Serves, IsStore, Presents}
use cascader.Store.Triggers.{written, triggered, trigger-store, IsFresh}
use cascader.Store.Graph.{AgreeBut, put_annotation-AgreeBut, delete_annotation-AgreeBut}
use cascader.Store.Marks.{annotations_sent}
use cascader.Store.Frames.{Restarted, triggered_cases}

-- Nothing of the object is changed but the annotation with the given key, and in its pod template
-- the annotation that restarts it; and no object is added or removed.
abbrev pub OnlyMarks : Text → Option View → Option View → Type 0
OnlyMarks k none none = Unit
OnlyMarks k none (some v') = ⊥
OnlyMarks k (some v) none = ⊥
OnlyMarks k (some v) (some v') =
    (v'.namespace ≡ v.namespace)
    × (v'.name ≡ v.name)
    × (v'.replicas ≡ v.replicas)
    × AgreeBut k v'.annotations v.annotations
    × (v'.template.rest ≡ v.template.rest)
    × AgreeBut last_observed_restart_annotation v'.template.annotations v.template.annotations

module _ (k : Text) where
  pub OnlyMarks-refl : (x : Option View) → OnlyMarks k x x
  OnlyMarks-refl none = tt
  OnlyMarks-refl (some v) = (refl, refl, refl, λ j _. refl, refl, λ j _. refl)

  pub OnlyMarks-trans : (x y z : Option View) → OnlyMarks k x y → OnlyMarks k y z → OnlyMarks k x z
  OnlyMarks-trans none none z _ h = h
  OnlyMarks-trans none (some v') z h _ = absurd h
  OnlyMarks-trans (some v) none z h _ = absurd h
  OnlyMarks-trans (some v) (some v') none _ h = absurd h
  OnlyMarks-trans (some v) (some v') (some v'') (a, b, c, d, e, f) (a', b', c', d', e', f') =
      (a' ∙ a, b' ∙ b, c' ∙ c, λ j h. d' j h ∙ d j h, e' ∙ e, λ j h. f' j h ∙ f j h)

  Restarted-OnlyMarks : (x y : Option View) → Restarted x y → OnlyMarks k x y
  Restarted-OnlyMarks x y (v, now, e, f) =
      subst (λ o. OnlyMarks k o y) (sym e)
        (subst (OnlyMarks k (some v)) (sym f) (
          refl,
          refl,
          refl,
          λ j _. refl,
          refl,
          put_annotation-AgreeBut last_observed_restart_annotation now v.template.annotations,
        ))

  triggered-OnlyMarks :
      (failure : Option Error) (key : Target) (now : Text) (cluster : Cluster) (t : Target)
      → OnlyMarks k (cluster t) (triggered failure key now cluster t)
  triggered-OnlyMarks failure key now cluster t = elim (triggered_cases failure key now cluster t) [
    | inl kept ↦ subst (OnlyMarks k (cluster t)) (sym kept) (OnlyMarks-refl (cluster t))
    | inr (_, r) ↦ Restarted-OnlyMarks (cluster t) (triggered failure key now cluster t) r
  ]

  written-OnlyMarks :
      (failure : Option Error) (key : Target) (v v' : View) (cluster : Cluster)
      → cluster key ≡ some v
      → OnlyMarks k (some v) (some v')
      → (t : Target) → OnlyMarks k (cluster t) (written failure key v' cluster t)
  written-OnlyMarks (some e) key v v' cluster h only t = OnlyMarks-refl (cluster t)
  written-OnlyMarks none key v v' cluster h only t = elim (Bool-cases (target_eq key t)) [
    | inr other ↦ rw other (OnlyMarks-refl (cluster t))
    | inl same ↦ rw same (
        subst (λ o. OnlyMarks k o (some v')) (sym h ∙ ap cluster ((target_eq_iff key t).0 same))
          only)
  ]

  -- From one cluster to another.
  abbrev pub Keeps : (c : Client) → c.State → c.State → Type 0
  Keeps c s s' = (t : Target) → OnlyMarks k (look c s t) (look c s' t)

  Keeps-trans : (c : Client) (s s' s'' : c.State) → Keeps c s s' → Keeps c s' s'' → Keeps c s s''
  Keeps-trans c s s' s'' h h' t =
      OnlyMarks-trans (look c s t) (look c s' t) (look c s'' t) (h t) (h' t)

  pub Keeps-same : (c : Client) (s s' : c.State) → s' ≡ s → Keeps c s s'
  Keeps-same c s s' e t =
      subst (λ x. OnlyMarks k (look c s t) (look c x t)) (sym e) (OnlyMarks-refl (look c s t))

  state_after-Keeps :
      (c : Client) → IsStore c → (s : c.State) (ts : List Target) → Keeps c s (state_after c s ts)
  unfolding state_after
  state_after-Keeps c laws s [] t = OnlyMarks-refl (look c s t)
  state_after-Keeps c laws s (u ∷ ts) t =
      let (s', failure) = trigger c u s in
      Keeps-trans c s s' (state_after c s' ts)
        (λ t.
          subst (OnlyMarks k (look c s t)) (sym (trigger-store c laws u s t))
            (triggered-OnlyMarks failure u (c.now s) (look c s) t))
        (state_after-Keeps c laws s' ts) t

module _ (b : BaseReconciler) (c : Client) {O : Type 0} (resource : Resource c.State O)
    (view : O → View) (key : Text → Text → Target) (serves : Serves c resource view key)
    (w : Workload O) (presents : Presents view w) where
  abbrev mark : Text
  mark = b.last_observed_restart_annotation

  -- A patch of the workload's annotations, at most at the key of the mark.
  annotations_sent-Keeps :
      (s : c.State) (object : O) (m : Annotations) (wrap : Error → Error)
      → IsFresh c resource view key serves s object
      → AgreeBut mark m (w.annotated.get_annotations object)
      → let (s', object', failure) =
          send_patch resource s object (w.annotated.set_annotations m object) wrap in
        Keeps mark c s s' × (failure ≡ none → IsFresh c resource view key serves s' object')
  annotations_sent-Keeps s object m wrap fresh agree =
      let (_, stored, fresh') =
        annotations_sent c resource view key serves w presents s object m wrap fresh in
      let at = key (view object).namespace (view object).name in
      let only : OnlyMarks mark (some (view object))
          (some (record (view object) { annotations = m })) =
        (
          refl,
          refl,
          refl,
          subst (AgreeBut mark m) (presents.annotations_of object) agree,
          refl,
          λ j _. refl,
        ) in
      (
        λ t.
            subst (OnlyMarks mark (look c s t)) (sym (stored t))
              (written-OnlyMarks mark _ at (view object) _ (look c s) fresh only t),
        fresh',
      )

  -- The marked object is the stored one.
  mark_observed-Keeps :
      (world : World c.State) (object : O)
      → IsFresh c resource view key serves world.state object
      → let (world', object', failure) = mark_observed b c resource w world object in
        Keeps mark c world.state world'.state
        × (failure ≡ none → IsFresh c resource view key serves world'.state object')
  unfolding mark_observed patch_workload_annotation
  mark_observed-Keeps world object fresh =
      elim (Bool-cases (has_annotation (w.annotated.get_annotations object) mark)) [
        | inl marked ↦
            rw (marked, mark_observed) (λ t. OnlyMarks-refl mark (look c world.state t), λ _. fresh)
        | inr unmarked ↦
            rw (unmarked, mark_observed)
              (annotations_sent-Keeps world.state object _ _ fresh (
                put_annotation-AgreeBut mark (c.now world.state)
                  (w.annotated.get_annotations object)))
      ]

  clear_observed-Keeps :
      (world : World c.State) (object : O)
      → IsFresh c resource view key serves world.state object
      → Keeps mark c world.state (clear_observed b c resource w world object).0.state
  unfolding clear_observed delete_workload_annotation
  clear_observed-Keeps world object fresh =
      (annotations_sent-Keeps world.state object _ _ fresh
        (delete_annotation-AgreeBut mark (w.annotated.get_annotations object))).0

  -- With a client that reads its own writes, ReconcileWorkload on the stored object changes nothing
  -- of any object but the two annotations.
  pub reconcile_workload-Keeps :
      IsStore c
      → (parse_duration : Text → Option ℤ) (fuel : ℕ) (world final : World c.State) (object : O)
        (reply : Reply)
      → IsFresh c resource view key serves world.state object
      → reconcile_workload parse_duration b c resource w fuel world object ≡ returned final reply
      → Keeps mark c world.state final.state
  reconcile_workload-Keeps laws parse_duration fuel world final object reply fresh h =
      let (world', object', _) = mark_observed b c resource w world object in
      let (marked, still_fresh) = mark_observed-Keeps world object fresh in
      let from_mark : (s : c.State) → Keeps mark c world'.state s → Keeps mark c world.state s =
        λ s kept. Keeps-trans mark c world.state world'.state s marked kept in
      elim (reconcile_workload-Endings parse_duration b c resource w fuel world object final reply
        h) [
          | inl ((same, _), _) ↦ from_mark final.state (Keeps-same mark c _ _ same)
          | inr (_, inl ((same, _), _)) ↦ from_mark final.state (Keeps-same mark c _ _ same)
          | inr (_, inr (_, _, _, _, inl (_, _, (same, _)))) ↦
              from_mark final.state (Keeps-same mark c _ _ same)
          | inr (done, inr (ts, _, _, _, inr (_, (_, same)))) ↦
              let cleared = (clear_observed b c resource w world' object').0.state in
              from_mark final.state (
                Keeps-trans mark c world'.state cleared final.state
                  (clear_observed-Keeps world' object' (still_fresh done))
                  (Keeps-trans mark c cleared (state_after c cleared ts) final.state
                    (state_after-Keeps mark c laws cleared ts) (Keeps-same mark c _ _ same)))
        ]
