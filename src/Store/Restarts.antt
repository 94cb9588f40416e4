-- ===== src/Store/Restarts.antt =====
-- internal/controller/base_reconciler.go: that the targets of a workload are restarted.
use mathlib.Core.List.Memᴰ
use cascader.Common.{
  Option-cases, ◌⊎◌, ℕ, ℤ, ◌<◌, ◌≡◌, ◌≢◌, refl, sym, ap, ◌∙◌, subst, inl, inr, Text, true, Option,
  none, some, List, [], ◌∷◌, Memᴰ, arith, length,
}
use cascader.Errors.{Error, ok}
use cascader.Client.{Client, Resource}
use cascader.Utils.Patches.{delete_workload_annotation}
use cascader.Utils.Patches.Laws.{value_at}
use cascader.Workloads.{Workload, workload_id}
use cascader.Workloads.Stability.{Says}
use cascader.Targets.{Target, target_id, trigger}
use cascader.Controller.{BaseReconciler}
use cascader.Controller.Extract.{extract_targets}
use cascader.Controller.Cycles.Termination.{Covers}
use cascader.Controller.Cycles.Decides.{IsAcyclic}
use cascader.Controller.Reconcile.{
  World, returned, finished, mark_observed, clear_observed, reconcile_workload,
}
use cascader.Controller.Reconcile.Reloads.{attempts, state_after, failures}
use cascader.Controller.Reconcile.Progress.{reconcile_reloads}
use cascader.Store.{View, target_eq, target_eq_iff, look, Serves, IsStore, Presents}
use cascader.Store.Triggers.{map_view, triggered, restarted, trigger-store, IsFresh}
use cascader.Store.Graph.{links_of, dependencies_iff}
use cascader.Store.Marks.{
  clear_observed-Unmarked, key_of, Leaves, mark_observed-Leaves, clear_observed-Leaves,
}
use cascader.Store.Frames.{
  Reached, Restarted, Restarted-trans, triggered_cases, state_after-Reached,
}

-- Something is stored.
abbrev IsPresent : Option View → Type 0
IsPresent seen = (v : View) × (seen ≡ some v)

Restarted-IsPresent : (x y : Option View) → Restarted x y → IsPresent y
Restarted-IsPresent x y (v, now, e, f) = (restarted now v, f)

links_of-IsPresent :
    (b : BaseReconciler) (seen : Option View) (ds : List Target)
    → links_of b seen ≡ some (ok ds)
    → IsPresent seen
links_of-IsPresent b none ds h = absurd (cc)
links_of-IsPresent b (some v) ds h = (v, refl)

failures-none :
    (u : Target) (failure : Option Error) (rest : List (Target × Option Error))
    → failures ((u, failure) ∷ rest) ≡ 0
    → (failure ≡ none) × (failures rest ≡ 0)
unfolding failures
failures-none u none rest h = (refl, h)
failures-none u (some e) rest h = absurd (omega (arith, h))

triggered_key :
    (key : Target) (now : Text) (cluster : Target → Option View)
    → IsPresent (cluster key)
    → Restarted (cluster key) (triggered none key now cluster key)
triggered_key key now cluster (v, e) =
    let self : target_eq key key ≡ true = (target_eq_iff key key).1 refl in
    (v, now, e, rw self (ap (map_view (restarted now)) e))

Restarted-Reached :
    (t : Target) (ts : List Target) (x y z : Option View)
    → Restarted x y
    → Reached ts t y z
    → Restarted x z
Restarted-Reached t ts x y z r (inl same) = subst (λ o. Restarted x o) (sym same) r
Restarted-Reached t ts x y z r (inr (_, r')) = Restarted-trans x y z r r'

state_after-Restarted :
    (c : Client)
    → IsStore c
    → (s : c.State) (ts : List Target) (t : Target) → Memᴰ t ts
    → IsPresent (look c s t)
    → failures (attempts c s ts) ≡ 0
    → Restarted (look c s t) (look c (state_after c s ts) t)
unfolding state_after attempts
state_after-Restarted c laws s [] t m present h = absurd (Memᴰ.not-nil m)
state_after-Restarted c laws s (u ∷ ts) t m present h =
    let (s', failure) = trigger c u s in
    let (worked, rest) = failures-none u failure (attempts c s' ts) h in
    let one : (x : Target) → look c s' x ≡ triggered none u (c.now s) (look c s) x =
      λ x. trigger-store c laws u s x ∙ ap (λ f. triggered f u (c.now s) (look c s) x) worked in
    elim (Memᴰ.cases_cons m) [
      | inl e ↦
          let first : Restarted (look c s u) (look c s' u) =
            subst (λ o. Restarted (look c s u) o) (sym (one u))
              (triggered_key u (c.now s) (look c s)
                (subst (λ x. IsPresent (look c s x)) e present)) in
          Restarted-Reached t ts (look c s t) (look c s' t) (look c (state_after c s' ts) t)
            (subst (λ x. Restarted (look c s x) (look c s' x)) (sym e) first)
            (state_after-Reached c laws s' ts t)
      | inr later ↦
          let next = state_after-Restarted c laws s' ts t later in
          elim (triggered_cases none u (c.now s) (look c s) t) [
            | inl kept ↦
                let same : look c s' t ≡ look c s t = one t ∙ kept in
                subst (λ x. Restarted x (look c (state_after c s' ts) t)) same
                  (next (subst IsPresent (sym same) present) rest)
            | inr (_, r) ↦
                let first : Restarted (look c s t) (look c s' t) =
                  subst (λ o. Restarted (look c s t) o) (sym (one t)) r in
                Restarted-trans (look c s t) (look c s' t) (look c (state_after c s' ts) t) first
                  (next (Restarted-IsPresent (look c s t) (look c s' t) first) rest)
          ]
    ]

module _ (b : BaseReconciler) (c : Client) {O : Type 0} (resource : Resource c.State O)
    (view : O → View) (key : Text → Text → Target) (serves : Serves c resource view key)
    (w : Workload O) (presents : Presents view w)
    (identified : (object : O)
      → target_id (key (view object).namespace (view object).name) ≡ workload_id w object) where
  -- An accepted target is not the workload itself, and it is stored.
  accepted_target :
      (s : c.State) (object : O) (ts : List Target)
      → IsAcyclic b c s (workload_id w object) ts
      → (t : Target) → Memᴰ t ts
      → (t ≢ key_of c resource view key serves w presents object) × IsPresent (look c s t)
  accepted_target s object ts acyclic t m =
      let ((apart, _), (ds, read)) = acyclic t [] m tt in
      (
        λ e. apart (Memᴰ.head (sym (identified object) ∙ ap target_id (sym e))),
        links_of-IsPresent b (look c s t) ds ((dependencies_iff b c s t ds).0 read),
      )

  -- The object is stored, and has no mark.
  abbrev pub Unmarked : Option View → Type 0
  Unmarked seen =
      (v : View) × (seen ≡ some v)
      × (value_at b.last_observed_restart_annotation v.annotations ≡ none)

  -- What the removal of the mark returns.
  abbrev pub removal : World c.State → O → Option Error
  removal world object =
      (delete_workload_annotation resource w.annotated world.state object
        b.last_observed_restart_annotation).2

  -- With a client that reads its own writes, a workload as it is stored, and the conditions under
  -- which ReconcileWorkload reloads: the marking succeeds, and as it leaves them the workload has
  -- targets, nothing reachable from them repeats or cannot be read, the workload is stable, and the
  -- cluster has fewer objects to fetch than there is fuel. If no attempt to reload a target fails,
  -- ReconcileWorkload returns with neither an error nor a requeue, and then every target has, in
  -- its pod template, the annotation that restarts it, while nothing else of it is changed; and the
  -- workload is stored without the mark, or the removal of the mark has failed.
  pub reconcile_restarts :
      IsStore c
      → (parse_duration : Text → Option ℤ) (fuel : ℕ) (world world' : World c.State)
        (object object' : O) (objects : List Text) (u : Target) (us : List Target)
      → IsFresh c resource view key serves world.state object
      → mark_observed b c resource w world object ≡ (world', object', none)
      → extract_targets b (w.get_meta object').namespace (w.annotated.get_annotations object')
        ≡ ok (u ∷ us)
      → IsAcyclic b c world'.state (workload_id w object) (u ∷ us)
      → Says true (w.stable object')
      → Covers b c world'.state objects
      → length objects < fuel
      → failures (attempts c (clear_observed b c resource w world' object').0.state (u ∷ us)) ≡ 0
      → (final : World c.State) × (reconcile_workload parse_duration b c resource w fuel world
            object
          ≡ returned final finished)
        × ((t : Target) → Memᴰ t (u ∷ us) → Restarted (look c world.state t) (look c final.state t))
        × (((e : Error) × (removal world' object' ≡ some e))
            ⊎ Unmarked (look c final.state (key_of c resource view key serves w presents object)))
  reconcile_restarts laws parse_duration fuel world world' object object' objects u us fresh m x
        acyclic stable covers enough none_fails =
      (
        _,
        reconcile_reloads parse_duration b c resource w fuel world world' object object' objects u
            us m x acyclic stable covers enough,
        restarts,
        cleaned,
      )
    where
      cleared : c.State
      cleared = (clear_observed b c resource w world' object').0.state

      kept :
          Leaves c resource view key serves w presents object world.state world'.state
          × (key_of c resource view key serves w presents object'
              ≡ key_of c resource view key serves w presents object)
          × (◌≡◌ {A = Option Error} none none
              → IsFresh c resource view key serves world'.state object')
      kept =
          subst
            (λ (world', object', failure).
              Leaves c resource view key serves w presents object world.state world'.state
              × (key_of c resource view key serves w presents object'
                  ≡ key_of c resource view key serves w presents object)
              × (failure ≡ none → IsFresh c resource view key serves world'.state object'))
            m (mark_observed-Leaves c resource view key serves w presents b world object fresh)

      restarts :
          (t : Target)
          → Memᴰ t (u ∷ us)
          → Restarted (look c world.state t) (look c (state_after c cleared (u ∷ us)) t)
      restarts t n =
          let (leaves, placed, still_fresh) = kept in
          let (other, present) = accepted_target world'.state object (u ∷ us) acyclic t n in
          let unmarked =
            clear_observed-Leaves c resource view key serves w presents b world' object'
              (still_fresh refl) t (λ e. other (e ∙ placed)) in
          subst (λ o. Restarted o (look c (state_after c cleared (u ∷ us)) t))
            (unmarked ∙ leaves t other)
            (state_after-Restarted c laws cleared (u ∷ us) t n
              (subst IsPresent (sym unmarked) present) none_fails)

      cleaned :
          ((e : Error) × (removal world' object' ≡ some e))
          ⊎ Unmarked (
              look c
                (state_after c cleared (u ∷ us))
                (key_of c resource view key serves w presents object))
      cleaned = elim (Option-cases (removal world' object')) [
        | inr failed ↦ inl failed
        | inl done ↦
            let (_, placed, still_fresh) = kept in
            let at = key_of c resource view key serves w presents object in
            let gone : Unmarked (look c cleared at) =
              subst (λ x. Unmarked (look c cleared x)) placed
                (clear_observed-Unmarked c resource view key serves w presents b world' object'
                  (still_fresh refl) done) in
            elim (state_after-Reached c laws cleared (u ∷ us) at) [
              | inl same ↦ inr (subst Unmarked (sym same) gone)
              | inr (m', _) ↦
                  absurd ((accepted_target world'.state object (u ∷ us) acyclic at m').0 refl)
            ]
      ]
