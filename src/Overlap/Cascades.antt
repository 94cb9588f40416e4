-- ===== src/Overlap/Cascades.antt =====
-- internal/controller while calls overlap: which reloads a reload can set off.
use mathlib.Core.List.Memᴰ
use mathlib.Core.WellFounded.{Acc}
use cascader.Common.{
  ℕ, ℤ, ◌≡◌, refl, sym, ap, ◌∙◌, ◌⊎◌, inl, inr, Text, Option, Option-cases, none, some, List, [],
  Memᴰ,
}
use cascader.Errors.{Result-cases, ok}
use cascader.Dict.{lookup}
use cascader.Client.{Client}
use cascader.Workloads.{deployment_workload, stateful_set_workload, daemon_set_workload}
use cascader.Targets.{Target, deployment_target, stateful_set_target, daemon_set_target, target_id}
use cascader.Processes.{Process}
use cascader.Processes.Guarantees.{Gives, Gives-weaken, AllWithin, no_process}
use cascader.Controller.{BaseReconciler}
use cascader.Controller.Cycles.{no_cycle, check_cycle}
use cascader.Controller.Cycles.Termination.{Covers}
use cascader.Controller.Cycles.Cascade.{ReloadedBy, check_cycle-Acc}
use cascader.Controller.Reconcile.{World}
use cascader.Store.{look, deployment_view, stateful_set_view, daemon_set_view}
use cascader.Store.Graph.{graph, dependencies_iff, SameGraph}
use cascader.Store.Merges.{IsMerging}
use cascader.Store.Merges.Restarts.{restarted_at}
use cascader.Stepwise.Requests.{
  Request, deployment_request, stateful_set_request, daemon_set_request, reconcile_program,
}
use cascader.Stepwise.Safety.{RestartsOnly, Good}
use cascader.Stepwise.Safety.Missing.{request_program-Missing}
use cascader.Overlap.{
  requested, Possible, SetOffBy, Reloads, Moment, Makes, makes_next, makes_later,
}
use cascader.Overlap.Graph.{Reach-SameGraph}
use cascader.Overlap.Safety.{reconcile_program-Good}

module _ (parse_duration : Text → Option ℤ) (b : BaseReconciler) (c : Client) (fuel : ℕ)
    (laws : IsMerging c)
    (unlisted : lookup b.last_observed_restart_annotation b.annotation_kind_map ≡ none) where
  -- What a call may reload: the targets that its object names, if the check accepts these.
  abbrev MayReload : World c.State → Request → Target → Type 0
  MayReload world r t =
      (ts : List Target) × (graph b (look c world.state) (requested r) ≡ some (ok ts))
      × Memᴰ t ts
      × (check_cycle b c world.state fuel (target_id (requested r)) ts ≡ no_cycle)

  abbrev Restrained : World c.State → Request → World c.State → World c.State → Type 0
  Restrained world r w w' =
      (t : Target)
      → (restarted_at (look c w'.state t) ≡ restarted_at (look c w.state t)) ⊎ MayReload world r t

  reconcile_program-Missing :
      (world : World c.State) (r : Request) (Accepted : Type 0)
      → graph b (look c world.state) (requested r) ≡ none
      → Good b c world [] Accepted (λ _. Unit) (reconcile_program parse_duration b c fuel r)
  unfolding reconcile_program
  reconcile_program-Missing world (deployment_request namespace name) Accepted missing =
      request_program-Missing parse_duration b c world c.deployments deployment_view
        deployment_target laws.deployments deployment_workload fuel namespace name Accepted missing
  reconcile_program-Missing world (stateful_set_request namespace name) Accepted missing =
      request_program-Missing parse_duration b c world c.stateful_sets stateful_set_view
        stateful_set_target laws.stateful_sets stateful_set_workload fuel namespace name Accepted
        missing
  reconcile_program-Missing world (daemon_set_request namespace name) Accepted missing =
      request_program-Missing parse_duration b c world c.daemon_sets daemon_set_view
        daemon_set_target laws.daemon_sets daemon_set_workload fuel namespace name Accepted missing

  -- With no readable target nothing is reloaded.
  RestartsOnly-nil :
      (world : World c.State) (r : Request) (Accepted : Type 0) (w w' : World c.State)
      → RestartsOnly c [] Accepted w w'
      → Restrained world r w w'
  RestartsOnly-nil world r Accepted w w' only t = elim (only t) [
    | inl same ↦ inl same
    | inr (member, _) ↦ absurd (Memᴰ.not-nil member)
  ]

  reconcile_program-Restrained :
      (world : World c.State) (r : Request)
      → Gives
          (SameGraph b c world)
          (Restrained world r)
          (λ _. Unit)
          (reconcile_program parse_duration b c fuel r)
  reconcile_program-Restrained world r =
      let p = reconcile_program parse_duration b c fuel r in
      elim (Option-cases (graph b (look c world.state) (requested r))) [
        | inl missing ↦
            Gives-weaken p (RestartsOnly-nil world r Unit)
              (reconcile_program-Missing world r Unit missing)
        | inr (extracted, there) ↦ elim (Result-cases extracted) [
          | inl (ts, read) ↦
              Gives-weaken p
                (λ w w' only t. elim (only t) [
                  | inl same ↦ inl same
                  | inr (member, accepted) ↦ inr (ts, there ∙ ap some read, member, accepted)
                ])
                (reconcile_program-Good parse_duration b c fuel laws unlisted world ts r extracted
                  (λ ds e. cc) there)
          | inr (x, failed) ↦ Gives-weaken p (RestartsOnly-nil world r _) (
              reconcile_program-Good parse_duration b c fuel laws unlisted world [] r extracted
                (λ ds e. absurd (cc)) there)
        ]
      ]

  module _ (Other : c.State → c.State → Type 0)
      (others : (s s' : c.State)
        → Other s s'
        → (t : Target) → graph b (look c s') t ≡ graph b (look c s) t) where
    -- An access that a process makes keeps to what the process guarantees, and leaves the graph.
    Makes-Gives :
        {A : Type 0} {R : World c.State → World c.State → Type 0} {Q : A → Type 0}
        (world : World c.State) (p : Process (World c.State) A) (w w' : World c.State)
        (m m' : Moment c)
        → Gives (SameGraph b c world) R Q p
        → SameGraph b c world m.world
        → AllWithin (SameGraph b c) m.calls
        → Makes parse_duration b c fuel Other p m w w' m'
        → R w w' × SameGraph b c world m'.world × AllWithin (SameGraph b c) m'.calls
    Makes-Gives world _ w w' m m'' (Gives.at_end h) i calls makes = elim makes [ ]
    Makes-Gives world _ _ _ m _ (Gives.at_access kept allowed rest) i calls
          (makes_next {m' = m'} reach) =
        let (moved, calls') =
          Reach-SameGraph parse_duration b c fuel Other laws unlisted others reach calls in
        let i' : SameGraph b c world m'.world = λ t. moved t ∙ i t in
        (allowed m'.world i', kept m'.world i', calls')
    Makes-Gives world _ w w' m m'' (Gives.at_access kept allowed rest) i calls
          (makes_later {m' = m'} reach makes) =
        let (moved, calls') =
          Reach-SameGraph parse_duration b c fuel Other laws unlisted others reach calls in
        let i' : SameGraph b c world m'.world = λ t. moved t ∙ i t in
        Makes-Gives world _ w w' _ m'' (rest m'.world i') (kept m'.world i') calls' makes

    Reloads-MayReload :
        (r : Request) (m after : Moment c) (t : Target)
        → AllWithin (SameGraph b c) m.calls
        → Reloads parse_duration b c fuel Other r m t after
        → MayReload m.world r t
          × SameGraph b c m.world after.world
          × AllWithin (SameGraph b c) after.calls
    Reloads-MayReload r m after t calls (w, w', makes, changed) =
        let (only, kept, calls') =
          Makes-Gives m.world _ w w' m after (reconcile_program-Restrained m.world r) (λ u. refl)
            calls makes in
        elim (only t) [ inl same ↦ absurd (changed same) | inr may ↦ (may, kept, calls') ]

    SetOffBy-Acc :
        (world : World c.State) (t : Target)
        → Acc (ReloadedBy b c world.state) t
        → (m : Moment c) → SameGraph b c world m.world
        → AllWithin (SameGraph b c) m.calls
        → Acc (SetOffBy parse_duration b c fuel Other) (t, m)
    SetOffBy-Acc world t (Acc.intro _ below) m same calls =
        Acc.intro (t, m)
          (λ (u, after) (r, m', for_t, reach, reloads).
            let (moved, calls') =
              Reach-SameGraph parse_duration b c fuel Other laws unlisted others reach calls in
            let ((ts, names, member, _), kept, calls'') =
              Reloads-MayReload r m' after u calls' reloads in
            let names_t : graph b (look c world.state) t ≡ some (ok ts) =
              sym (same t)
              ∙ sym (moved t)
              ∙ ap (graph b (look c m'.world.state)) (sym for_t)
              ∙ names in
            SetOffBy-Acc world u
              (below u (ts, (dependencies_iff b c world.state t ts).1 names_t, member)) after
              (λ v. kept v ∙ moved v ∙ same v) calls'')

    -- A reload that a call makes sets off no endless chain of reloads, each of which is made by a call
    -- for the target that the one before has reloaded, begun since. The other writers leave the
    -- dependencies as they are, a Get sees each patch that has succeeded, the server merges each
    -- patch into the object as it is stored by then, the cluster has finitely many objects to fetch,
    -- and the key of the mark is not a configured annotation.
    pub Reloads-Acc :
        (r : Request) (m after : Moment c) (objects : List Text) (t : Target)
        → Possible parse_duration b c fuel Other m
        → Covers b c m.world.state objects
        → Reloads parse_duration b c fuel Other r m t after
        → Acc (SetOffBy parse_duration b c fuel Other) (t, after)
    Reloads-Acc r m after objects t (world, reach) covers reloads =
        let (_, calls) =
          Reach-SameGraph parse_duration b c fuel Other laws unlisted others reach no_process in
        let ((ts, _, member, accepted), kept, calls') =
          Reloads-MayReload r m after t calls reloads in
        SetOffBy-Acc m.world t
          (check_cycle-Acc b c m.world.state (target_id (requested r)) objects covers fuel ts
            accepted t member)
          after kept calls'
