-- ===== src/System/Cascade.antt =====
-- Cascades of reloads while the operator works.
use mathlib.Core.WellFounded.{Acc}
use cascader.Common.{ℕ, ℤ, ◌<◌, ◌≡◌, ◌↔◌, Text, Option, none, List, [], ◌∷◌, Memᴰ, length}
use cascader.Errors.{ok}
use cascader.Dict.{lookup}
use cascader.Client.{Client}
use cascader.Targets.{Target}
use cascader.Controller.{BaseReconciler}
use cascader.Controller.Cycles.{dependencies, no_cycle, check_cycle}
use cascader.Controller.Cycles.Graph.{IsWalk, Edge, end_of}
use cascader.Controller.Cycles.Termination.{Covers}
use cascader.Controller.Cycles.Decides.{IsAcyclic, check_cycle_iff}
use cascader.Controller.Cycles.Cascade.{ReloadedBy, check_cycle-Acc}
use cascader.Controller.Reconcile.{World}
use cascader.Store.{IsStore}
use cascader.System.{Reach, here, next}
use cascader.System.Graph.{Reach-dependencies}

module _ (parse_duration : Text → Option ℤ) (b : BaseReconciler) (c : Client) (fuel : ℕ) where
  -- A reload, in the world in which it is made.
  abbrev pub Reload : Type 0
  Reload = Target × World c.State

  -- A reload that another one sets off: it is made later, of a target that then depends on it.
  abbrev pub SetOffBy : Reload → Reload → Type 0
  SetOffBy (u, later) (t, world) =
      Reach parse_duration b c fuel world later × Edge b c later.state t u

  Reach-trans :
      {first second third : World c.State}
      → Reach parse_duration b c fuel first second
      → Reach parse_duration b c fuel second third
      → Reach parse_duration b c fuel first third
  Reach-trans r here = r
  Reach-trans r (next r' step) = next (Reach-trans r r') step

  module _ (laws : IsStore c)
      (unlisted : lookup b.last_observed_restart_annotation b.annotation_kind_map ≡ none) where
    Edge-Reach :
        {world later : World c.State}
        → Reach parse_duration b c fuel world later
        → (t u : Target) → Edge b c later.state t u
        → Edge b c world.state t u
    Edge-Reach reach t u (ds, e, m) =
        (ds, (Reach-dependencies parse_duration b c fuel laws unlisted reach t ds).0 e, m)

    SetOffBy-Acc :
        (world : World c.State) (t : Target)
        → Acc (ReloadedBy b c world.state) t
        → (later : World c.State) → Reach parse_duration b c fuel world later
        → Acc SetOffBy (t, later)
    SetOffBy-Acc world t (Acc.intro _ below) later reach =
        Acc.intro (t, later)
          (λ (u, last) (reach', edge).
            let reach'' = Reach-trans reach reach' in
            SetOffBy-Acc world u (below u (Edge-Reach reach'' t u edge)) last reach'')

    -- If checkCycle accepts the targets of a source, no cascade that the reload of one of them sets
    -- off goes on for ever: a reload can set off another one only later, in the cluster as any calls
    -- of the reconcilers have left it by then, and every such chain ends. The client reads its own
    -- writes, the cluster has finitely many objects to fetch, and the key of the mark is not a
    -- configured annotation.
    pub cascade-Acc :
        (src_id : Text) (objects : List Text) (world : World c.State)
        → Covers b c world.state objects
        → (steps : ℕ) (ts : List Target) → check_cycle b c world.state steps src_id ts ≡ no_cycle
        → (t : Target) → Memᴰ t ts
        → Acc SetOffBy (t, world)
    cascade-Acc src_id objects world covers steps ts accepted t m =
        SetOffBy-Acc world t
          (check_cycle-Acc b c world.state src_id objects covers steps ts accepted t m) world here

    IsWalk-Reach :
        {world later : World c.State}
        → Reach parse_duration b c fuel world later
        → (t : Target) (us : List Target) → IsWalk b c later.state t us
        → IsWalk b c world.state t us
    IsWalk-Reach reach t [] walk = tt
    IsWalk-Reach reach t (u ∷ us) (edge, walk) =
        (Edge-Reach reach t u edge, IsWalk-Reach reach u us walk)

    -- A source that checkCycle accepts is accepted after any further calls of the reconcilers, if the
    -- client reads its own writes, the key of the mark is not a configured annotation, and the
    -- cluster had fewer objects to fetch than there is fuel.
    pub check_cycle-Reach :
        (src_id : Text) (objects : List Text) {world later : World c.State}
        → Reach parse_duration b c fuel world later
        → Covers b c world.state objects
        → (steps : ℕ) (ts : List Target) → length objects < steps
        → check_cycle b c world.state steps src_id ts ≡ no_cycle
        → check_cycle b c later.state steps src_id ts ≡ no_cycle
    check_cycle-Reach src_id objects {world} {later} reach covers steps ts enough accepted =
        (check_cycle_iff b c later.state src_id objects covers' steps ts enough).1 acyclic
      where
        same :
            (t : Target) (ds : List Target)
            → (dependencies b c later.state t ≡ ok ds) ↔ (dependencies b c world.state t ≡ ok ds)
        same = Reach-dependencies parse_duration b c fuel laws unlisted reach

        covers' : Covers b c later.state objects
        covers' t ds e = covers t ds ((same t ds).0 e)

        acyclic : IsAcyclic b c later.state src_id ts
        acyclic t us m walk =
            let (distinct, (ds, e)) =
              (check_cycle_iff b c world.state src_id objects covers steps ts enough).0 accepted t
                us m (IsWalk-Reach reach t us walk) in
            (distinct, (ds, (same (end_of t us) ds).1 e))
