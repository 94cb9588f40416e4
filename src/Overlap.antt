-- ===== src/Overlap.antt =====
-- internal/controller with calls that overlap: the controllers of the three kinds work at the same
-- time, and others write to the cluster too. Any request may arrive at any moment, and any call may
-- make its next access at any moment, so there are more interleavings than the manager allows,
-- which gives each controller one worker.
pub mod Graph
pub mod Verdicts
pub mod Safety
pub mod Endings
pub mod Progress
pub mod Cascades
use cascader.Common.{◌≡◌, ◌≢◌, ℕ, ℤ, Text, Option, List, [], ◌∷◌}
use cascader.Client.{Client}
use cascader.Processes.{Process, done, access, Turn}
use cascader.Targets.{Target, deployment_target, stateful_set_target, daemon_set_target}
use cascader.Store.{look}
use cascader.Store.Merges.Restarts.{restarted_at}
use cascader.Controller.{BaseReconciler}
use cascader.Controller.Reconcile.{World}
use cascader.Stepwise.{Program, Ending}
use cascader.Stepwise.Requests.{
  Request, deployment_request, stateful_set_request, daemon_set_request, reconcile_program,
}

-- The shared world, and what is left of the calls that were accepted.
pub record Moment (c : Client) : Type 0 where
  pub world : World c.State
  pub calls : List (Program c Ending)

-- The object that a request is for.
abbrev pub requested : Request → Target
requested (deployment_request namespace name) = deployment_target namespace name
requested (stateful_set_request namespace name) = stateful_set_target namespace name
requested (daemon_set_request namespace name) = daemon_set_target namespace name

-- `Other` is what others may do to the cluster at once.
module _ (parse_duration : Text → Option ℤ) (b : BaseReconciler) (c : Client) (fuel : ℕ)
    (Other : c.State → c.State → Type 0) where
  pub data Step : Moment c → Moment c → Type 0 where
    accept :
        {m : Moment c} (r : Request)
        → Step m (record m { calls = reconcile_program parse_duration b c fuel r ∷ m.calls })
    turn : {m m' : Moment c} → Turn m.world m.calls m'.world m'.calls → Step m m'
    elsewhere :
        {m : Moment c} {s : c.State}
        → Other m.world.state s
        → Step m (record m { world = record (m.world) { state = s } })

  pub data Reach (m : Moment c) : Moment c → Type 0 where
    start : Reach m m
    later : {m' m'' : Moment c} → Reach m m' → Step m' m'' → Reach m m''

  -- A moment that can be reached from one with no call under way.
  abbrev pub Possible : Moment c → Type 0
  Possible m = (world : World c.State) × Reach (record { world = world; calls = [] }) m

  -- A process that runs from one moment to another one: before each of its accesses, and after the
  -- last one, the others may have made any steps. Its own accesses are listed with the worlds before
  -- and after.
  pub data Amid {A : Type 0}
      : Process (World c.State) A
        → Moment c
        → List (World c.State × World c.State)
        → A
        → Moment c
        → Type 0 where
    finish : {a : A} {m m' : Moment c} → Reach m m' → Amid (done a) m [] a m'
    proceed :
        {write : World c.State → World c.State} {next : World c.State → Process (World c.State) A}
        {m m' m'' : Moment c} {own : List (World c.State × World c.State)} {a : A}
        → Reach m m'
        → Amid (next m'.world) (record m' { world = write m'.world }) own a m''
        → Amid (access write next) m ((m'.world, write m'.world) ∷ own) a m''

  -- One access of such a process, whether or not the process gets any further: with the worlds before
  -- and after it, and the moment after it.
  pub data Makes {A : Type 0}
      : Process (World c.State) A
        → Moment c
        → World c.State
        → World c.State
        → Moment c
        → Type 0 where
    makes_next :
        {write : World c.State → World c.State} {next : World c.State → Process (World c.State) A}
        {m m' : Moment c}
        → Reach m m'
        → Makes
            (access write next)
            m
            m'.world
            (write m'.world)
            (record m' { world = write m'.world })
    makes_later :
        {write : World c.State → World c.State} {next : World c.State → Process (World c.State) A}
        {m m' m'' : Moment c} {w w' : World c.State}
        → Reach m m'
        → Makes (next m'.world) (record m' { world = write m'.world }) w w' m''
        → Makes (access write next) m w w' m''

  -- A call for the request, begun at the moment `m`, makes an access after which another restart
  -- annotation is stored for the target than before; `after` is the moment after this access.
  abbrev pub Reloads : Request → Moment c → Target → Moment c → Type 0
  Reloads r m t after =
      (w : World c.State) × (w' : World c.State) × Makes
        (reconcile_program parse_duration b c fuel r) m w w' after
      × (restarted_at (look c w'.state t) ≢ restarted_at (look c w.state t))

  -- A target, and the moment after its reload.
  abbrev pub Reload : Type 0
  Reload = Target × Moment c

  -- A reload that another one sets off: a call for the reloaded target, begun at any moment since
  -- then, makes it.
  abbrev pub SetOffBy : Reload → Reload → Type 0
  SetOffBy (u, after) (t, m) =
      (r : Request) × (m' : Moment c) × (requested r ≡ t) × Reach m m' × Reloads r m' u after

-- Of all of its accesses.
abbrev pub AllOf : {S : Type 0} → (S → S → Type 0) → List (S × S) → Type 0
AllOf R [] = Unit
AllOf R ((s, s') ∷ own) = R s s' × AllOf R own
