-- ===== src/Overlap/Graph.antt =====
-- What stays as it is in the cluster while calls overlap.
use cascader.Common.{ℕ, ℤ, ◌≡◌, refl, sym, ◌∙◌, ◌↔◌, Text, Option, none, List, []}
use cascader.Errors.{ok}
use cascader.Dict.{lookup}
use cascader.Client.{Client}
use cascader.Targets.{Target}
use cascader.Processes.Traces.{Traced}
use cascader.Processes.{Process}
use cascader.Processes.Guarantees.{
  Within, Within-weaken, AllWithin, no_process, one_more, Turn-Within, Gives,
}
use cascader.Controller.{BaseReconciler}
use cascader.Controller.Cycles.{dependencies}
use cascader.Controller.Reconcile.{World}
use cascader.Store.{look}
use cascader.Store.Graph.{graph, dependencies_iff, SameGraph}
use cascader.Store.Runs.{OnlyMarks, OnlyMarks-refl, OnlyMarks-trans, Keeps}
use cascader.Store.Merges.{IsMerging}
use cascader.System.Graph.{OnlyMarks-links_of}
use cascader.Stepwise.Marks.{reconcile_program-Within}
use cascader.Stepwise.Marks.Reloads.{KeepsWorld}
use cascader.Stepwise.Requests.{Request, reconcile_program}
use cascader.Overlap.{
  Moment, Step, accept, turn, elsewhere, Reach, start, later, Amid, finish, proceed, AllOf,
}

module _ (parse_duration : Text → Option ℤ) (b : BaseReconciler) (c : Client) (fuel : ℕ)
    (Other : c.State → c.State → Type 0) where
  -- What the others and each access of a call respect is respected by all that happens.
  module _ (R : World c.State → World c.State → Type 0) (same : (w : World c.State) → R w w)
      (trans : (w w' w'' : World c.State) → R w w' → R w' w'' → R w w'')
      (others : (w : World c.State) (s : c.State) → Other w.state s → R w (record w { state = s }))
      (own : (r : Request) → Within R (reconcile_program parse_duration b c fuel r)) where
    Step-Within :
        {m m' : Moment c}
        → Step parse_duration b c fuel Other m m'
        → AllWithin R m.calls
        → R m.world m'.world × AllWithin R m'.calls
    Step-Within {m} (accept r) h = (same m.world, one_more (own r) h)
    Step-Within (turn t) h = Turn-Within t h
    Step-Within {m} (elsewhere {s = s} o) h = (others m.world s o, h)

    pub Reach-Within :
        {m m' : Moment c}
        → Reach parse_duration b c fuel Other m m'
        → AllWithin R m.calls
        → R m.world m'.world × AllWithin R m'.calls
    Reach-Within {m} start h = (same m.world, h)
    Reach-Within {m} {m'} (later {m' = middle} reach step) h =
        let (before, h') = Reach-Within reach h in
        let (now, h'') = Step-Within step h' in
        (trans m.world middle.world m'.world before now, h'')

  module _ (laws : IsMerging c) where
    abbrev mark : Text
    mark = b.last_observed_restart_annotation

    -- Patches of the two annotations are all that the operator adds, also when its calls overlap
    -- and each works with objects that may have been changed since it read them: if what the other
    -- writers do changes at most these annotations of any object, then whatever has happened since
    -- a moment with no call under way, no object was added or removed, and every object has the
    -- replicas and the rest of its pod template that it had, its annotations differ at most at the
    -- key of the mark, and those of its pod template at most at the key that restarts it. A Get
    -- sees each patch that has succeeded, and the server merges each patch into the object as it is
    -- stored by then.
    pub Overlap-OnlyMarks :
        ((s s' : c.State) → Other s s' → Keeps mark c s s')
        → (world : World c.State) (m : Moment c)
        → Reach parse_duration b c fuel Other (record { world = world; calls = [] }) m
        → (t : Target) → OnlyMarks mark (look c world.state t) (look c m.world.state t)
    Overlap-OnlyMarks others world m reach =
        (Reach-Within (KeepsWorld c mark) (λ w t. OnlyMarks-refl mark (look c w.state t))
          (λ w w' w'' h h' t. OnlyMarks-trans mark _ (look c w'.state t) _ (h t) (h' t))
          (λ w s o. others w.state s o) (reconcile_program-Within parse_duration b c laws fuel)
          reach no_process).0

    module _ (unlisted : lookup mark b.annotation_kind_map ≡ none)
        (others : (s s' : c.State)
          → Other s s'
          → (t : Target) → graph b (look c s') t ≡ graph b (look c s) t) where
      reconcile_program-SameGraph :
          (r : Request) → Within (SameGraph b c) (reconcile_program parse_duration b c fuel r)
      reconcile_program-SameGraph r =
          Within-weaken (reconcile_program parse_duration b c fuel r)
            (λ w w' kept t.
              OnlyMarks-links_of b unlisted (look c w.state t) (look c w'.state t) (kept t))
            (reconcile_program-Within parse_duration b c laws fuel r)

      pub Reach-SameGraph :
          {m m' : Moment c}
          → Reach parse_duration b c fuel Other m m'
          → AllWithin (SameGraph b c) m.calls
          → SameGraph b c m.world m'.world × AllWithin (SameGraph b c) m'.calls
      Reach-SameGraph =
          Reach-Within (SameGraph b c) (λ w t. refl) (λ w w' w'' h h' t. h' t ∙ h t)
            (λ w s o. others w.state s o) reconcile_program-SameGraph

      -- Calls that overlap do not change the dependencies of any object, if the key of the mark is
      -- not a configured annotation and the other writers do not change them: whatever has happened
      -- since a moment with no call under way, the targets that detectCycle reads of an object are
      -- those that it read before. A Get sees each patch that has succeeded, and the server merges
      -- each patch into the object as it is stored by then.
      pub Overlap-dependencies :
          (world : World c.State) (m : Moment c)
          → Reach parse_duration b c fuel Other (record { world = world; calls = [] }) m
          → (t : Target) (ds : List Target)
          → (dependencies b c m.world.state t ≡ ok ds) ↔ (dependencies b c world.state t ≡ ok ds)
      Overlap-dependencies world m reach t ds =
          let before = dependencies_iff b c world.state t ds in
          let after = dependencies_iff b c m.world.state t ds in
          let same = (Reach-SameGraph reach no_process).0 t in
          (λ e. before.1 (sym same ∙ after.0 e), λ e. after.1 (same ∙ before.0 e))

      -- A process that runs amid such calls keeps to what it guarantees where the graph stays as it
      -- is, and leaves them and the graph so.
      pub Amid-Gives :
          {A : Type 0} {R : World c.State → World c.State → Type 0} {Q : A → Type 0}
          (world : World c.State) (p : Process (World c.State) A) (m m' : Moment c)
          (own : List (World c.State × World c.State)) (a : A)
          → Gives (SameGraph b c world) R Q p
          → SameGraph b c world m.world
          → AllWithin (SameGraph b c) m.calls
          → Amid parse_duration b c fuel Other p m own a m'
          → Q a × AllOf R own × SameGraph b c world m'.world × AllWithin (SameGraph b c) m'.calls
      Amid-Gives world _ m m' _ a (Gives.at_end h) i calls (finish reach) =
          let (moved, calls') = Reach-SameGraph reach calls in (h, tt, λ t. moved t ∙ i t, calls')
      Amid-Gives world _ m m'' _ a (Gives.at_access kept allowed rest) i calls
            (proceed {m' = m'} {own = own} reach amid) =
          let (moved, calls') = Reach-SameGraph reach calls in
          let i' : SameGraph b c world m'.world = λ t. moved t ∙ i t in
          let (answer, made, i'', calls'') =
            Amid-Gives world _ _ m'' own a (rest m'.world i') (kept m'.world i') calls' amid in
          (answer, (allowed m'.world i', made), i'', calls'')

      -- What it says of the accesses that it makes and of its end holds.
      pub Amid-Traced :
          (world : World c.State) {A : Type 0}
          {Q : List (World c.State × World c.State) → A → Type 0} (p : Process (World c.State) A)
          (m m' : Moment c) (own : List (World c.State × World c.State)) (a : A)
          → Traced (SameGraph b c world) Q p
          → SameGraph b c world m.world
          → AllWithin (SameGraph b c) m.calls
          → Amid parse_duration b c fuel Other p m own a m'
          → Q own a
      Amid-Traced world _ m m' _ a (Traced.at_end h) i calls (finish reach) = h
      Amid-Traced world _ m m'' _ a (Traced.at_access kept rest) i calls
            (proceed {m' = m'} {own = own} reach amid) =
          let (moved, calls') = Reach-SameGraph reach calls in
          let i' : SameGraph b c world m'.world = λ t. moved t ∙ i t in
          Amid-Traced world _ _ m'' own a (rest m'.world i') (kept m'.world i') calls' amid
