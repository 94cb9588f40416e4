-- ===== src/App/Operating.antt =====
-- internal/app/run.go with internal/controller: the reconcilers that Run sets up, at work.
use mathlib.Core.WellFounded.{Acc}
use cascader.Common.{
  ℕ, ℤ, ◌≡◌, refl, ◌⊎◌, inl, inr, Text, Bool, Option, none, some, List, Memᴰ, Option-cases,
  Bool-cases,
}
use cascader.Errors.{Error}
use cascader.Dict.{lookup}
use cascader.Strings.{trim_space}
use cascader.Objects.{Annotations}
use cascader.Client.{Client}
use cascader.Flags.Parse.{Parser}
use cascader.Targets.{Target}
use cascader.Controller.{BaseReconciler}
use cascader.Controller.Extract.{requeue_duration_for, parsed_duration, is_empty}
use cascader.Controller.Cycles.{no_cycle, check_cycle}
use cascader.Controller.Cycles.Termination.{Covers}
use cascader.Controller.Reconcile.{World}
use cascader.Store.{IsStore, look}
use cascader.Store.Graph.{graph}
use cascader.Store.Merges.{IsMerging}
use cascader.Overlap
use cascader.Overlap.{Moment, Possible, Reloads}
use cascader.Overlap.Cascades.{Reloads-Acc}
use cascader.Stepwise.Requests.{Request}
use cascader.System.Cascade.{SetOffBy, cascade-Acc}
use cascader.App.Configured.{lookup-configure}
use cascader.App.Run.{Action, Setup, setup_with_manager, run}
use cascader.App.Endings.{run-SetsUp}

module _ (parse_duration : Text → Option ℤ) (b : BaseReconciler) where
  -- The interval is the one that the annotation of the workload has.
  abbrev pub FromAnnotation : Annotations → ℤ → Type 0
  FromAnnotation none d = ⊥
  FromAnnotation (some m) d =
      (val : Text) × (lookup b.requeue_after_annotation m ≡ some val)
      × (parse_duration val ≡ some d)

  pub requeue_duration_for_cases :
      (m : Annotations)
      → ((requeue_duration_for parse_duration b m).0 ≡ b.requeue_after_default)
        ⊎ FromAnnotation m (requeue_duration_for parse_duration b m).0
  unfolding requeue_duration_for parsed_duration
  requeue_duration_for_cases none = inl refl
  requeue_duration_for_cases (some m) = elim (Option-cases (lookup b.requeue_after_annotation m)) [
    | inl e ↦ rw (e, requeue_duration_for) (inl refl)
    | inr (val, e) ↦ elim (Bool-cases (is_empty (trim_space val))) [
      | inl blank ↦ rw (e, blank, requeue_duration_for) (inl refl)
      | inr written ↦ elim (Option-cases (parse_duration val)) [
        | inl f ↦ rw (e, written, f, requeue_duration_for, parsed_duration) (inl refl)
        | inr (d, f) ↦
            rw (e, written, f, requeue_duration_for, parsed_duration) (inr (val, refl, f))
      ]
    ]
  ]

module _ (answer : List Action → Option Error) (parse : Parser)
    (is_help_requested is_version_requested : Error → Bool) (version : Text) (args : List Text)
    (s : Setup)
    (set_up : Memᴰ
      (setup_with_manager s)
      (run answer parse is_help_requested is_version_requested version args).0)
    (parse_duration : Text → Option ℤ) where
  -- With a reconciler that Run has set up, the reloads that follow from an accepted source come to an
  -- end: if checkCycle accepts its targets, there is no endless chain of reloads from one of them in
  -- which each is made later than the one before, in the cluster as any calls of the reconcilers
  -- have left it by then, and of a target that then depends on it. The client reads its own writes,
  -- and the cluster has finitely many objects to fetch.
  run-cascade :
      (c : Client) (fuel : ℕ)
      → IsStore c
      → (src_id : Text) (objects : List Text) (world : World c.State)
      → Covers s.reconciler c world.state objects
      → (steps : ℕ) (ts : List Target)
      → check_cycle s.reconciler c world.state steps src_id ts ≡ no_cycle
      → (t : Target) → Memᴰ t ts
      → Acc (SetOffBy parse_duration s.reconciler c fuel) (t, world)
  run-cascade c fuel laws src_id objects world covers steps ts accepted t m =
      let (flags, parsed, configured) =
        run-SetsUp answer parse is_help_requested is_version_requested version args s set_up in
      let (_, unlisted, _) = lookup-configure flags s.reconciler configured in
      cascade-Acc parse_duration s.reconciler c fuel laws unlisted src_id objects world covers steps
        ts accepted t m

  -- With a reconciler that Run has set up, the reloads come to an end, also when calls of the
  -- reconcilers overlap. A reload is an access of a call after which another restart annotation is
  -- stored for an object than before; it sets off those that calls for this object make which begin
  -- since, at any moment and any number of them. No reload that a call makes is the first of an
  -- endless chain in which each sets off the next one, however the accesses of the calls are spread
  -- over those of other calls and of other writers. The other writers may change anything but the
  -- dependencies, and these they leave as they are; a Get sees each patch that has succeeded, which
  -- the cache of the manager's client does not promise; the server merges each patch into the object
  -- as it is stored by then; and the cluster has finitely many objects to fetch.
  pub run-overlap :
      (c : Client) (fuel : ℕ) (Other : c.State → c.State → Type 0)
      → IsMerging c
      → ((s' s'' : c.State)
          → Other s' s''
          → (t : Target) → graph s.reconciler (look c s'') t ≡ graph s.reconciler (look c s') t)
      → (r : Request) (m after : Moment c) (objects : List Text) (t : Target)
      → Possible parse_duration s.reconciler c fuel Other m
      → Covers s.reconciler c m.world.state objects
      → Reloads parse_duration s.reconciler c fuel Other r m t after
      → Acc (Overlap.SetOffBy parse_duration s.reconciler c fuel Other) (t, after)
  run-overlap c fuel Other laws others =
      let (flags, parsed, configured) =
        run-SetsUp answer parse is_help_requested is_version_requested version args s set_up in
      let (_, unlisted, _) = lookup-configure flags s.reconciler configured in
      Reloads-Acc parse_duration s.reconciler c fuel laws unlisted Other others
