-- ===== src/Stepwise/Tried/Checked.antt =====
-- internal/controller/base_reconciler.go: how a call concludes after an accepting cycle check.
use cascader.Common.{
  ℤ, ◌≡◌, refl, ◌∙◌, ◌⊎◌, inl, inr, Text, true, false, Option, none, List, [], ◌++◌,
}
use cascader.Errors.{Error, patch_restart_failed}
use cascader.Dict.{lookup}
use cascader.Objects.{Annotations}
use cascader.Client.{Client, Resource}
use cascader.Workloads.{Workload, workload_id, Verdict, Reason, panics, verdict}
use cascader.Targets.{Target}
use cascader.Metrics.{Labels, cycle_none, set_dependency_cycle_detected}
use cascader.Processes.{Process, done, ◌>>=◌}
use cascader.Processes.Guarantees.{Within, Gives, Within-Gives, Within-act}
use cascader.Processes.Traces.{Traced, Traced-bind, Traced-weaken, Gives-Traced, Within-Traced}
use cascader.Controller.{BaseReconciler}
use cascader.Controller.Extract.{requeue_duration_for}
use cascader.Controller.Cycles.{Check, no_cycle, refused, undecided}
use cascader.Controller.Reconcile.{World, finished, failing}
use cascader.Store.{View, look, Presents}
use cascader.Store.Graph.{SameGraph}
use cascader.Store.Merges.{Merges, IsMerging}
use cascader.System.Graph.{OnlyMarks-links_of}
use cascader.Stepwise.{Program, Ending, replied, crashed, unfinished, calling, telling}
use cascader.Stepwise.Verdicts.{AnyErrors, SameCheck}
use cascader.Stepwise.Marks.{clear_at-Keeps}
use cascader.Stepwise.Marks.Reloads.{KeepsWorld, idle, trigger_reloads_program-Within}
use cascader.Stepwise.Reloads.{trigger_reloads_program}
use cascader.Stepwise.Requests.{clear_at, reload_program, verdict_program, check_program}
use cascader.Stepwise.Tried.Answers.{Finding, judged_as, refused_with}
use cascader.Stepwise.Tried.{
  Tried, Tried-append_left, Tried-append_right, trigger_reloads_program-Tried,
}

pub accepting-eq : (x y : Check) → SameCheck AnyErrors x y → y ≡ no_cycle → x ≡ no_cycle
accepting-eq x _ SameCheck.same_check h = h
accepting-eq _ _ (SameCheck.both_fail r) h = absurd (cc)

module _ (parse_duration : Text → Option ℤ) (b : BaseReconciler) (c : Client) where
  -- `Judged` says what was found. A marking failed, or a workload was not stable and is put off by its interval, or every target was tried,
  -- and this only if there is none or a workload was stable; or Stable panicked on a workload.
  abbrev pub Concludes :
      (Finding → Type 0) → List Target → List (World c.State × World c.State) → Ending → Type 0
  Concludes Judged ts own (replied reply) =
      ((e : Error) × Judged (refused_with e) × (reply ≡ failing (patch_restart_failed e)))
      ⊎ (((reason : Reason) × (m : Annotations) × Judged (judged_as (verdict false reason) m)
            × (reply ≡ record {
              requeue_after = (requeue_duration_for parse_duration b m).0;
              error = none;
            }))
          ⊎ ((reply ≡ finished)
              × Tried c ts own
              × ((ts ≡ [])
                  ⊎ ((reason : Reason) × (m : Annotations) × Judged
                        (judged_as (verdict true reason) m)))))
  Concludes Judged ts own crashed = (m : Annotations) × Judged (judged_as panics m)
  Concludes Judged ts own unfinished = ⊥

  pub Concludes-weaken :
      (Judged Judged' : Finding → Type 0) (ts : List Target)
      (own : List (World c.State × World c.State)) (ending : Ending)
      → ((x : Finding) → Judged x → Judged' x)
      → Concludes Judged ts own ending
      → Concludes Judged' ts own ending
  Concludes-weaken Judged Judged' ts own (replied reply) weaker (inl (e, failed, same)) =
      inl (e, weaker (refused_with e) failed, same)
  Concludes-weaken Judged Judged' ts own (replied reply) weaker (inr (inl (r, m, judged, e))) =
      inr (inl (r, m, weaker (judged_as (verdict false r) m) judged, e))
  Concludes-weaken Judged Judged' ts own (replied reply) weaker (inr (inr (e, tried, inl empty))) =
      inr (inr (e, tried, inl empty))
  Concludes-weaken Judged Judged' ts own (replied reply) weaker
        (inr (inr (e, tried, inr (r, m, judged)))) =
      inr (inr (e, tried, inr (r, m, weaker (judged_as (verdict true r) m) judged)))
  Concludes-weaken Judged Judged' ts own crashed weaker (m, judged) =
      (m, weaker (judged_as panics m) judged)
  Concludes-weaken Judged Judged' ts own unfinished weaker h = h

  pub Concludes-append :
      (Judged : Finding → Type 0) (ts : List Target)
      (own own' : List (World c.State × World c.State)) (ending : Ending)
      → Concludes Judged ts own' ending
      → Concludes Judged ts (own ++ own') ending
  Concludes-append Judged ts own own' (replied reply) (inl h) = inl h
  Concludes-append Judged ts own own' (replied reply) (inr (inl h)) = inr (inl h)
  Concludes-append Judged ts own own' (replied reply) (inr (inr (e, tried, judged))) =
      inr (inr (e, Tried-append_right c ts own own' tried, judged))
  Concludes-append Judged ts own own' crashed h = h
  Concludes-append Judged ts own own' unfinished h = h

  -- A part of a call ahead of its conclusion.
  pub ahead :
      {A : Type 0} {I : World c.State → Type 0} {R : World c.State → World c.State → Type 0}
      {P : A → Type 0} (Judged : Finding → Type 0) (ts : List Target)
      (p : Process (World c.State) A) (f : A → Process (World c.State) Ending)
      → Gives I R P p
      → ((a : A) → P a → Traced I (Concludes Judged ts) (f a))
      → Traced I (Concludes Judged ts) (p >>= f)
  ahead Judged ts p f h k = Traced-bind p f (Gives-Traced p h) (λ own a pa.
      Traced-weaken (f a) (λ own' ending. Concludes-append Judged ts own own' ending) (k a pa))

module _ (parse_duration : Text → Option ℤ) (b : BaseReconciler) (c : Client) (laws : IsMerging c)
    (unlisted : lookup b.last_observed_restart_annotation b.annotation_kind_map ≡ none)
    (world : World c.State) {O : Type 0} (resource : Resource c.State O) (view : O → View)
    (key : Text → Text → Target) (merges : Merges c resource view key) (w : Workload O)
    (presents : Presents view w) (Judged : Finding → Type 0) where
  abbrev mark : Text
  mark = b.last_observed_restart_annotation

  abbrev pub Concluding : List Target → Program c Ending → Type 1
  Concluding ts p = Traced (SameGraph b c world) (Concludes parse_duration b c Judged ts) p

  keeps :
      (v v' : World c.State)
      → KeepsWorld c mark v v'
      → SameGraph b c world v
      → SameGraph b c world v'
  keeps v v' kept i t =
      OnlyMarks-links_of b unlisted (look c v.state t) (look c v'.state t) (kept t) ∙ i t

  pub part :
      {A : Type 0} (ts : List Target) (p : Program c A) (f : A → Program c Ending)
      → Within (KeepsWorld c mark) p
      → ((a : A) → Concluding ts (f a))
      → Concluding ts (p >>= f)
  part ts p f kept k =
      ahead parse_duration b c {P = λ _. Unit} Judged ts p f (Within-Gives p keeps kept)
        (λ a _. k a)

  reload_program-Concluding :
      (ts : List Target) (object : O)
      → (reason : Reason) × (m : Annotations) × Judged (judged_as (verdict true reason) m)
      → Concluding ts (reload_program b c resource w ts object)
  unfolding reload_program
  reload_program-Concluding ts object stable =
      part ts (calling c (clear_at b c resource w object))
        (λ object'. trigger_reloads_program c (workload_id w object') ts 0 0 >>= λ counts.
          done (replied finished))
        (Within-act _ (λ v.
          clear_at-Keeps parse_duration b c laws resource view key merges w presents object
            v.state))
        (λ object'.
          Traced-bind (trigger_reloads_program c (workload_id w object') ts 0 0)
            (λ counts. done (replied finished))
            (Within-Traced (trigger_reloads_program c (workload_id w object') ts 0 0) keeps
              (trigger_reloads_program-Within c mark laws (workload_id w object') ts 0 0)
              (trigger_reloads_program-Tried c (workload_id w object') ts 0 0))
            (λ own counts tried.
              Traced.at_end (inr (inr (refl, Tried-append_left c ts own [] tried, inr stable)))))

  verdict_program-Concluding :
      (v : Verdict) (ts : List Target) (object : O)
      → Judged (judged_as v (w.annotated.get_annotations object))
      → Concluding ts (verdict_program parse_duration b c resource w v ts object)
  unfolding verdict_program
  verdict_program-Concluding panics ts object h = Traced.at_end (_, h)
  verdict_program-Concluding (verdict true r) ts object h =
      reload_program-Concluding ts object (r, w.annotated.get_annotations object, h)
  verdict_program-Concluding (verdict false r) ts object h =
      Traced.at_end (inr (inl (r, w.annotated.get_annotations object, h, refl)))

  pub check_program-Concluding :
      (x : Check) (labels : Labels) (ts : List Target) (object : O)
      → x ≡ no_cycle
      → Judged (judged_as (w.stable object) (w.annotated.get_annotations object))
      → Concluding ts (check_program parse_duration b c resource w x labels ts object)
  unfolding check_program
  check_program-Concluding undecided labels ts object h judged = absurd (cc)
  check_program-Concluding (refused e) labels ts object h judged = absurd (cc)
  check_program-Concluding no_cycle labels ts object h judged =
      part ts (telling c (set_dependency_cycle_detected labels cycle_none))
        (λ _. verdict_program parse_duration b c resource w (w.stable object) ts object)
        (Within-act _ (idle c mark))
        (λ _. verdict_program-Concluding (w.stable object) ts object judged)
