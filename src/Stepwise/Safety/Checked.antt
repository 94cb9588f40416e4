-- ===== src/Stepwise/Safety/Checked.antt =====
-- internal/controller/base_reconciler.go: what is restarted after the cycle check.
use cascader.Common.{ℤ, ◌≡◌, refl, ap, ◌⊎◌, inl, Text, true, false, Option, none, List, Memᴰ}
use cascader.Errors.{Error, cycle}
use cascader.Dict.{lookup}
use cascader.Flags.{last_observed_restart_annotation}
use cascader.Objects.{Annotations}
use cascader.Client.{Client, Resource}
use cascader.Utils.Patches.Laws.{value_at}
use cascader.Utils.Patches.{send_patch, delete_workload_annotation}
use cascader.Workloads.{Workload, workload_id, Verdict, panics, verdict}
use cascader.Targets.{Target}
use cascader.Metrics.{Labels}
use cascader.Processes.{done, ◌>>=◌}
use cascader.Processes.Guarantees.{Gives, Gives-bind}
use cascader.Controller.{BaseReconciler}
use cascader.Controller.Cycles.{Check, no_cycle, refused, undecided}
use cascader.Controller.Reconcile.{World, finished}
use cascader.Store.{View, look, Presents}
use cascader.Store.Merges.{Merges, IsMerging}
use cascader.Store.Merges.Restarts.{restarted_at, send_patch_unrestarted}
use cascader.Stepwise.{replied, calling}
use cascader.Stepwise.Reloads.{trigger_reloads_program}
use cascader.Stepwise.Marks.{clear_at-Keeps}
use cascader.Stepwise.Requests.{
  report_cycle, clear_at, reload_program, verdict_program, check_program,
}
use cascader.Stepwise.Safety.{Good, telling-Good, calling-Good}
use cascader.Stepwise.Safety.Restarting.{trigger_reloads_program-Good}

module _ (parse_duration : Text → Option ℤ) (b : BaseReconciler) (c : Client) (laws : IsMerging c)
    (unlisted : lookup b.last_observed_restart_annotation b.annotation_kind_map ≡ none)
    (world : World c.State) (targets : List Target) {O : Type 0} (resource : Resource c.State O)
    (view : O → View) (key : Text → Text → Target) (merges : Merges c resource view key)
    (w : Workload O) (presents : Presents view w) (Accepted : Type 0) where
  -- A patch of the workload's own annotations restarts nothing.
  pub annotations_sent-Allowed :
      (s : c.State) (object : O) (m : Annotations) (wrap : Error → Error) (t : Target)
      → (restarted_at
            (look c (send_patch resource s object (w.annotated.set_annotations m object) wrap).0 t)
          ≡ restarted_at (look c s t))
        ⊎ (Memᴰ t targets × Accepted)
  annotations_sent-Allowed s object m wrap t =
      let changed = presents.annotated m object in
      inl (
        send_patch_unrestarted c resource view key merges s object
          (w.annotated.set_annotations m object) wrap (ap (λ v. v.namespace) changed)
          (ap (λ v. v.name) changed)
          (ap (λ v. value_at last_observed_restart_annotation v.template.annotations) changed) t)

  reload_program-Good :
      Accepted
      → (object : O)
      → Good b c world targets Accepted (λ _. Unit) (reload_program b c resource w targets object)
  unfolding reload_program clear_at delete_workload_annotation
  reload_program-Good accepted object =
      Gives-bind {P = λ _. Unit} (calling c (clear_at b c resource w object))
        (λ object'. trigger_reloads_program c (workload_id w object') targets 0 0 >>= λ counts.
          done (replied finished))
        (calling-Good b c world targets Accepted (clear_at b c resource w object) unlisted
          (clear_at-Keeps parse_duration b c laws resource view key merges w presents object)
          (λ s. annotations_sent-Allowed s object _ _) (λ s i. tt))
        (λ object' _.
          Gives-bind {P = λ _. Unit} (trigger_reloads_program c (workload_id w object') targets 0 0)
            (λ counts. done (replied finished))
            (trigger_reloads_program-Good b c world targets Accepted unlisted laws accepted
              (workload_id w object') targets 0 0 (λ t h. h))
            (λ _ _. Gives.at_end tt))

  verdict_program-Good :
      Accepted
      → (v : Verdict) (object : O)
      → Good b c world targets Accepted
          (λ _. Unit)
          (verdict_program parse_duration b c resource w v targets object)
  unfolding verdict_program
  verdict_program-Good accepted panics object = Gives.at_end tt
  verdict_program-Good accepted (verdict true r) object = reload_program-Good accepted object
  verdict_program-Good accepted (verdict false r) object = Gives.at_end tt

  report_cycle-Good :
      (id : Text) (labels : Labels) (e : Error)
      → Good b c world targets Accepted (λ _. Unit) (report_cycle c id labels e)
  unfolding report_cycle
  report_cycle-Good id labels (cycle e) =
      telling-Good b c world targets Accepted _ _
        (Gives.at_access (λ w i. i) (λ w i t. inl refl) (λ w i. Gives.at_end tt))
  report_cycle-Good id labels _ = Gives.at_end tt

  pub check_program-Good :
      (x : Check) (labels : Labels) (object : O)
      → (x ≡ no_cycle → Accepted)
      → Good b c world targets Accepted
          (λ _. Unit)
          (check_program parse_duration b c resource w x labels targets object)
  unfolding check_program
  check_program-Good undecided labels object h = Gives.at_end tt
  check_program-Good (refused e) labels object h =
      Gives-bind {P = λ _. Unit} (report_cycle c (workload_id w object) labels e)
        (λ _. done (replied finished)) (report_cycle-Good _ labels e) (λ _ _. Gives.at_end tt)
  check_program-Good no_cycle labels object h =
      telling-Good b c world targets Accepted _ _
        (verdict_program-Good (h refl) (w.stable object) object)
