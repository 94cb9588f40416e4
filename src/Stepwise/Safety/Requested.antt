-- ===== src/Stepwise/Safety/Requested.antt =====
-- internal/controller/base_reconciler.go and the three reconcilers: what a request restarts.

use cascader.Common.{
  ℕ, ℤ, ◌≡◌, refl, sym, ap, ◌∙◌, subst, inl, inr, Text, Bool-cases, Option, none, some, List, [],
  ◌∷◌,
}
use cascader.Errors.{Error, Result, ok, err, api_not_found}
use cascader.Dict.{lookup}
use cascader.Client.{Client, Resource}
use cascader.Utils.Patches.{put_annotation, patch_workload_annotation}
use cascader.Utils.{generate_id}
use cascader.Workloads.{Workload, workload_id}
use cascader.Targets.{Target}
use cascader.Metrics.{Labels}
use cascader.Processes.Guarantees.{Gives, Gives-bind}
use cascader.Controller.{BaseReconciler, has_annotation}
use cascader.Controller.Extract.{extract_targets}
use cascader.Controller.Cycles.{no_cycle, check_cycle}
use cascader.Controller.Reconcile.{World}
use cascader.Store.{View, look, Presents}
use cascader.Store.Graph.{graph, links_of, SameGraph}
use cascader.Store.Merges.{Merges, IsMerging}
use cascader.Store.Merges.Restarts.{send_patch_answer, get-stored}
use cascader.Stepwise.{calling, asking}
use cascader.Stepwise.Marks.{mark_at-Keeps}
use cascader.Stepwise.Cycles.{check_cycle_program}
use cascader.Stepwise.Verdicts.{
  AnyErrors, graph-SameTargets, accepted-eq, check_cycle_program-Gives,
}
use cascader.Stepwise.Requests.{
  mark_at, mark_program, check_program, targets_program, marked_program, workload_program,
  fetched_program, request_program,
}
use cascader.Stepwise.Safety.{Good, asking-Good, telling-Good, calling-Good, RestartsOnly}
use cascader.Stepwise.Safety.Checked.{check_program-Good, annotations_sent-Allowed}

module _ (parse_duration : Text → Option ℤ) (b : BaseReconciler) (c : Client) (laws : IsMerging c)
    (unlisted : lookup b.last_observed_restart_annotation b.annotation_kind_map ≡ none)
    (world : World c.State) {O : Type 0} (resource : Resource c.State O) (view : O → View)
    (key : Text → Text → Target) (merges : Merges c resource view key) (w : Workload O)
    (presents : Presents view w) (fuel : ℕ) where
  -- The check, made at once.
  abbrev pub Accepts : Text → List Target → Type 0
  Accepts id ts = check_cycle b c world.state fuel id ts ≡ no_cycle

  targets_program-Good :
      (id : Text) (labels : Labels) (object : O) (ts : List Target)
      → Good b c world ts
          (Accepts id ts)
          (λ _. Unit)
          (targets_program parse_duration b c resource w fuel (ok ts) id labels object)
  unfolding targets_program
  targets_program-Good id labels object [] =
      telling-Good b c world [] (Accepts id []) _ _ (Gives.at_end tt)
  targets_program-Good id labels object (t ∷ ts) =
      telling-Good b c world (t ∷ ts) (Accepts id (t ∷ ts)) _ _ (
        Gives-bind (check_cycle_program b c fuel id (t ∷ ts))
          (λ answer. check_program parse_duration b c resource w answer labels (t ∷ ts) object)
          (check_cycle_program-Gives b c AnyErrors (SameGraph b c world)
            (RestartsOnly c (t ∷ ts) (Accepts id (t ∷ ts))) (λ _ u. inl refl) world.state
            (λ v same u. graph-SameTargets b c world.state v.state u (same u)) fuel id (t ∷ ts))
          (λ answer same.
            check_program-Good parse_duration b c laws unlisted world (t ∷ ts) resource view key
              merges w presents (Accepts id (t ∷ ts)) answer labels object
              (accepted-eq answer _ same)))

  -- `ts` are the targets that the object names, if they can be read.
  module _ (namespace name : Text) (ts : List Target) (extracted : Result (List Target))
      (readable : (ds : List Target) → extracted ≡ ok ds → ts ≡ ds)
      (named : (o : O)
        → ((w.get_meta o).namespace ≡ (view o).namespace) × ((w.get_meta o).name ≡ (view o).name))
      (names : graph b (look c world.state) (key namespace name) ≡ some extracted) where
    abbrev pub id : Text
    id = generate_id w.kind namespace name

    -- The object is the one that is asked for, with the targets of the beginning.
    abbrev pub Matches : O → Type 0
    Matches object =
        ((view object).namespace ≡ namespace)
        × ((view object).name ≡ name)
        × (extract_targets b (view object).namespace (view object).annotations ≡ extracted)

    pub stored-Matches :
        (v : World c.State) (object : O)
        → SameGraph b c world v
        → look c v.state (key namespace name) ≡ some (view object)
        → (view object).namespace ≡ namespace
        → (view object).name ≡ name
        → Matches object
    stored-Matches v object same there m n =
        let linked : links_of b (some (view object)) ≡ some extracted =
          ap (links_of b) (sym there) ∙ same (key namespace name) ∙ names in
        (m, n, cc)

    mark_at-Matches :
        (now : Text) (object : O) (s : c.State)
        → Matches object
        → let (s', (object', failure)) = mark_at b c resource w now object s in
          SameGraph b c world (record world { state = s' }) → failure ≡ none → Matches object'
    unfolding mark_at patch_workload_annotation
    mark_at-Matches now object s (m, n, _) same sent =
        let a =
          put_annotation b.last_observed_restart_annotation now
            (w.annotated.get_annotations object) in
        let changed = presents.annotated a object in
        let (there, m', n') =
          send_patch_answer c resource view key merges s object
            (w.annotated.set_annotations a object) _ (ap (λ v. v.namespace) changed)
            (ap (λ v. v.name) changed) sent in
        let s' = (mark_at b c resource w now object s).0 in
        stored-Matches (record world { state = s' }) _ same
          ((λ i. look c s' (key (sym m i) (sym n i))) ∙ there) (m' ∙ m) (n' ∙ n)

    pub mark_program-Good :
        (object : O)
        → Matches object
        → Good b c world ts
            (Accepts id ts)
            (λ marked. marked.1 ≡ none → Matches marked.0)
            (mark_program b c resource w object)
    unfolding mark_program mark_at patch_workload_annotation
    mark_program-Good object matches =
        elim (Bool-cases (
          has_annotation (w.annotated.get_annotations object) b.last_observed_restart_annotation)) [
            | inl marked ↦ rw (marked, mark_program) (Gives.at_end (λ _. matches))
            | inr unmarked ↦
                rw (unmarked, mark_program)
                  (Gives-bind {P = λ _. Unit} (asking c c.now)
                    (λ now. calling c (mark_at b c resource w now object))
                    (asking-Good b c world ts (Accepts id ts) c.now (λ w i. tt))
                    (λ now _.
                      calling-Good b c world ts (Accepts id ts) (mark_at b c resource w now object)
                        unlisted
                        (mark_at-Keeps parse_duration b c laws resource view key merges w presents
                          now object)
                        (λ s.
                          annotations_sent-Allowed parse_duration b c laws unlisted world ts
                            resource view key merges w presents (Accepts id ts) s object _ _)
                        (λ s same. mark_at-Matches now object s matches same)))
          ]

    extracted_program-Good :
        (answer : Result (List Target)) (labels : Labels) (object : O)
        → ((ds : List Target) → answer ≡ ok ds → ts ≡ ds)
        → Good b c world ts
            (Accepts id ts)
            (λ _. Unit)
            (targets_program parse_duration b c resource w fuel answer id labels object)
    unfolding targets_program
    extracted_program-Good (err e) labels object same = Gives.at_end tt
    extracted_program-Good (ok ds) labels object same =
        subst
          (λ us.
            Good b c world ts (Accepts id ts) (λ _. Unit)
              (targets_program parse_duration b c resource w fuel (ok us) id labels object))
          (same ds refl) (targets_program-Good id labels object ts)

    marked_program-Good :
        (object : O) (failure : Option Error) (labels : Labels)
        → (failure ≡ none → Matches object)
        → Good b c world ts
            (Accepts id ts)
            (λ _. Unit)
            (marked_program parse_duration b c resource w fuel (object, failure) id labels)
    unfolding marked_program
    marked_program-Good object (some e) labels h = Gives.at_end tt
    marked_program-Good object none labels h =
        let (_, _, as_stored) = h refl in
        let same : extract_targets b (w.get_meta object).namespace
              (w.annotated.get_annotations object)
            ≡ extracted =
          (λ i. extract_targets b ((named object).0 i) (presents.annotations_of object i))
          ∙ as_stored in
        subst
          (λ answer.
            Good b c world ts (Accepts id ts) (λ _. Unit)
              (targets_program parse_duration b c resource w fuel answer id labels object))
          (sym same) (extracted_program-Good extracted labels object readable)

    fetched_program-Good :
        (fetched : Result O)
        → ((object : O) → fetched ≡ ok object → Matches object)
        → Good b c world ts
            (Accepts id ts)
            (λ _. Unit)
            (fetched_program parse_duration b c resource w fuel fetched)
    unfolding fetched_program workload_program workload_id
    fetched_program-Good (err api_not_found) h = Gives.at_end tt
    fetched_program-Good (err _) h = Gives.at_end tt
    fetched_program-Good (ok object) h =
        let matches = h object refl in
        let (m, n, _) = matches in
        let identified : workload_id w object ≡ id =
          λ i. generate_id w.kind (((named object).0 ∙ m) i) (((named object).1 ∙ n) i) in
        let labels : Labels = ((w.get_meta object).namespace, (w.get_meta object).name, w.kind) in
        Gives-bind (mark_program b c resource w object)
          (λ marked.
            marked_program parse_duration b c resource w fuel marked (workload_id w object) labels)
          (mark_program-Good object matches)
          (λ (object', failure) h'.
            subst
              (λ i.
                Good b c world ts (Accepts id ts) (λ _. Unit)
                  (marked_program parse_duration b c resource w fuel (object', failure) i labels))
              (sym identified) (marked_program-Good object' failure labels h'))

    pub request_program-Good :
        Good b c world ts
          (Accepts id ts)
          (λ _. Unit)
          (request_program parse_duration b c fuel resource w namespace name)
    unfolding request_program
    request_program-Good =
        Gives-bind {P = λ fetched. (object : O) → fetched ≡ ok object → Matches object}
          (asking c (λ s. resource.get s namespace name))
          (fetched_program parse_duration b c resource w fuel)
          (asking-Good b c world ts (Accepts id ts) (λ s. resource.get s namespace name)
            (λ v same object e.
              let (m, n) = merges.named v.state namespace name object e in
              stored-Matches v object same
                (get-stored c resource view key merges v.state namespace name object e) m n))
          fetched_program-Good
