-- ===== src/Stepwise/Tried/Requested.antt =====
-- internal/controller/base_reconciler.go and the three reconcilers: how a call for an accepted source
-- concludes.
use mathlib.Core.List.Memᴰ
use cascader.Common.{
  ℕ, ℤ, ◌≡◌, refl, sym, ap, ◌∙◌, subst, inl, inr, Text, Option, none, some, List, [], ◌∷◌, ◌++◌,
  ◌⊎◌, length,
}
use cascader.Errors.{Error, Result, ok, err}
use cascader.Dict.{lookup}
use cascader.Client.{Client, Resource}
use cascader.Utils.{generate_id}
use cascader.Workloads.{Workload, workload_id}
use cascader.Targets.{Target}
use cascader.Metrics.{Labels, set_workload_targets}
use cascader.Processes.{done, ◌>>=◌}
use cascader.Processes.Guarantees.{Within-act}
use cascader.Processes.Traces.{
  Traced, Traced-bind, Traced-weaken, Gives-also, SomeOf, SomeOf-append_left,
}
use cascader.Stepwise.Tried.Answers.{
  Finding, judged_as, refused_with, Answered, RefusedBy, FoundBy, SomeOf-JudgedBy,
  mark_program-Answered,
}
use cascader.Controller.{BaseReconciler}
use cascader.Controller.Extract.{extract_targets}
use cascader.Controller.Cycles.{no_cycle, check_cycle}
use cascader.Controller.Reconcile.{World, finished}
use cascader.Store.{View, look, seen, Presents}
use cascader.Store.Graph.{graph, links_of, SameGraph}
use cascader.Store.Merges.{Merges, IsMerging}
use cascader.Store.Merges.Restarts.{get-stored}
use cascader.Stepwise.{Program, Ending, replied, telling}
use cascader.Stepwise.Cycles.{check_cycle_program}
use cascader.Stepwise.Verdicts.{AnyErrors, graph-SameTargets, check_cycle_program-Gives}
use cascader.Stepwise.Marks.Reloads.{idle}
use cascader.Stepwise.Requests.{
  mark_program, check_program, targets_program, marked_program, workload_program, fetched_program,
  request_program,
}
use cascader.Stepwise.Safety.Requested.{Matches, stored-Matches, mark_program-Good}
use cascader.Stepwise.Tried.Checked.{
  Concludes, Concludes-append, Concludes-weaken, ahead, part, check_program-Concluding,
  accepting-eq,
}

-- A list that is read is one list.
ok_inj : (ts ds : List Target) → ◌≡◌ {A = Result (List Target)} (ok ts) (ok ds) → ts ≡ ds
ok_inj ts ds e = cc e

module _ (parse_duration : Text → Option ℤ) (b : BaseReconciler) (c : Client) (laws : IsMerging c)
    (unlisted : lookup b.last_observed_restart_annotation b.annotation_kind_map ≡ none)
    (world : World c.State) {O : Type 0} (resource : Resource c.State O) (view : O → View)
    (key : Text → Text → Target) (merges : Merges c resource view key) (w : Workload O)
    (presents : Presents view w) where
  abbrev Conclusive : (Finding → Type 0) → List Target → Program c Ending → Type 1
  Conclusive Judged ts p = Traced (SameGraph b c world) (Concludes parse_duration b c Judged ts) p

  abbrev mark : Text
  mark = b.last_observed_restart_annotation

  module _ (fuel : ℕ) where
    targets_program-Concluding :
        (Judged : Finding → Type 0) (id : Text) (labels : Labels) (object : O) (ts : List Target)
        → check_cycle b c world.state fuel id ts ≡ no_cycle
        → Judged (judged_as (w.stable object) (w.annotated.get_annotations object))
        → Conclusive Judged ts
            (targets_program parse_duration b c resource w fuel (ok ts) id labels object)
    unfolding targets_program
    targets_program-Concluding Judged id labels object [] accepted judged =
        part parse_duration b c laws unlisted world resource view key merges w presents Judged []
          (telling c (set_workload_targets labels 0)) (λ _. done (replied finished))
          (Within-act _ (idle c mark))
          (λ _. Traced.at_end (inr (inr (refl, (λ t m. absurd (Memᴰ.not-nil m)), inl refl))))
    targets_program-Concluding Judged id labels object (t ∷ ts) accepted judged =
        part parse_duration b c laws unlisted world resource view key merges w presents Judged
          (t ∷ ts) (telling c (set_workload_targets labels (length (t ∷ ts))))
          (λ _. check_cycle_program b c fuel id (t ∷ ts) >>= λ answer.
            check_program parse_duration b c resource w answer labels (t ∷ ts) object)
          (Within-act _ (idle c mark))
          (λ _.
            ahead parse_duration b c Judged (t ∷ ts) (check_cycle_program b c fuel id (t ∷ ts))
              (λ answer. check_program parse_duration b c resource w answer labels (t ∷ ts) object)
              (check_cycle_program-Gives b c AnyErrors (SameGraph b c world) (λ _ _. Unit) (λ _. tt)
                world.state (λ v same u. graph-SameTargets b c world.state v.state u (same u)) fuel
                id (t ∷ ts))
              (λ answer same.
                check_program-Concluding parse_duration b c laws unlisted world resource view key
                  merges w presents Judged answer labels (t ∷ ts) object
                  (accepting-eq answer _ same accepted) judged))

    module _ (namespace name : Text) (ts : List Target)
        (named : (o : O)
          → ((w.get_meta o).namespace ≡ (view o).namespace) × ((w.get_meta o).name ≡ (view o).name))
        (names : graph b (look c world.state) (key namespace name) ≡ some (ok ts))
        (accepted : check_cycle b c world.state fuel (generate_id w.kind namespace name) ts
          ≡ no_cycle) where
      abbrev Fits : O → Type 0
      Fits =
          Matches parse_duration b c laws unlisted world resource view key merges w presents fuel
            namespace name ts (ok ts) (ok_inj ts) named names

      abbrev id : Text
      id = generate_id w.kind namespace name

      -- What is found of an object that is in hand after a marking.
      abbrev OfMarked : O × Option Error → Finding → Type 0
      OfMarked (object, failure) (judged_as v m) =
          (failure ≡ none) × (w.stable object ≡ v) × (w.annotated.get_annotations object ≡ m)
      OfMarked (object, failure) (refused_with e) = failure ≡ some e

      abbrev Found : Finding → World c.State → World c.State → Type 0
      Found = FoundBy c resource w b namespace name

      -- Of the object that is fetched, or that an access answers with.
      abbrev Known : O → List (World c.State × World c.State) → Finding → Type 0
      Known object own (judged_as v m) =
          ((w.stable object ≡ v) × (w.annotated.get_annotations object ≡ m))
          ⊎ SomeOf (Found (judged_as v m)) own
      Known object own (refused_with e) = SomeOf (Found (refused_with e)) own

      marked_program-Concluding :
          (object : O) (failure : Option Error) (labels : Labels)
          → (failure ≡ none → Fits object)
          → Conclusive
              (OfMarked (object, failure))
              ts
              (marked_program parse_duration b c resource w fuel (object, failure) id labels)
      unfolding marked_program
      marked_program-Concluding object (some e) labels h = Traced.at_end (inl (e, refl, refl))
      marked_program-Concluding object none labels h =
          let (_, _, extracted) = h refl in
          let same : extract_targets b (w.get_meta object).namespace
                (w.annotated.get_annotations object)
              ≡ ok ts =
            (λ i. extract_targets b ((named object).0 i) (presents.annotations_of object i))
            ∙ extracted in
          subst
            (λ answer.
              Conclusive (OfMarked (object, none)) ts
                (targets_program parse_duration b c resource w fuel answer id labels object))
            (sym same)
            (targets_program-Concluding (OfMarked (object, none)) id labels object ts accepted
              (refl, refl, refl))

      OfMarked-Known :
          (object : O) (marked : O × Option Error) (own own' : List (World c.State × World c.State))
          (x : Finding)
          → (marked.1 ≡ none → Fits marked.0)
          → (marked.1 ≡ none
              → (marked.0 ≡ object) ⊎ SomeOf (Answered c resource w namespace name marked.0) own)
            × ((e : Error) → marked.1 ≡ some e → SomeOf (RefusedBy c resource w b e) own)
          → OfMarked marked x
          → Known object (own ++ own') x
      OfMarked-Known object (object', failure) own own' (refused_with e) fits (_, refused) failed =
          SomeOf-append_left (Found (refused_with e)) own own' (refused e failed)
      OfMarked-Known object (object', failure) own own' (judged_as v m) fits (answered, _)
            (sent, judged, has) =
          elim (answered sent) [
            | inl same ↦
                inl
                  (ap w.stable (sym same) ∙ judged, ap w.annotated.get_annotations (sym same) ∙ has)
            | inr there ↦
                let (n, n', _) = fits sent in
                inr (
                  SomeOf-append_left (Found (judged_as v m)) own own' (
                    subst (λ x. SomeOf (Found (judged_as x m)) own) judged
                      (subst (λ x. SomeOf (Found (judged_as (w.stable object') x)) own) has
                        (SomeOf-JudgedBy c resource w namespace name object' own
                          ((named object').0 ∙ n) ((named object').1 ∙ n') there))))
          ]

      fetched_program-Concluding :
          (object : O)
          → Fits object
          → Traced
              (SameGraph b c world)
              (λ own ending. Concludes parse_duration b c (Known object own) ts own ending)
              (fetched_program parse_duration b c resource w fuel (ok object))
      unfolding fetched_program workload_program workload_id
      fetched_program-Concluding object fits =
          let (m, n, _) = fits in
          let identified : workload_id w object ≡ id =
            λ i. generate_id w.kind (((named object).0 ∙ m) i) (((named object).1 ∙ n) i) in
          let labels : Labels = ((w.get_meta object).namespace, (w.get_meta object).name, w.kind) in
          Traced-bind (mark_program b c resource w object)
            (λ marked.
              marked_program parse_duration b c resource w fuel marked (workload_id w object)
                labels)
            (Gives-also (mark_program b c resource w object)
              (mark_program-Good parse_duration b c laws unlisted world resource view key merges w
                presents fuel namespace name ts (ok ts) (ok_inj ts) named names object fits)
              (mark_program-Answered c resource w b namespace name object))
            (λ own (object', failure) (fits', answered).
              Traced-weaken
                (marked_program parse_duration b c resource w fuel (object', failure)
                  (workload_id w object) labels)
                (λ own' ending h.
                  Concludes-weaken parse_duration b c (OfMarked (object', failure))
                    (Known object (own ++ own')) ts (own ++ own') ending
                    (λ x. OfMarked-Known object (object', failure) own own' x fits' answered)
                    (Concludes-append parse_duration b c (OfMarked (object', failure)) ts own own'
                      ending h))
                (subst
                  (λ i.
                    Conclusive (OfMarked (object', failure)) ts (
                      marked_program parse_duration b c resource w fuel (object', failure) i
                        labels))
                  (sym identified) (marked_program-Concluding object' failure labels fits')))

      -- What is shown of a request, and of the rest of it after the Get.
      abbrev pub Resolves : List (World c.State × World c.State) → Program c Ending → Type 1
      Resolves before p =
          Traced (SameGraph b c world)
            (λ own ending.
              Concludes parse_duration b c (λ x. SomeOf (Found x) (before ++ own)) ts
                (before ++ own) ending)
            p

      -- With the access in which the object is fetched.
      Known-Found :
          (object : O) (own : List (World c.State × World c.State)) (v : World c.State)
          → (view object).namespace ≡ namespace
          → (view object).name ≡ name
          → resource.get v.state namespace name ≡ ok object
          → (x : Finding) → Known object own x
          → SomeOf (Found x) ((v, v) ∷ own)
      Known-Found object own v m n got (refused_with e) there = inr there
      Known-Found object own v m n got (judged_as x a) (inl (judged, has)) =
          inl (object, (named object).0 ∙ m, (named object).1 ∙ n, judged, has, inl got)
      Known-Found object own v m n got (judged_as x a) (inr there) = inr there

      -- The object is there, so Get finds it.
      fetched-Concluding :
          (v : World c.State) (fetched : Result O)
          → SameGraph b c world v
          → resource.get v.state namespace name ≡ fetched
          → Resolves ((v, v) ∷ []) (fetched_program parse_duration b c resource w fuel fetched)
      fetched-Concluding v (ok object) same got =
          let (m, n) = merges.named v.state namespace name object got in
          Traced-weaken (fetched_program parse_duration b c resource w fuel (ok object))
            (λ own ending h.
              Concludes-weaken parse_duration b c (Known object own)
                (λ x. SomeOf (Found x) ((v, v) ∷ own)) ts ((v, v) ∷ own) ending
                (Known-Found object own v m n got)
                (Concludes-append parse_duration b c (Known object own) ts ((v, v) ∷ []) own ending
                  h))
            (fetched_program-Concluding object (
              stored-Matches parse_duration b c laws unlisted world resource view key merges w
                presents fuel namespace name ts (ok ts) (ok_inj ts) named names v object same
                (get-stored c resource view key merges v.state namespace name object got) m n))
      fetched-Concluding v (err e) same got =
          let missing : look c v.state (key namespace name) ≡ none =
            merges.looks v.state namespace name ∙ ap (seen view) got in
          let linked : none ≡ some (ok ts) =
            ap (links_of b) (sym missing) ∙ same (key namespace name) ∙ names in
          absurd (cc)

      pub request_program-Concluding :
          Resolves [] (request_program parse_duration b c fuel resource w namespace name)
      unfolding request_program
      request_program-Concluding =
          Traced.at_access (λ v i. i)
            (λ v i. fetched-Concluding v (resource.get v.state namespace name) i refl)
