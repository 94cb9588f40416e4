-- ===== src/Stepwise/Safety/Missing.antt =====
-- internal/controller: a request for an object that is gone.
use cascader.Common.{ℕ, ℤ, ◌≡◌, ◌≢◌, refl, sym, ap, ◌∙◌, Text, Option, none, some, []}
use cascader.Errors.{Result, ok, err, api_not_found}
use cascader.Client.{Client, Resource}
use cascader.Workloads.{Workload}
use cascader.Targets.{Target}
use cascader.Processes.Guarantees.{Gives, Gives-bind}
use cascader.Controller.{BaseReconciler}
use cascader.Controller.Reconcile.{World}
use cascader.Store.{View, look}
use cascader.Store.Graph.{graph, links_of}
use cascader.Store.Merges.{Merges}
use cascader.Store.Merges.Restarts.{get-stored}
use cascader.Stepwise.{asking}
use cascader.Stepwise.Requests.{fetched_program, request_program}
use cascader.Stepwise.Safety.{Good, asking-Good}

module _ (parse_duration : Text → Option ℤ) (b : BaseReconciler) (c : Client)
    (world : World c.State) {O : Type 0} (resource : Resource c.State O) (view : O → View)
    (key : Text → Text → Target) (merges : Merges c resource view key) (w : Workload O)
    (fuel : ℕ) where
  -- A request for an object that is not there restarts nothing.
  pub request_program-Missing :
      (namespace name : Text) (Accepted : Type 0)
      → graph b (look c world.state) (key namespace name) ≡ none
      → Good b c world [] Accepted
          (λ _. Unit)
          (request_program parse_duration b c fuel resource w namespace name)
  unfolding request_program fetched_program
  request_program-Missing namespace name Accepted missing =
      Gives-bind {P = λ fetched. (object : O) → fetched ≢ ok object}
        (asking c (λ s. resource.get s namespace name))
        (fetched_program parse_duration b c resource w fuel)
        (asking-Good b c world [] Accepted (λ s. resource.get s namespace name)
          (λ v same object e.
            let linked : links_of b (some (view object)) ≡ none =
              ap (links_of b)
                (sym (get-stored c resource view key merges v.state namespace name object e))
              ∙ same (key namespace name)
              ∙ missing in
            absurd (cc linked)))
        go
    where
      go :
          (fetched : Result O)
          → ((object : O) → fetched ≢ ok object)
          → Good b c world [] Accepted
              (λ _. Unit)
              (fetched_program parse_duration b c resource w fuel fetched)
      go (err api_not_found) h = Gives.at_end tt
      go (err _) h = Gives.at_end tt
      go (ok object) h = absurd (h object refl)
