-- ===== src/Stepwise/Safety.antt =====
-- internal/controller: which targets a call of a reconciler may restart, whatever others do between
-- its accesses, as long as they leave the dependencies as they are.
pub mod Restarting
pub mod Checked
pub mod Requested
pub mod Missing
use cascader.Common.{◌≡◌, refl, ◌∙◌, ◌⊎◌, inl, none, List, Memᴰ}
use cascader.Dict.{lookup}
use cascader.Client.{Client}
use cascader.Metrics.{Calls}
use cascader.Targets.{Target}
use cascader.Processes.{◌>>◌}
use cascader.Processes.Guarantees.{Gives}
use cascader.Controller.{BaseReconciler}
use cascader.Controller.Reconcile.{World}
use cascader.Store.{look}
use cascader.Store.Graph.{graph, SameGraph}
use cascader.Store.Runs.{Keeps}
use cascader.Store.Merges.Restarts.{restarted_at}
use cascader.System.Graph.{OnlyMarks-links_of}
use cascader.Stepwise.{Program, calling, asking, telling}

-- Nothing is restarted but targets of the list, and these only if `Accepted`.
abbrev pub RestartsOnly :
    (c : Client) → List Target → Type 0 → World c.State → World c.State → Type 0
RestartsOnly c ts Accepted w w' =
    (t : Target)
    → (restarted_at (look c w'.state t) ≡ restarted_at (look c w.state t)) ⊎ (Memᴰ t ts × Accepted)

module _ (b : BaseReconciler) (c : Client) (world : World c.State) (ts : List Target)
    (Accepted : Type 0) where
  -- What is shown of a program.
  abbrev pub Good : {A : Type 0} → (A → Type 0) → Program c A → Type 0
  Good Q p = Gives (SameGraph b c world) (RestartsOnly c ts Accepted) Q p

  pub asking-Good :
      {A : Type 0} {Q : A → Type 0} (f : c.State → A)
      → ((w : World c.State) → SameGraph b c world w → Q (f w.state))
      → Good Q (asking c f)
  asking-Good f h = Gives.at_access (λ w i. i) (λ w i t. inl refl) (λ w i. Gives.at_end (h w i))

  pub telling-Good :
      {A : Type 0} {Q : A → Type 0} (g : Calls → Calls) (p : Program c A)
      → Good Q p
      → Good Q (telling c g >> p)
  telling-Good g p h = Gives.at_access (λ w i. i) (λ w i t. inl refl) (λ w i. h)

  pub calling-Good :
      {A : Type 0} {Q : A → Type 0} (f : c.State → c.State × A)
      → lookup b.last_observed_restart_annotation b.annotation_kind_map ≡ none
      → ((s : c.State) → Keeps b.last_observed_restart_annotation c s (f s).0)
      → ((s : c.State) (t : Target)
          → (restarted_at (look c (f s).0 t) ≡ restarted_at (look c s t)) ⊎ (Memᴰ t ts × Accepted))
      → ((s : c.State) → SameGraph b c world (record world { state = (f s).0 }) → Q (f s).1)
      → Good Q (calling c f)
  calling-Good f unlisted keeps allowed answers =
      let kept : (w : World c.State)
          → SameGraph b c world w
          → (t : Target) → graph b (look c (f w.state).0) t ≡ graph b (look c world.state) t =
        λ w i t.
          OnlyMarks-links_of b unlisted (look c w.state t) (look c (f w.state).0 t)
            (keeps w.state t)
          ∙ i t in
      Gives.at_access kept (λ w i t. allowed w.state t)
        (λ w i. Gives.at_end (answers w.state (kept w i)))
