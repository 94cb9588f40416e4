-- ===== src/Tests/Settling.antt =====
-- A controller of Kubernetes that updates statuses: another writer.
use cascader.Common.{◌≡◌, refl, sym, ap, ◌∙◌, subst, inl, inr, Text, Bool-cases, [], ◌∷◌, map, pos}
use cascader.Objects.{Deployment}
use cascader.Targets.{Target, deployment_target}
use cascader.Controller.{BaseReconciler}
use cascader.Store.{look, seen, deployment_view}
use cascader.Store.Graph.{graph, links_of}
use cascader.Store.Runs.{OnlyMarks, OnlyMarks-refl, Keeps}
use cascader.Tests.{Cluster, reconciler, find, is_named}
use cascader.Tests.Merging.{merging_client}

-- Every Deployment gets its replicas ready.
abbrev settled : Deployment → Deployment
settled d = record d { status = record (d.status) { ready_replicas = pos 1 } }

abbrev pub settle : Cluster → Cluster
settle = map settled

abbrev pub Settles : Cluster → Cluster → Type 0
Settles s s' = s' ≡ settle s

pub look-settle :
    (s : Cluster) (t : Target) → look merging_client (settle s) t ≡ look merging_client s t
unfolding find
look-settle s (deployment_target namespace name) = go s
  where
    go :
        (s : Cluster)
        → seen deployment_view (find (settle s) namespace name)
          ≡ seen deployment_view (find s namespace name)
    go [] = refl
    go (d ∷ ds) = elim (Bool-cases (is_named namespace name d)) [
      | inl found ↦ rw (found, find) refl
      | inr missed ↦ rw (missed, find) (go ds)
    ]
look-settle s _ = refl

abbrev pub mark : Text
mark = reconciler.last_observed_restart_annotation

pub settle-Keeps : (s s' : Cluster) → Settles s s' → Keeps mark merging_client s s'
settle-Keeps s s' e t =
    subst (OnlyMarks mark (look merging_client s t))
      (sym (ap (λ x. look merging_client x t) e ∙ look-settle s t))
      (OnlyMarks-refl mark (look merging_client s t))

pub settle-graph :
    (r : BaseReconciler) (s s' : Cluster)
    → Settles s s'
    → (t : Target) → graph r (look merging_client s') t ≡ graph r (look merging_client s) t
settle-graph r s s' e t = ap (links_of r) (ap (λ x. look merging_client x t) e ∙ look-settle s t)
