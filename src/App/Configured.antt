-- ===== src/App/Configured.antt =====
-- What the check of the configured annotations gives the reconcilers.
use mathlib.Core.List.Memᴰ
use cascader.Common.{
  ◌≡◌, refl, ◌≢◌, ◌↔◌, ◌⊎◌, inl, inr, Text, none, some, [], ◌∷◌, Memᴰ, arith, text_eq, text_eq_iff,
  if◌then◌else◌,
}
use cascader.Errors.{Result, ok, Result-cases}
use cascader.Dict.{lookup}
use cascader.Dict.Laws.{lookup-insert}
use cascader.Kinds.{Kind, deployment_kind, stateful_set_kind, daemon_set_kind}
use cascader.Utils.{unique_annotations}
use cascader.Utils.Unique.{AllDistinct, values, unique_annotations_iff}
use cascader.Controller.{BaseReconciler}
use cascader.Flags.Options.{Options}
use cascader.App.{configured_annotations, annotation_kind_map, configure, base_reconciler}

-- The key's kind, by the flags.
abbrev pub KindOf : Options → Text → Kind → Type 0
KindOf flags key kind =
    ((key ≡ flags.deployment_annotation) × (kind ≡ deployment_kind))
    ⊎ (((key ≡ flags.stateful_set_annotation) × (kind ≡ stateful_set_kind))
        ⊎ ((key ≡ flags.daemon_set_annotation) × (kind ≡ daemon_set_kind)))

pub configure_cases :
    (flags : Options) (b : BaseReconciler)
    → configure flags ≡ ok b
    → (unique_annotations (configured_annotations flags) ≡ ok tt) × (b ≡ base_reconciler flags)
unfolding configure
configure_cases flags b h =
    elim (Result-cases (unique_annotations (configured_annotations flags))) [
      | inl (u, e) ↦
          let same : ◌≡◌ {A = Result BaseReconciler} (ok (base_reconciler flags)) (ok b) =
            rw (e, configure) at h in
          (e, cc same)
      | inr (x, e) ↦ absurd (ground arith)
    ]

lookup-annotation_kind_map :
    (flags : Options) (key : Text)
    → lookup key (annotation_kind_map flags) ≡ (
        if text_eq flags.stateful_set_annotation key
        then some stateful_set_kind
        else if text_eq flags.deployment_annotation key
        then some deployment_kind
        else if text_eq flags.daemon_set_annotation key
        then some daemon_set_kind
        else none)
unfolding annotation_kind_map lookup
lookup-annotation_kind_map flags key =
    rw
      (
        lookup-insert flags.stateful_set_annotation key,
        lookup-insert flags.deployment_annotation key,
        lookup-insert flags.daemon_set_annotation key,
      )
      refl

-- The keys of the workloads differ from each other and from the two others.
abbrev DistinctKeys : Options → Type 0
DistinctKeys flags =
    (flags.daemon_set_annotation ≢ flags.deployment_annotation)
    × (flags.daemon_set_annotation ≢ flags.stateful_set_annotation)
    × (flags.deployment_annotation ≢ flags.stateful_set_annotation)
    × ((key : Text)
        → Memᴰ key (flags.last_observed_restart_annotation ∷ flags.requeue_after_annotation ∷ [])
        → (flags.daemon_set_annotation ≢ key)
          × (flags.deployment_annotation ≢ key)
          × (flags.stateful_set_annotation ≢ key))

configured-DistinctKeys :
    (flags : Options) → AllDistinct (values (configured_annotations flags)) → DistinctKeys flags
configured-DistinctKeys flags (ds, (dep, (sts, _))) = (
  λ e. ds (Memᴰ.head e),
  λ e. ds (Memᴰ.tail (Memᴰ.head e)),
  λ e. dep (Memᴰ.head e),
  λ key m. (
    λ e. ds (Memᴰ.tail (Memᴰ.tail (Memᴰ.cast e m))),
    λ e. dep (Memᴰ.tail (Memᴰ.cast e m)),
    λ e. sts (Memᴰ.cast e m),
  ),
)

lookup-KindOf :
    (flags : Options) (key : Text) (kind : Kind)
    → DistinctKeys flags
    → (lookup key (annotation_kind_map flags) ≡ some kind) ↔ KindOf flags key kind
lookup-KindOf flags key kind (a, b, c, _) = rw (lookup-annotation_kind_map flags key) (
    ground (
      arith,
      text_eq_iff flags.stateful_set_annotation key,
      text_eq_iff flags.deployment_annotation key,
      text_eq_iff flags.daemon_set_annotation key,
    ))

lookup-other :
    (flags : Options) (key : Text)
    → DistinctKeys flags
    → Memᴰ key (flags.last_observed_restart_annotation ∷ flags.requeue_after_annotation ∷ [])
    → lookup key (annotation_kind_map flags) ≡ none
lookup-other flags key (_, _, _, others) m =
    let (a, b, c) = others key m in
    rw (lookup-annotation_kind_map flags key) (
      ground (
        arith,
        text_eq_iff flags.stateful_set_annotation key,
        text_eq_iff flags.deployment_annotation key,
        text_eq_iff flags.daemon_set_annotation key,
      ))

-- If Run accepts the flags, the map that the reconcilers look annotations up in has the kinds of
-- the three configured keys and no other entry, and the keys by which the program marks a workload
-- and reads its interval are not in it.
pub lookup-configure :
    (flags : Options) (b : BaseReconciler)
    → configure flags ≡ ok b
    → ((key : Text) (kind : Kind)
        → (lookup key b.annotation_kind_map ≡ some kind) ↔ KindOf flags key kind)
      × (lookup b.last_observed_restart_annotation b.annotation_kind_map ≡ none)
      × (lookup b.requeue_after_annotation b.annotation_kind_map ≡ none)
lookup-configure flags b h =
    let (accepted, same) = configure_cases flags b h in
    let (_, distinct) = (unique_annotations_iff (configured_annotations flags)).0 accepted in
    let keys = configured-DistinctKeys flags distinct in
    rw same (
      λ key kind. lookup-KindOf flags key kind keys,
      lookup-other flags flags.last_observed_restart_annotation keys (Memᴰ.head refl),
      lookup-other flags flags.requeue_after_annotation keys (Memᴰ.tail (Memᴰ.head refl)),
    )
