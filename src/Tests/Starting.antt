-- ===== src/Tests/Starting.antt =====
-- Run with the parser of the tests, and the reconcilers that it sets up.
use cascader.Common.{
  contains, ◌≡◌, ◌↔◌, ◌⊎◌, refl, Text, codes, Bool, false, Option, none, some, List, [], ◌∷◌, Memᴰ,
}
use cascader.Errors.{Error, ok, manager_error}
use cascader.Dict.{Dict, lookup, insert}
use cascader.Kinds.{Kind, deployment_kind}
use cascader.Strings.{join, split, trim_space}
use cascader.Strings.Sort.{sort, text_leb}
use cascader.Flags.{last_observed_restart_annotation, requeue_after_annotation}
use cascader.Flags.Parse.{parse_args}
use cascader.Utils.{unique_annotations, generate_id, parse_target_ref}
use cascader.Utils.Formats.{format_annotations}
use cascader.Targets.{target_id, fetch_meta, new_target}
use cascader.Logging.{init_logging}
use cascader.Controller.{BaseReconciler}
use cascader.Controller.Extract.{extract_targets}
use cascader.Controller.Cycles.{no_cycle, check_cycle, detect_cycle, dependencies}
use cascader.App.{configure, base_reconciler, annotation_kind_map}
use cascader.App.Configured.{KindOf, lookup-configure}
use cascader.App.Run.{
  Action, Setup, setup_with_manager, start, attempt, run_manager, run_with, run, main,
}
use cascader.App.Plan.{plan, prepared, Performed, run_with-Performed}
use cascader.App.Endings.{Asked, Ran, main-succeeds_iff}
use cascader.Tests.{find, client, chain}
use cascader.Tests.Cycles.{source, targets}
use cascader.Tests.Options.{parser, version, args, options}

abbrev pub no_error : List Action → Option Error
no_error done = none

-- The manager stops with an error.
abbrev start_fails : List Action → Option Error
start_fails [] = none
start_fails (start ∷ []) = some (manager_error (codes "lost the lease"))
start_fails (_ ∷ rest) = start_fails rest

abbrev pub never_asked : Error → Bool
never_asked e = false

abbrev pub reconciler : BaseReconciler
reconciler = base_reconciler options

options_accepted : configure options ≡ ok reconciler
unfolding configure unique_annotations lookup insert
options_accepted = refl

lookup-configure_example :
    ((key : Text) (kind : Kind)
      → (lookup key reconciler.annotation_kind_map ≡ some kind) ↔ KindOf options key kind)
    × (lookup last_observed_restart_annotation reconciler.annotation_kind_map ≡ none)
    × (lookup requeue_after_annotation reconciler.annotation_kind_map ≡ none)
lookup-configure_example = lookup-configure options reconciler options_accepted

run_with-Performed_example :
    Performed start_fails
      (prepared options)
      (plan options reconciler)
      (run_with start_fails options)
run_with-Performed_example = run_with-Performed start_fails options reconciler options_accepted

main-succeeds_iff_example : ((main no_error parser never_asked never_asked version args).1 ≡ 0) ↔ (
    Asked no_error parser never_asked never_asked version args
    ⊎ Ran no_error parser never_asked never_asked version args)
main-succeeds_iff_example = main-succeeds_iff no_error parser never_asked never_asked version args

abbrev pub deployment_setup : Setup
deployment_setup = record {
  kind = deployment_kind;
  recorder = codes "deployment-controller";
  reconciler = reconciler;
}

pub set_up :
    Memᴰ
      (setup_with_manager deployment_setup)
      (run no_error parser never_asked never_asked version args).0
unfolding run run_with run_manager attempt configure unique_annotations lookup insert parse_args
    init_logging contains
set_up = Memᴰ.tail (Memᴰ.tail (Memᴰ.tail (Memᴰ.tail (Memᴰ.tail (Memᴰ.head refl)))))

chain_accepted_here : check_cycle reconciler client chain 4 source targets ≡ no_cycle
unfolding check_cycle target_id generate_id detect_cycle contains dependencies fetch_meta find
    extract_targets annotation_kind_map insert lookup split trim_space new_target parse_target_ref
chain_accepted_here = refl

abbrev two_entries : Dict Text
two_entries =
    (codes "StatefulSet", codes "example.com/sts")
    ∷ (codes "Deployment", codes "example.com/dep")
    ∷ []

-- The entries are put in order.
two_entries_formatted :
    format_annotations two_entries ≡ codes "Deployment=example.com/dep, StatefulSet=example.com/sts"
unfolding format_annotations join sort text_leb
two_entries_formatted = refl
