-- ===== src/Tests/Cycles.antt =====
-- checkCycle on small clusters.
use cascader.Common.{contains, ◌≡◌, refl, ◌≢◌, ◌↔◌, Text, codes, List, [], ◌∷◌, arith}
use cascader.Errors.{CycleError, indirect_kind, cycle}
use cascader.Dict.{lookup}
use cascader.Strings.{split, trim_space, join}
use cascader.Utils.{generate_id, parse_target_ref}
use cascader.Targets.{Target, deployment_target, target_id, fetch_meta, new_target}
use cascader.Controller.Extract.{extract_targets}
use cascader.Controller.Cycles.{
  no_cycle, refused, undecided, check_cycle, detect_cycle, dependencies,
}
use cascader.Controller.Cycles.Sound.{Reported, check_cycle-Reported}
use cascader.Controller.Cycles.Termination.{check_cycle_decides}
use cascader.Controller.Cycles.Decides.{IsAcyclic, check_cycle_iff}
use cascader.Tests.{client, reconciler, find, chain, ring, ids_of, cluster_Covers}

abbrev pub source : Text
source = codes "Deployment/ns/a"

abbrev pub targets : List Target
targets = deployment_target (codes "ns") (codes "b") ∷ []

abbrev ring_error : CycleError
ring_error = record {
  kind = indirect_kind;
  source_id = source;
  path = codes "Deployment/ns/a -> Deployment/ns/b -> Deployment/ns/a";
}

check_cycle_iff_example :
    (check_cycle reconciler client chain 4 source targets ≡ no_cycle)
    ↔ IsAcyclic reconciler client chain source targets
check_cycle_iff_example =
    check_cycle_iff reconciler client chain source (ids_of chain) (cluster_Covers reconciler chain)
      4 targets (omega arith)

check_cycle_decides_example : check_cycle reconciler client ring 3 source targets ≢ undecided
check_cycle_decides_example =
    check_cycle_decides reconciler client ring source (ids_of ring) (cluster_Covers reconciler ring)
      3 targets (omega arith)

-- The chain is accepted.
pub chain_accepted : check_cycle reconciler client chain 4 source targets ≡ no_cycle
unfolding check_cycle target_id generate_id detect_cycle contains dependencies fetch_meta find
    extract_targets lookup split trim_space new_target parse_target_ref
chain_accepted = refl

-- The ring is refused.
ring_refused : check_cycle reconciler client ring 3 source targets ≡ refused (cycle ring_error)
unfolding check_cycle target_id generate_id detect_cycle contains dependencies fetch_meta find
    extract_targets lookup split trim_space new_target parse_target_ref join
ring_refused = refl

check_cycle-Reported_example : Reported reconciler client ring source targets ring_error
check_cycle-Reported_example =
    check_cycle-Reported reconciler client ring 3 source targets ring_error ring_refused
