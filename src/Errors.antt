-- ===== src/Errors.antt =====
-- The errors of the program as values: one constructor for each `errors.New` and `fmt.Errorf` of
-- the source, with the values that its format prints and the error that it wraps.
use cascader.Common.{◌≡◌, refl, ◌⊎◌, inl, inr, Text}

-- internal/controller/cycle_detection.go: CycleKind
pub data CycleKind : Type 0 where
  direct_kind indirect_kind : CycleKind

-- internal/controller/cycle_detection.go: CycleError
pub record CycleError : Type 0 where
  pub kind : CycleKind
  pub source_id : Text
  pub path : Text

pub data Error : Type 0 where
  -- what the Kubernetes client reports: IsNotFound holds of the first only
  api_not_found : Error
  api_failure : Text → Error
  -- what the tinyflags library reports
  flag_error : Text → Error
  -- what controller-runtime reports while the manager is set up or runs
  manager_error : Text → Error
  -- flag
  requeue_default_too_short : Error
  -- utils
  no_annotations : Error
  duplicate_annotation : Text → Text → Text → Error
  invalid_format : Text → Error
  patch_annotation_failed : Text → Text → Error → Error
  delete_annotation_failed : Text → Error → Error
  -- targets
  invalid_reference : Error → Error
  unsupported_target_kind : Text → Error
  fetch_target_failed : Text → Text → Text → Error → Error
  patch_target_failed : Text → Text → Text → Error → Error
  -- predicates
  unsupported_object : Error
  serialize_failed : Error → Error
  -- controller
  create_target_failed : Error → Error
  create_targets_failed : Error → Error
  patch_restart_failed : Error → Error
  invalid_requeue : Text → Error
  fetch_resource_failed : Text → Error → Error
  extract_dependencies_failed : Error → Error
  cycle_check_failed : Error → Error
  cycle : CycleError → Error
  fetch_workload_failed : Text → Error

pub data Result {ℓ} (A : Type ℓ) : Type ℓ where
  ok : A → Result A
  err : Error → Result A

pub Result-cases {ℓ} :
    {A : Type ℓ} (r : Result A) → ((a : A) × (r ≡ ok a)) ⊎ ((e : Error) × (r ≡ err e))
Result-cases (ok a) = inl (a, refl)
Result-cases (err e) = inr (e, refl)
