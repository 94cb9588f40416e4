-- ===== src/Lib.antt =====
-- Cascader: a Kubernetes operator that restarts the workloads that depend on a restarted one.
--
-- A workload (Deployment, StatefulSet or DaemonSet) names its dependents, the targets, in
-- annotations. A filter lets the updates through that look like a restart; the reconciler marks
-- the workload with the time, extracts the targets, refuses them if a cycle can be reached, waits
-- until the workload is stable, removes the mark, and triggers the reload of each target by
-- an annotation in its pod template.
--
-- Files and the code that they model (paths from the repository's root):
--   Strings, Dict           Go's `strings` functions that are called, and its maps
--   Errors                  every error that the program makes, as a value
--   Kinds                   internal/kinds/kind.go
--   Flags, Flags/Options    internal/flag/flag.go: the default keys, Options, and ParseArgs with
--   Flags/Parse             the flags that it registers
--   Logging                 internal/logging/logger.go: InitLogging and what it asks of zap
--   Objects, Client         the fields of Kubernetes objects that are read, and the client
--   Utils, Utils/Patches    internal/utils/helper.go: ParseTargetRef, GenerateID,
--                           UniqueAnnotations, and the three helpers that patch an annotation
--   Utils/Formats           FormatAnnotations and ToCacheOptions; sort.Strings is in Strings/Sort
--   Workloads               internal/workloads: Stable of the three kinds
--   Targets                 internal/targets: NewTarget, ID and Trigger
--   Metrics                 internal/metrics/metrics.go and the event recorder, as calls
--   Predicates              internal/predicates, and the filters that SetupWithManager of
--   Predicates/Hash         internal/controller/*_reconciler.go chooses; FNV-1a and %x
--   Controller/Extract      internal/controller/base_reconciler.go: extractTargets and
--                           requeueDurationFor
--   Controller/Cycles       internal/controller/cycle_detection.go: checkCycle, detectCycle
--   Controller/Reconcile    base_reconciler.go: ReconcileWorkload, cut at its early returns, and
--                           triggerReloads
--   Controller/Reconcilers  Reconcile in internal/controller/*_reconciler.go
--   App                     internal/app/run.go: the check of the configured annotations, and the
--                           annotation map that Run gives the reconcilers
--   App/Run                 Run as the sequence of its calls to the outside, the options that it
--                           fills, and cmd/main.go
--   Store                   what is assumed of the Kubernetes API, where a theorem says so: the
--                           client reads its own writes. A cluster, abstractly
--   Store/Triggers          the patches and Trigger as writes to it
--   System                  calls of the three reconcilers, in any order, on one cluster
--   Store/Merges            the Kubernetes API with other writers: a patch is merged into the
--                           object as it is stored by then, and a Get sees it from then on
--   Processes               programs that share a state, one access at a time
--   Stepwise                the handlers of internal/controller and Trigger of internal/targets
--                           as such programs: Cycles, Reloads and Requests
--   Overlap                 their calls in any interleaving, with each other and with other
--                           writers
-- The files below these prove what their names say; Tests holds a small cluster and the theorems
-- applied to it.
--
-- State. The cluster is the State of a Client, a record of what Get and Patch do at each kind of
-- object, and of the clock; it is a parameter of all that uses it, as are json.Marshal
-- (`marshal`) and time.ParseDuration (`parse_duration`), the parser of flags (tinyflags) and the
-- answers of the outside to the calls of Run. Nothing is assumed of any of them beyond what a
-- theorem says. Where one says that the client reads its own writes, or that a Get sees each patch
-- that has succeeded, it is about the API server itself: the client that Run hands to the
-- reconcilers, GetClient of the manager, reads from a cache, which may be behind. A call of ReconcileWorkload turns a World, the cluster with the sequence of the
-- calls to the metrics and the event recorder, into an Outcome. An object that Go mutates through
-- a pointer is handed on: the annotations that are read after the mark are those of the marked
-- object.
--
-- Overlapping calls. The controllers of the three kinds work at the same time, and others write to
-- the cluster. For this each handler is modelled a second time, as a program of single accesses:
-- one for each call of the client, each reading of the clock, each metric and each event, in the
-- order of the source. What is computed between the accesses is the same functions. A moment is
-- the shared world with the rest of each call under way; a step is the arrival of a request, one
-- access of one call, or a write of another writer, of which a theorem says what it assumes. Which
-- object a call holds may be out of date by the time it patches it: the patch says only what is to
-- be changed. The manager allows fewer interleavings than the model, one worker for each kind.
--
-- Maps. Go iterates over a map in an order of its own in every run. A map is the list of its
-- entries in one order, and the theorems hold for each. Within one call of checkCycle the model
-- uses one order throughout. `append(path, x)` in detectCycle may share its array between the
-- dependencies of one object; a later one overwrites only what an earlier one left unused, so a
-- path is an immutable list.
--
-- Fuel. The recursion of detectCycle follows the cluster. Its fuel is one more than the objects
-- that can be fetched: the path never repeats an identifier, and all on it but the source were
-- fetched. With less fuel the outcome is `out_of_fuel`, which is distinct from all others. A nil
-- `Spec.Replicas` makes Stable panic, which is an outcome too.
--
-- Not modelled: log lines, contexts, the texts of errors and events beyond their parts, what
-- Prometheus, zap and the manager of controller-runtime do with what they are given, and the
-- usage texts of the flags. The queue of the manager, which decides when a request is served
-- and served again, is not modelled: requests may come at any time. test/ has helpers for the
-- end-to-end tests.
pub mod Common
pub mod Errors
pub mod Strings
pub mod Dict
pub mod Kinds
pub mod Logging
pub mod Objects
pub mod Client
pub mod Utils
pub mod Workloads
pub mod Flags
pub mod Targets
pub mod Metrics
pub mod Predicates
pub mod Processes
pub mod Controller
pub mod App
pub mod Store
pub mod Stepwise
pub mod System
pub mod Overlap
pub mod Tests
