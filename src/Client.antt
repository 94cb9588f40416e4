-- ===== src/Client.antt =====
-- The Kubernetes client (sigs.k8s.io/controller-runtime client.Client) and the clock, which are
-- not part of the repository: parameters of all that uses them. `State` is the cluster with all
-- that answers depend on. A patch is given the deep copy made before the change and the changed
-- object, as client.MergeFrom is, and answers with the object that Patch writes back into the
-- caller's variable, or with an error.
use cascader.Common.{Text}
use cascader.Errors.{Result}
use cascader.Objects.{Deployment, StatefulSet, DaemonSet}

-- Get and Patch at one type of object. Get takes a namespace and a name.
pub record Resource (S O : Type 0) : Type 0 where
  pub get : S → Text → Text → Result O
  pub patch : S → O → O → S × Result O

pub record Client : Type 1 where
  pub State : Type 0
  pub deployments : Resource State Deployment
  pub stateful_sets : Resource State StatefulSet
  pub daemon_sets : Resource State DaemonSet
  -- time.Now().Format(time.RFC3339)
  pub now : State → Text
