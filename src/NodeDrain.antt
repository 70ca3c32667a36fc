-- ===== src/NodeDrain.antt =====
-- controllers/node_force_drain_controller.go: pods that keep a draining node busy are deleted after a
-- grace period. The fields of the `NodeForceDrainReconciler` and the libraries it calls are here: label
-- selectors, JSON and gojq.
mod Queries
pub mod Observe
pub mod Grace
pub mod Candidates
pub mod Delete
pub mod Allowed
pub mod Reconcile
pub mod Safety
pub mod Requeue
pub mod Missing
use openshift_upgrade_contro.Prelude.{String, Option, Bool}
use openshift_upgrade_contro.Prelude.Dict.{Dict}
use openshift_upgrade_contro.Json.{Json}
use openshift_upgrade_contro.Api.Time.{Duration}
use openshift_upgrade_contro.Api.Meta.{LabelSelector}
use openshift_upgrade_contro.Api.Upstream.{Pod}
use openshift_upgrade_contro.Exec.{Server, Clock, Result}
unfoldable pub use Queries.*

-- The methods of labels.Selector that are called: Matches and Empty.
pub record Selector : Type 0 where
  pub matches : Dict → Bool
  pub is_empty : Bool

pub record Env : Type 0 where
  pub server : Server
  pub clock : Clock
  -- MaxReconcileIntervalDuringActiveDrain
  pub max_reconcile_interval : Duration
  -- metav1.LabelSelectorAsSelector; `none` is a parse error.
  pub as_selector : LabelSelector → Option Selector
  -- gojq.Parse; `none` is a parse error.
  pub parse_query : String → Option Query
  -- json.Marshal of a pod, and json.Unmarshal
  pub marshal_pod : Pod → Result String
  pub unmarshal : String → Result Json
