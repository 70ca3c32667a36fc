-- ===== src/Api/Drain.antt =====
-- api/v1beta1/node_force_drain_types.go
use openshift_upgrade_contro.Prelude.{String, List}
use openshift_upgrade_contro.Api.Time.{Time, Duration}
use openshift_upgrade_contro.Api.Meta.{ObjectMeta, LabelSelector}

pub record NodeForceDrainSpec : Type 0 where
  pub node_selector : LabelSelector
  pub namespace_selector : LabelSelector
  pub pod_jq_selector : String
  pub node_drain_grace_period : Duration
  pub pod_force_delete_grace_period : Duration

pub record ObservedNodeDrain : Type 0 where
  pub node_name : String
  pub last_applied_drain : String
  pub observed_time : Time

-- `last_observed_node_drain` is the status.
pub record NodeForceDrain : Type 0 where
  pub meta : ObjectMeta
  pub spec : NodeForceDrainSpec
  pub last_observed_node_drain : List ObservedNodeDrain
