-- ===== src/Api/Upstream.antt =====
-- The objects of other projects: OpenShift's ClusterVersion and MachineConfigPool, batch Jobs, and
-- nodes and pods.
use openshift_upgrade_contro.Prelude.{String, ℕ, Bool, Option, List}
use openshift_upgrade_contro.Prelude.Dict.{Dict}
use openshift_upgrade_contro.Json.{Json}
use openshift_upgrade_contro.Prelude.Int.{ℤ}
use openshift_upgrade_contro.Api.Meta.{ObjectMeta, ConditionStatus}

-- configv1.Update
pub record Update : Type 0 where
  pub architecture : String
  pub version : String
  pub image : String
  pub force : Bool

-- configv1.Release
pub record Release : Type 0 where
  pub version : String
  pub image : String

-- configv1.UpdateState: "Completed" and "Partial".
pub data UpdateState : Type 0 where
  completed_update partial_update : UpdateState

-- configv1.UpdateHistory
pub record UpdateHistory : Type 0 where
  pub state : UpdateState
  pub version : String
  pub image : String

-- configv1.ClusterOperatorStatusCondition
pub record OperatorCondition : Type 0 where
  pub type : String
  pub status : ConditionStatus

-- configv1.ClusterVersionCapabilitiesSpec
pub record Capabilities : Type 0 where
  pub baseline_capability_set : String
  pub additional_enabled_capabilities : Option (List String)

-- configv1.SignatureStore: its address, and the name of the config map with its certificates.
pub record SignatureStore : Type 0 where
  pub url : String
  pub ca : String

-- configv1.ComponentOverride
pub record ComponentOverride : Type 0 where
  pub kind : String
  pub group : String
  pub namespace : String
  pub name : String
  pub unmanaged : Bool

-- The fields of configv1.ClusterVersionSpec but the desired update. A slice that is nil is `none`.
pub record ClusterVersionSettings : Type 0 where
  pub cluster_id : String
  pub upstream : String
  pub channel : String
  pub capabilities : Option Capabilities
  pub signature_stores : Option (List SignatureStore)
  pub overrides : Option (List ComponentOverride)

-- configv1.ClusterVersion: its metadata, its spec (`desired_update` and `settings`) and its status.
pub record ClusterVersion : Type 0 where
  pub meta : ObjectMeta
  pub desired_update : Option Update
  pub settings : ClusterVersionSettings
  pub history : List UpdateHistory
  pub available_updates : List Release
  pub conditions : List OperatorCondition

-- machineconfigurationv1.MachineConfigPool
pub record MachineConfigPool : Type 0 where
  pub meta : ObjectMeta
  pub paused : Bool
  pub machine_count : ℕ
  pub updated_machine_count : ℕ

-- corev1.EnvVar and corev1.Container
pub record EnvVar : Type 0 where
  pub name : String
  pub value : String

pub record Container : Type 0 where
  pub name : String
  pub env : List EnvVar

-- batchv1.JobCondition
pub record JobCondition : Type 0 where
  pub type : String
  pub status : ConditionStatus
  pub reason : String
  pub message : String

-- batchv1.JobTemplateSpec: its metadata and the containers of its pod template.
pub record JobTemplate : Type 0 where
  pub labels : Dict
  pub annotations : Dict
  pub init_containers : List Container
  pub containers : List Container

-- batchv1.Job
pub record Job : Type 0 where
  pub meta : ObjectMeta
  pub init_containers : List Container
  pub containers : List Container
  pub conditions : List JobCondition

-- corev1.Node
pub record Node : Type 0 where
  pub meta : ObjectMeta

-- machinev1beta1.Machine: the name of the node it is, spec.providerID and status.phase.
pub record Machine : Type 0 where
  pub meta : ObjectMeta
  pub node_ref : Option String
  pub provider_id : Option String
  pub phase : Option String

-- corev1.Pod; `content` is the rest of it, which the controllers only show to queries.
pub record Pod : Type 0 where
  pub meta : ObjectMeta
  pub deletion_grace_period_seconds : Option ℤ
  pub content : Json
