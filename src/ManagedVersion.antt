-- ===== src/ManagedVersion.antt =====
-- controllers/clusterversion_controller.go: the cluster version is kept as a template says, with an
-- overlay from an instant on. The fields of the `ClusterVersionReconciler` and the library dario.cat/mergo
-- are here.
pub mod Overlay
pub mod Reconcile
pub mod Laws
pub mod Settled
use openshift_upgrade_contro.Prelude.{String}
use openshift_upgrade_contro.Api.Managed.{ClusterVersionSpec}
use openshift_upgrade_contro.Exec.{Server, Clock, Result}

pub record Env : Type 0 where
  pub server : Server
  pub clock : Clock
  -- ManagedUpstreamClusterVersionName
  pub upstream_name : String
  -- ManagedClusterVersionName and ManagedClusterVersionNamespace
  pub managed_name : String
  pub managed_namespace : String
  -- mergo.Merge with override: what is left in the first spec, or its error.
  pub merge : ClusterVersionSpec → ClusterVersionSpec → Result ClusterVersionSpec
