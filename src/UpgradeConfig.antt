-- ===== src/UpgradeConfig.antt =====
-- controllers/upgradeconfig_controller.go, a child for each of its parts. The cron parser, the time
-- zones, the order of versions and the libraries of Kubernetes are fields of `Env`.
pub mod Select
pub mod Window
pub mod Cleanup
pub mod Reconcile
use openshift_upgrade_contro.Prelude.{ℕ, String, Bool, Option}
use openshift_upgrade_contro.Prelude.Int.{ℤ}
use openshift_upgrade_contro.Prelude.Dict.{Dict}
use openshift_upgrade_contro.Api.Time.{Time}
use openshift_upgrade_contro.Api.Meta.{ObjectMeta, LabelSelector}
use openshift_upgrade_contro.Api.Config.{UpgradeConfig}
use openshift_upgrade_contro.Exec.{Server, Clock, Result}
use openshift_upgrade_contro.UpgradeJob.Env.{Apimeta}

pub record Env : Type 0 where
  pub server : Server
  pub clock : Clock
  -- ManagedUpstreamClusterVersionName
  pub cluster_version_name : String
  pub apimeta : Apimeta
  -- metav1.LabelSelectorAsSelector and the `Matches` of the selector; `none` is a parse error.
  pub as_selector : Option LabelSelector → Option (Dict → Bool)
  -- metav1.IsControlledBy, of an object and its owner
  pub is_controlled_by : ObjectMeta → ObjectMeta → Bool
  -- ctrl.SetControllerReference
  pub set_controller_reference : UpgradeConfig → ObjectMeta → Result ObjectMeta
  -- golang.org/x/mod/semver
  pub semver_compare : String → String → ℤ
  -- time.Local and time.LoadLocation; a location stands for itself by its name
  pub local : String
  pub load_location : String → Result String
  -- cron.ParseStandard and the `Next` of its schedule for an instant in a location
  pub parse_standard : String → Result (String → Time → Time)
  -- the week of ISOWeek for an instant in a location
  pub iso_week_of : String → Time → ℕ
