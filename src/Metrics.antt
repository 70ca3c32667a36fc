-- ===== src/Metrics.antt =====
-- The metrics that the collectors send to Prometheus. A channel is the list of what was sent, in order.
pub mod Jobs
pub mod Collect
pub mod Objects
pub mod Laws
pub mod Described
use openshift_upgrade_contro.Prelude.{String, Bool, true, false, Option, List, [], ◌∷◌}
use openshift_upgrade_contro.Prelude.Int.{ℤ, pos}
use openshift_upgrade_contro.Prelude.Dict.{Dict}
use openshift_upgrade_contro.Api.Time.{Time, Duration}
use openshift_upgrade_contro.Api.Meta.{LabelSelector}
use openshift_upgrade_contro.Exec.{Server, Error}
use openshift_upgrade_contro.UpgradeJob.Env.{Apimeta}

-- The descriptors, by the names of their variables.
pub data Desc : Type 0 where
  cluster_upgrading_desc pools_upgrading_desc pools_paused_desc job_state_desc job_start_after_desc
        job_start_before_desc window_info_desc window_start_desc window_end_desc
        window_matching_configs_desc config_info_desc config_pin_version_window_desc
        config_next_possible_schedule_desc node_draining_desc cv_info_desc cv_overlay_desc
        machine_info_desc :
      Desc

-- The names of the metrics.
unfoldable pub fq_name : Desc → String
fq_name cluster_upgrading_desc = "openshift_upgrade_controller_cluster_upgrading"
fq_name pools_upgrading_desc = "openshift_upgrade_controller_machine_config_pools_upgrading"
fq_name pools_paused_desc = "openshift_upgrade_controller_machine_config_pools_paused"
fq_name job_state_desc = "openshift_upgrade_controller_upgradejob_state"
fq_name job_start_after_desc =
    "openshift_upgrade_controller_upgradejob_start_after_timestamp_seconds"
fq_name job_start_before_desc =
    "openshift_upgrade_controller_upgradejob_start_before_timestamp_seconds"
fq_name window_info_desc = "openshift_upgrade_controller_upgradesuspensionwindow_info"
fq_name window_start_desc =
    "openshift_upgrade_controller_upgradesuspensionwindow_start_timestamp_seconds"
fq_name window_end_desc =
    "openshift_upgrade_controller_upgradesuspensionwindow_end_timestamp_seconds"
fq_name window_matching_configs_desc =
    "openshift_upgrade_controller_upgradesuspensionwindow_matching_config"
fq_name config_info_desc = "openshift_upgrade_controller_upgradeconfig_info"
fq_name config_pin_version_window_desc =
    "openshift_upgrade_controller_upgradeconfig_pin_version_window_seconds"
fq_name config_next_possible_schedule_desc =
    "openshift_upgrade_controller_upgradeconfig_next_possible_schedule_timestamp_seconds"
fq_name node_draining_desc = "openshift_upgrade_controller_node_draining"
fq_name cv_info_desc = "openshift_upgrade_controller_cluster_version_info"
fq_name cv_overlay_desc = "openshift_upgrade_controller_cluster_version_overlay_timestamp_seconds"
fq_name machine_info_desc = "openshift_upgrade_controller_machine_info"

-- The labels that the metrics of a cluster version share.
abbrev pub cv_fields : List String
cv_fields = "baseline_capability_set" ∷ "channel" ∷ "cluster_id" ∷ "upstream" ∷ []

-- The names of the labels.
unfoldable pub label_names : Desc → List String
label_names cluster_upgrading_desc = []
label_names pools_upgrading_desc = "pool" ∷ []
label_names pools_paused_desc = "pool" ∷ []
label_names job_state_desc =
    "upgradejob" ∷ "start_after" ∷ "start_before" ∷ "desired_version_force"
    ∷ "desired_version_image" ∷ "desired_version_version" ∷ "state" ∷ "reason"
    ∷ "matches_disruptive_hooks" ∷ []
label_names job_start_after_desc = "upgradejob" ∷ []
label_names job_start_before_desc = "upgradejob" ∷ []
label_names window_info_desc = "upgradesuspensionwindow" ∷ "reason" ∷ []
label_names window_start_desc = "upgradesuspensionwindow" ∷ []
label_names window_end_desc = "upgradesuspensionwindow" ∷ []
label_names window_matching_configs_desc = "upgradesuspensionwindow" ∷ "config" ∷ []
label_names config_info_desc = "upgradeconfig" ∷ "cron" ∷ "location" ∷ "suspended" ∷ []
label_names config_pin_version_window_desc = "upgradeconfig" ∷ []
label_names config_next_possible_schedule_desc = "upgradeconfig" ∷ "n" ∷ "timestamp" ∷ []
label_names node_draining_desc = "node" ∷ []
label_names cv_info_desc = "cluster_version" ∷ cv_fields
label_names cv_overlay_desc = "cluster_version" ∷ "from" ∷ cv_fields
label_names machine_info_desc = "machine" ∷ "machineset" ∷ "node_ref" ∷ "provider_id" ∷ "phase" ∷ []

-- A value that is whole, and the seconds of a duration as a floating-point number.
pub data Value : Type 0 where
  whole : ℤ → Value
  seconds_of : Duration → Value

-- prometheus.MustNewConstMetric for a gauge, and prometheus.NewInvalidMetric
pub data Metric : Type 0 where
  gauge : Desc → Value → List String → Metric
  invalid_metric : Desc → Error → Metric

-- boolToFloat64
abbrev pub bool_to_float : Bool → Value
bool_to_float true = whole (pos 1)
bool_to_float false = whole (pos 0)

-- strconv.FormatBool
abbrev pub format_bool : Bool → String
format_bool true = "true"
format_bool false = "false"

pub record Env : Type 0 where
  pub server : Server
  -- ManagedUpstreamClusterVersionName, ManagedClusterVersionName and ManagedClusterVersionNamespace
  pub upstream_name : String
  pub managed_name : String
  pub managed_namespace : String
  -- MachineNamespace
  pub machine_namespace : String
  pub apimeta : Apimeta
  -- metav1.LabelSelectorAsSelector and the `Matches` of the selector; `none` is a parse error.
  pub as_selector : Option LabelSelector → Option (Dict → Bool)
  -- t.UTC().Format(time.RFC3339)
  pub format_time : Time → String
