-- ===== src/Api/Job.antt =====
-- api/v1beta1/upgradejob_types.go
use openshift_upgrade_contro.Prelude.{String, Bool, true, Option, none, some, List}
use openshift_upgrade_contro.Api.Time.{Time, Duration}
use openshift_upgrade_contro.Api.Meta.{ObjectMeta, Condition, LabelSelector}
use openshift_upgrade_contro.Api.Upstream.{Update}

pub record DelayUpgradeSpec : Type 0 where
  pub delay_min : Duration
  pub delay_max : Duration

pub record MachineConfigPoolSpec : Type 0 where
  pub match_labels : Option LabelSelector
  pub delay_upgrade : DelayUpgradeSpec

pub record HealthCheckSpec : Type 0 where
  pub timeout : Duration
  pub skip_degraded_operators_check : Bool

pub record PauseOnFailureSpec : Type 0 where
  pub enabled : Bool
  pub selector : LabelSelector

pub record UpgradeJobConfig : Type 0 where
  pub upgrade_timeout : Duration
  pub pre_upgrade_health_checks : HealthCheckSpec
  pub post_upgrade_health_checks : HealthCheckSpec
  pub machine_config_pools : List MachineConfigPoolSpec
  pub pause_machine_config_pools_on_failure : PauseOnFailureSpec

pub record UpgradeJobSpec : Type 0 where
  pub start_after : Time
  pub start_before : Time
  pub desired_version : Option Update
  pub desired_version_check_availability : Option Bool
  pub config : UpgradeJobConfig

abbrev pub get_desired_version_check_availability : Option Bool → Bool
get_desired_version_check_availability none = true
get_desired_version_check_availability (some b) = b

pub data TrackerStatus : Type 0 where
  complete failed active : TrackerStatus

pub record HookJobTracker : Type 0 where
  pub hook_event : String
  pub tracking_key : String
  pub upgrade_job_hook_name : String
  pub status : TrackerStatus
  pub message : String
  pub reason : String

-- `conditions` and `hook_job_tracker` are the fields of the status.
pub record UpgradeJob : Type 0 where
  pub api_version : String
  pub kind : String
  pub meta : ObjectMeta
  pub spec : UpgradeJobSpec
  pub conditions : List Condition
  pub hook_job_tracker : List HookJobTracker

-- Condition types.
abbrev pub condition_failed : String
condition_failed = "Failed"

abbrev pub condition_succeeded : String
condition_succeeded = "Succeeded"

abbrev pub condition_started : String
condition_started = "Started"

abbrev pub condition_pre_health_check_done : String
condition_pre_health_check_done = "PreHealthCheckDone"

abbrev pub condition_upgrade_completed : String
condition_upgrade_completed = "UpgradeCompleted"

abbrev pub condition_post_health_check_done : String
condition_post_health_check_done = "PostHealthCheckDone"

abbrev pub condition_paused : String
condition_paused = "Paused"

abbrev pub condition_machine_config_pools_paused : String
condition_machine_config_pools_paused = "MachineConfigPoolsPaused"

-- `HookJobTrackerReasonPodFailurePolicy`
abbrev pub reason_pod_failure_policy : String
reason_pod_failure_policy = "PodFailurePolicy"
