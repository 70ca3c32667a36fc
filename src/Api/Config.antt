-- ===== src/Api/Config.antt =====
-- api/v1beta1/upgradeconfig_types.go
use openshift_upgrade_contro.Prelude.{String, Bool, Option, none, some, List}
use openshift_upgrade_contro.Prelude.Int.{ℤ, pos}
use openshift_upgrade_contro.Prelude.Dict.{Dict}
use openshift_upgrade_contro.Api.Time.{Time, Duration}
use openshift_upgrade_contro.Api.Meta.{ObjectMeta}
use openshift_upgrade_contro.Api.Job.{UpgradeJobConfig}

pub record UpgradeConfigSchedule : Type 0 where
  pub cron : String
  pub iso_week : String
  pub location : String
  pub suspend : Bool

-- The template's metadata is used for its labels and annotations alone.
pub record UpgradeConfigJobTemplate : Type 0 where
  pub labels : Dict
  pub annotations : Dict
  pub config : UpgradeJobConfig

pub record UpgradeConfigSpec : Type 0 where
  pub schedule : UpgradeConfigSchedule
  pub pin_version_window : Duration
  pub max_scheduling_delay : Duration
  pub max_upgrade_start_delay : Duration
  pub successful_jobs_history_limit : Option ℤ
  pub job_template : UpgradeConfigJobTemplate

unfoldable pub get_successful_jobs_history_limit : UpgradeConfigSpec → ℤ
get_successful_jobs_history_limit s = elim (s.successful_jobs_history_limit) [
  | none ↦ pos 4
  | some n ↦ n
]

-- `last_scheduled_upgrade` and `next_possible_schedules` are the fields of the status.
pub record UpgradeConfig : Type 0 where
  pub meta : ObjectMeta
  pub spec : UpgradeConfigSpec
  pub last_scheduled_upgrade : Option Time
  pub next_possible_schedules : List Time
