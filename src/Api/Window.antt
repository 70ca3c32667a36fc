-- ===== src/Api/Window.antt =====
-- api/v1beta1/upgradesuspensionwindow_types.go: the spec, and the names in the status.
use openshift_upgrade_contro.Prelude.{String, Option, List}
use openshift_upgrade_contro.Api.Time.{Time}
use openshift_upgrade_contro.Api.Meta.{ObjectMeta, LabelSelector}

pub record UpgradeSuspensionWindow : Type 0 where
  pub meta : ObjectMeta
  pub start : Time
  pub end : Time
  pub reason : String
  pub config_selector : Option LabelSelector
  pub job_selector : Option LabelSelector
  pub matching_configs : List String
  pub matching_jobs : List String
