-- ===== src/Metrics/Jobs.antt =====
-- `jobState`, `jobStateReason` and `jobHasMatchingDisruptiveHook`.
use openshift_upgrade_contro.Prelude.{
  String, Bool, false, ◌&&◌, Option, none, some, List, any_of, if◌then◌else◌,
}
use openshift_upgrade_contro.Prelude.Dict.{Dict}
use openshift_upgrade_contro.Api.Meta.{Condition, is_true}
use openshift_upgrade_contro.Api.Job.{
  UpgradeJob, condition_succeeded, condition_failed, condition_paused, condition_started,
}
use openshift_upgrade_contro.Api.Hook.{UpgradeJobHook, would_execute}
use openshift_upgrade_contro.Exec.{option_case}
use openshift_upgrade_contro.UpgradeJob.Status.{job_claimer}
use openshift_upgrade_contro.Metrics.{Env}

module _ (env : Env) where
  abbrev is_condition_true : UpgradeJob → String → Bool
  is_condition_true job t = env.apimeta.is_status_condition_true t job.conditions

  -- The reason of a condition that stands and is true.
  abbrev reason_of : UpgradeJob → String → Option String
  reason_of job t =
      option_case (env.apimeta.find_status_condition t job.conditions) none
        (λ (c : Condition). if is_true c.status then some c.reason else none)

  unfoldable pub job_state_reason : UpgradeJob → String
  job_state_reason job =
      option_case (reason_of job condition_succeeded)
        (option_case (reason_of job condition_failed) "" (λ r. r)) (λ r. r)

  unfoldable pub job_state : UpgradeJob → String
  job_state job =
      if is_condition_true job condition_succeeded
      then "succeeded"
      else if is_condition_true job condition_failed
      then "failed"
      else if is_condition_true job condition_paused
      then "paused"
      else if is_condition_true job condition_started
      then "active"
      else "pending"

  -- The body of the loop; a selector that cannot be parsed matches nothing.
  unfoldable pub is_disruptive_for : UpgradeJob → UpgradeJobHook → Bool
  is_disruptive_for job hook =
      option_case (env.as_selector (some hook.spec.selector)) false
        (λ (matches : Dict → Bool). matches job.meta.labels)
      && (would_execute hook (job_claimer job) && hook.spec.disruptive)

  unfoldable pub job_has_matching_disruptive_hook : UpgradeJob → List UpgradeJobHook → Bool
  unfolding is_disruptive_for
  job_has_matching_disruptive_hook job hooks = any_of (is_disruptive_for job) hooks
