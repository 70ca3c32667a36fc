-- ===== src/UpgradeJob/Health.antt =====
-- `runHealthCheck`, before and after the upgrade.
use openshift_upgrade_contro.Prelude.{String, ◌<>◌, Bool, true, false, ◌||◌, not, if◌then◌else◌}
use openshift_upgrade_contro.Api.Time.{add_time, after}
use openshift_upgrade_contro.Api.Meta.{status_true, status_false, is_true}
use openshift_upgrade_contro.Api.Upstream.{ClusterVersion}
use openshift_upgrade_contro.Api.Job.{UpgradeJob, HealthCheckSpec}
use openshift_upgrade_contro.Exec.{M, ◌>>=◌, pure, read_now, match_option, when◌then◌else◌}
use openshift_upgrade_contro.HealthCheck.{is_operator_degraded}
use openshift_upgrade_contro.UpgradeJob.Env.{Env}
use openshift_upgrade_contro.UpgradeJob.Status.{find_condition, mark, condition, failed_condition}

module _ (env : Env) where
  -- Whether the check is done, and the job after the call.
  unfoldable pub run_health_check :
      UpgradeJob → ClusterVersion → HealthCheckSpec → String → String → M (Bool × UpgradeJob)
  run_health_check uj version config type failed_reason =
      match_option (find_condition env type uj)
        (do
          uj' ← mark env uj (condition type status_false "InProgress" "Health checks started")
          pure (false, uj'))
        (λ health_cond.
          when is_true health_cond.status
          then pure (true, uj)
          else when not (config.skip_degraded_operators_check || not (is_operator_degraded version))
          then (do
            now ← read_now env.clock
            when after now (add_time health_cond.last_transition_time config.timeout)
                then (do
                  uj' ← mark env uj (
                      failed_condition env failed_reason
                        ("Health checks timed out after " <> env.format_duration config.timeout))
                  pure (false, uj'))
                else pure (false, uj))
          else (do
            uj' ← mark env uj (condition type status_true "Completed" "Health checks ok")
            pure (true, uj')))
