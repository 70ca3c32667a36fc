-- ===== src/UpgradeJob/Failure.antt =====
-- `pauseMachinePoolsOnFailure`.
use openshift_upgrade_contro.Prelude.{
  ◌==◌, str_eq, Bool, true, false, ◌&&◌, ◌||◌, not, some, List, [], ◌∷◌, ◌++◌, if◌then◌else◌,
}
use openshift_upgrade_contro.Api.Meta.{status_true, is_true}
use openshift_upgrade_contro.Api.Upstream.{MachineConfigPool}
use openshift_upgrade_contro.Api.Job.{UpgradeJob, condition_machine_config_pools_paused}
use openshift_upgrade_contro.Exec.{
  Error, failure, wrap, M, ◌>>=◌, pure, raise, attempt, context, send, list_pools, update_pool,
  option_case, result_case, return_errors, match_option, when◌then◌else◌,
}
use openshift_upgrade_contro.UpgradeJob.Env.{Env}
use openshift_upgrade_contro.UpgradeJob.Status.{
  set_status_condition, update_status, condition, find_condition,
}

module _ (env : Env) where
  unfoldable pub already_paused_on_failure : UpgradeJob → Bool
  already_paused_on_failure uj =
      option_case (find_condition env condition_machine_config_pools_paused uj) false
        (λ c. str_eq c.reason "PausedOnFailure" && is_true c.status)

  -- Pools that are paused or up to date are left alone.
  unfoldable pub pause_pools : List MachineConfigPool → M (List Error)
  pause_pools [] = pure []
  pause_pools (mcp ∷ mcps) =
      let rest = pause_pools mcps in
      when mcp.paused || (mcp.machine_count == mcp.updated_machine_count) then rest else (do
        r ← attempt (send env.server (update_pool (record mcp { paused = true })))
        more ← rest
        pure (result_case r (λ e. wrap "failed to pause machine config pool" e ∷ more) (λ _. more)))

  unfoldable pub report_paused_on_failure : UpgradeJob → List Error → M (Unit {0})
  report_paused_on_failure uj es = do
    r ←
        set_status_condition env uj
          (condition condition_machine_config_pools_paused status_true "PausedOnFailure" "")
    when not r.1 then return_errors es else (do
      u ← attempt (update_status env r.0)
      return_errors (
          result_case u (λ e. es ++ (wrap "failed to update upgrade job status" e ∷ [])) (λ _. es)))

  unfoldable pub pause_machine_pools_on_failure : UpgradeJob → M (Unit {0})
  pause_machine_pools_on_failure uj =
      let on_failure = uj.spec.config.pause_machine_config_pools_on_failure in
      when not on_failure.enabled
      then pure tt
      else when already_paused_on_failure uj
      then pure tt
      else match_option (env.as_selector (some on_failure.selector))
          (raise (failure "failed to parse machine config pool selector"))
          (λ _. do
            mcps ←
                context "failed to list machine config pools"
                  (send env.server (list_pools (some on_failure.selector)))
            es ← pause_pools mcps
            report_paused_on_failure uj es)
