-- ===== src/UpgradeJob/Started.antt =====
-- `reconcileStartedJob`, in the three parts that follow one another: up to the health checks before
-- the upgrade, the change of the version, and the end of the upgrade.
use openshift_upgrade_contro.Prelude.{
  ◌<>◌, str_eq, Bool, true, false, ◌&&◌, not, Option, none, some, List, is_empty, if◌then◌else◌,
}
use openshift_upgrade_contro.Prelude.Int.{ltb_ℤ, eqb_ℤ}
use openshift_upgrade_contro.Api.Time.{zero_time}
use openshift_upgrade_contro.Api.Meta.{status_true, status_false, is_true}
use openshift_upgrade_contro.Api.Upstream.{Update, ClusterVersion, MachineConfigPool}
use openshift_upgrade_contro.Api.Job.{
  UpgradeJob, condition_pre_health_check_done, condition_post_health_check_done,
  condition_upgrade_completed, condition_paused, condition_succeeded,
  get_desired_version_check_availability,
}
use openshift_upgrade_contro.Api.Hook.{start, upgrade_complete}
use openshift_upgrade_contro.ClusterVersion.{is_version_upgrade_completed, find_available_update}
use openshift_upgrade_contro.HealthCheck.{machine_config_pools_updating, filter_paused}
use openshift_upgrade_contro.Exec.{
  failure, M, ◌>>=◌, ◌>>◌, pure, raise, context, send, get_cluster_version, update_cluster_version,
  list_all_pools, option_case, match_option, when◌then◌else◌,
}
use openshift_upgrade_contro.UpgradeJob.Env.{Env}
use openshift_upgrade_contro.UpgradeJob.Status.{
  Outcome, no_requeue, set_status_condition, mark, update_status, condition, failed_condition,
  bool_to_status, lock_val, find_condition,
}
use openshift_upgrade_contro.UpgradeJob.Lock.{try_lock_cluster_version}
use openshift_upgrade_contro.UpgradeJob.Health.{run_health_check}
use openshift_upgrade_contro.UpgradeJob.Requeue.{time_since_start_after, next_timed_reconcile}
use openshift_upgrade_contro.UpgradeJob.HookJob.{no_tracking_key, event_info_with_reason}
use openshift_upgrade_contro.UpgradeJob.Hooks.{execute_hooks}
use openshift_upgrade_contro.UpgradeJob.Pools.{pause_unpause_machine_config_pools}

abbrev eqb_bool : Bool → Bool → Bool
eqb_bool true b = b
eqb_bool false b = not b

-- Go's `==` on configv1.Update.
unfoldable pub eqb_update : Update → Update → Bool
eqb_update a b =
    str_eq a.architecture b.architecture
    && (str_eq a.version b.version && (str_eq a.image b.image && eqb_bool a.force b.force))

-- version.Spec.DesiredUpdate != nil && *version.Spec.DesiredUpdate == desired
unfoldable pub is_desired : ClusterVersion → Update → Bool
unfolding eqb_update
is_desired version desired = option_case version.desired_update false (λ d. eqb_update d desired)

abbrev pub is_none {ℓ} : {A : Type ℓ} → Option A → Bool
is_none none = true
is_none (some a) = false

-- res == ctrl.Result{}
abbrev pub is_no_requeue : Outcome → Bool
is_no_requeue o = not o.requeue && eqb_ℤ o.requeue_after zero_time

module _ (env : Env) where
  -- The job succeeds.
  unfoldable pub succeed : UpgradeJob → M Outcome
  succeed uj = do
    context "failed to set job as succeeded"
        (mark env uj (condition condition_succeeded status_true "Succeeded" "Upgrade succeeded"))
    pure no_requeue

  -- The job waits for its paused pools.
  unfoldable pub wait_for_unpause : UpgradeJob → M Outcome
  wait_for_unpause uj = do
    res ← next_timed_reconcile env uj
    when is_no_requeue res
        then raise (failure "job manages paused pools but no next reconcile time found")
        else pure res

  -- The end of `reconcileStartedJob`, once the pools are listed.
  unfoldable pub settle : UpgradeJob → List MachineConfigPool → M Outcome
  settle uj mcps = do
    let split_pools = filter_paused (machine_config_pools_updating mcps)
    let is_updating_pools = not (is_empty split_pools.1)
    let is_paused = not (is_empty split_pools.0) && not is_updating_pools
    r ←
        set_status_condition env uj
          (condition condition_paused (bool_to_status is_paused) "DelaySet" "")
    when r.1
        then (do update_status env r.0; pure no_requeue)
        else when is_paused
        then wait_for_unpause r.0
        else when is_updating_pools
        then pure no_requeue
        else succeed r.0

  unfoldable pub finish_upgrade : UpgradeJob → ClusterVersion → M Outcome
  finish_upgrade uj version = do
    r ← context "failed to run post-upgrade health checks" (
        run_health_check env uj version uj.spec.config.post_upgrade_health_checks
          condition_post_health_check_done "PostHealthCheckFailed")
    when not r.0 then pure no_requeue else (do
      hooks ←
          execute_hooks env r.1 upgrade_complete no_tracking_key
            (event_info_with_reason "Completed") zero_time
      when not hooks.0 then pure no_requeue else (do
        mcps ← context "failed to list machine config pools" (send env.server list_all_pools)
        settle hooks.1 mcps))

  -- The upgrade is not marked as completed yet: it is, once the cluster version and the pools that
  -- are not paused are done.
  unfoldable pub check_completed : UpgradeJob → ClusterVersion → M Outcome
  check_completed uj version =
      when not (is_version_upgrade_completed version) then pure no_requeue else (do
        mcps ← context "failed to list machine config pools" (send env.server list_all_pools)
        when not (is_empty (filter_paused (machine_config_pools_updating mcps)).1)
            then pure no_requeue
            else (do
              mark env uj (
                  condition condition_upgrade_completed status_true "Completed" "Upgrade completed")
              pure no_requeue))

  -- The cluster version does not ask for the desired version yet.
  unfoldable pub start_upgrade : UpgradeJob → ClusterVersion → Update → M Outcome
  start_upgrade uj version desired =
      when get_desired_version_check_availability uj.spec.desired_version_check_availability
        && is_none (find_available_update version desired.image desired.version)
      then (do
        mark env uj (
            failed_condition env "UpgradeWithdrawn"
              ("Upgrade became unavailable: " <> desired.version))
        pure no_requeue)
      else (do
        context "failed to update desired version in cluster version" (
            send env.server
              (update_cluster_version (record version { desired_update = some desired })))
        pure no_requeue)

  unfoldable pub upgrade_to : UpgradeJob → ClusterVersion → Update → M Outcome
  upgrade_to uj version desired =
      when not (is_desired version desired)
      then start_upgrade uj version desired
      else match_option (find_condition env condition_upgrade_completed uj)
          (do
            mark env uj (
                condition condition_upgrade_completed status_false "InProgress"
                  "Upgrade in progress")
            pure no_requeue)
          (λ c.
            when is_true c.status then finish_upgrade uj version else check_completed uj version)

  unfoldable pub apply_version : UpgradeJob → ClusterVersion → M Outcome
  apply_version uj version =
      match_option uj.spec.desired_version (finish_upgrade uj version) (upgrade_to uj version)

  -- From the lock on.
  unfoldable pub upgrade : UpgradeJob → M Outcome
  upgrade uj = do
    found ←
        context "failed to get cluster version"
          (send env.server (get_cluster_version env.cluster_version_name))
    version ←
        context "failed to lock cluster version" (try_lock_cluster_version env found (lock_val uj))
    pools ←
        context "failed to pause machine config pools" (pause_unpause_machine_config_pools env uj)
    when not pools.0 then pure no_requeue else (do
      health ← context "failed to run pre-upgrade health checks" (
          run_health_check env pools.1 version pools.1.spec.config.pre_upgrade_health_checks
            condition_pre_health_check_done "PreHealthCheckFailed")
      when not health.0 then pure no_requeue else apply_version health.1 version)

  unfoldable pub reconcile_started_job : UpgradeJob → M Outcome
  reconcile_started_job uj = do
    since ← time_since_start_after env uj
    when ltb_ℤ uj.spec.config.upgrade_timeout since
        then (do
          mark env uj (
              failed_condition env "TimedOut"
                ("Upgrade timed out after " <> env.format_duration uj.spec.config.upgrade_timeout))
          pure no_requeue)
        else (do
          r ←
              execute_hooks env uj start no_tracking_key (event_info_with_reason "Started")
                zero_time
          when not r.0 then pure no_requeue else upgrade r.1)
