-- ===== src/UpgradeJob/Reconcile.antt =====
-- `Reconcile`, and the mapping of events of the cluster to the job that holds the lock.
use openshift_upgrade_contro.Prelude.{
  ◌<>◌, Bool, true, false, not, Option, none, some, List, [], ◌∷◌, ◌++◌, if◌then◌else◌,
}
use openshift_upgrade_contro.Api.Time.{Time, zero_time, is_zero, before, after, sub_time}
use openshift_upgrade_contro.Api.Meta.{NamespacedName, ObjectMeta, Condition, status_true, is_true}
use openshift_upgrade_contro.Api.Job.{
  UpgradeJob, condition_succeeded, condition_failed, condition_started,
}
use openshift_upgrade_contro.Api.Hook.{create, success, finish, failure as on_failure}
use openshift_upgrade_contro.Exec.{
  Error, M, Result, ok, err, ◌>>=◌, ◌>>◌, pure, raise, attempt, context, send, read_now,
  get_upgrade_job, get_cluster_version, option_case, result_case, return_errors, match_option,
  match_result, when◌then◌else◌,
}
use openshift_upgrade_contro.UpgradeJob.Env.{Env}
use openshift_upgrade_contro.UpgradeJob.Status.{
  Outcome, no_requeue, mark, condition, failed_condition, find_condition, has_condition,
}
use openshift_upgrade_contro.UpgradeJob.Lock.{
  cleanup_lock, upgrade_job_name_from_locked_cluster_version,
}
use openshift_upgrade_contro.UpgradeJob.Window.{check_and_mark_skipped}
use openshift_upgrade_contro.UpgradeJob.HookJob.{no_tracking_key, event_info_with_reason}
use openshift_upgrade_contro.UpgradeJob.Hooks.{execute_hooks}
use openshift_upgrade_contro.UpgradeJob.Track.{track_hook_jobs, is_not_found}
use openshift_upgrade_contro.UpgradeJob.Pools.{cleanup_machine_config_pools}
use openshift_upgrade_contro.UpgradeJob.Failure.{pause_machine_pools_on_failure}
use openshift_upgrade_contro.UpgradeJob.Started.{reconcile_started_job}

-- !DeletionTimestamp.IsZero()
abbrev pub is_deleted : ObjectMeta → Bool
is_deleted m = option_case m.deletion_timestamp false (λ t. not (is_zero t))

abbrev pub true_condition : Option Condition → Option Condition
true_condition none = none
true_condition (some c) = if is_true c.status then some c else none

abbrev pub error_list : {A : Type 0} → Result A → List Error
error_list (ok a) = []
error_list (err e) = e ∷ []

-- The job that a hook call leaves behind.
abbrev pub job_after : UpgradeJob → Result (Bool × UpgradeJob) → UpgradeJob
job_after uj (err e) = uj
job_after uj (ok p) = p.1

module _ (env : Env) where
  unfoldable pub finish_succeeded : UpgradeJob → Condition → M Outcome
  finish_succeeded uj sc = do
    let info = event_info_with_reason sc.reason
    es ← attempt (execute_hooks env uj success no_tracking_key info sc.last_transition_time)
    let uj1 = job_after uj es
    ef ← attempt (execute_hooks env uj1 finish no_tracking_key info sc.last_transition_time)
    let uj2 = job_after uj1 ef
    pools ← attempt (cleanup_machine_config_pools env uj2)
    lock ← attempt (cleanup_lock env uj2)
    return_errors (error_list es ++ (error_list ef ++ (error_list pools ++ error_list lock)))
    pure no_requeue

  unfoldable pub finish_failed : UpgradeJob → Condition → M Outcome
  finish_failed uj fc = do
    let info = event_info_with_reason fc.reason
    ea ← attempt (execute_hooks env uj on_failure no_tracking_key info fc.last_transition_time)
    let uj1 = job_after uj ea
    ei ← attempt (execute_hooks env uj1 finish no_tracking_key info fc.last_transition_time)
    let uj2 = job_after uj1 ei
    pools ← attempt (pause_machine_pools_on_failure env uj2)
    lock ← attempt (cleanup_lock env uj2)
    return_errors (error_list ea ++ (error_list ei ++ (error_list pools ++ error_list lock)))
    pure no_requeue

  -- The job is marked when no suspension window skips it.
  unfoldable pub unless_skipped : UpgradeJob → Time → Condition → M Outcome
  unless_skipped uj now c = do
    skipped ← check_and_mark_skipped env uj now
    when skipped then pure no_requeue else (do mark env uj c; pure no_requeue)

  unfoldable pub reconcile_pending : UpgradeJob → M Outcome
  reconcile_pending uj = do
    now ← read_now env.clock
    when after now uj.spec.start_before
        then unless_skipped uj now (
            failed_condition env "Expired"
              ("Job could not be started before " <> env.format_time uj.spec.start_before))
        else when not (before now uj.spec.start_after)
        then unless_skipped uj now (
            condition condition_started status_true "Started"
              ("Upgrade started at " <> env.format_time now))
        else pure (record { requeue = true; requeue_after = sub_time uj.spec.start_after now })

  unfoldable pub reconcile_unfinished : UpgradeJob → M Outcome
  reconcile_unfinished uj = do
    r ← execute_hooks env uj create no_tracking_key (event_info_with_reason "") zero_time
    when not r.0
        then pure no_requeue
        else when has_condition env condition_started r.1
        then reconcile_started_job env r.1
        else reconcile_pending r.1

  unfoldable pub reconcile_job : UpgradeJob → M Outcome
  reconcile_job uj =
      when is_deleted uj.meta
      then pure no_requeue
      else match_option (true_condition (find_condition env condition_succeeded uj))
          (match_option (true_condition (find_condition env condition_failed uj))
            (reconcile_unfinished uj) (finish_failed uj))
          (finish_succeeded uj)

  unfoldable pub reconcile : NamespacedName → M Outcome
  reconcile nn = do
    context "failed to track hook jobs" (track_hook_jobs env nn)
    r ← attempt (send env.server (get_upgrade_job nn))
    match_result r (λ e. when is_not_found e then pure no_requeue else raise e) reconcile_job

  -- The requests that an event on the cluster version or on a pool enqueues.
  unfoldable pub job_from_cluster_version_mapper : M (List NamespacedName)
  job_from_cluster_version_mapper = do
    r ← attempt (send env.server (get_cluster_version env.cluster_version_name))
    pure (
        result_case r (λ _. [])
          (λ version.
            option_case (upgrade_job_name_from_locked_cluster_version version) [] (λ nn. nn ∷ [])))
