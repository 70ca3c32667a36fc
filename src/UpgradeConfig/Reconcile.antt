-- ===== src/UpgradeConfig/Reconcile.antt =====
-- `scheduleJob`, `updateNextPossibleSchedulesStatus` and `Reconcile`. The methods change the config
-- that they point to also where they fail, so they return it beside their result.
pub mod Scheduled
pub mod Laws
use openshift_upgrade_contro.Prelude.{
  ℕ, String, ◌<>◌, str_eq, Bool, true, false, ◌&&◌, ◌||◌, not, Option, none, some, List, [], ◌∷◌,
  ◌++◌, if◌then◌else◌,
}
use openshift_upgrade_contro.Prelude.Int.{pos, ltb_ℤ, eqb_ℤ}
use openshift_upgrade_contro.Api.Time.{Time, Duration, zero_time, after, sub_time, max_int64}
use openshift_upgrade_contro.Api.Meta.{NamespacedName}
use openshift_upgrade_contro.Api.Job.{UpgradeJob, condition_succeeded, condition_failed}
use openshift_upgrade_contro.Api.Config.{UpgradeConfig}
use openshift_upgrade_contro.ClusterVersion.{latest_available_update}
use openshift_upgrade_contro.Schedule.{Schedule, next_n}
use openshift_upgrade_contro.Exec.{
  M, ◌>>=◌, ◌>>◌, pure, raise, lift, attempt, context, send, read_now, get_upgrade_config,
  get_cluster_version, update_upgrade_config_status, record_event, option_case, result_case,
  return_errors, match_option, match_result, when◌then◌else◌, Error, Result, ok, err,
}
use openshift_upgrade_contro.UpgradeJob.Status.{Outcome, no_requeue}
use openshift_upgrade_contro.UpgradeJob.Track.{is_not_found}
use openshift_upgrade_contro.UpgradeJob.Reconcile.{is_deleted, error_list}
use openshift_upgrade_contro.UpgradeConfig.{Env}
use openshift_upgrade_contro.UpgradeConfig.Select.{
  latest_scheduled_job, get_controlled_jobs, create_job,
}
use openshift_upgrade_contro.UpgradeConfig.Window.{
  Search, too_early, in_window, find_next_run, max_attempts, matching_upgrade_suspension_window,
}
use openshift_upgrade_contro.UpgradeConfig.Cleanup.{cleanup_successful_jobs}

-- How `scheduleJob` goes on: it returns a time to requeue after, or it records a run as scheduled.
pub data Plan : Type 0 where
  requeue_in : Duration → Plan
  record_run : Time → Plan

unfoldable pub match_search : {B : Type 0} → Search → (Duration → M B) → (Time → M B) → M B
match_search (too_early d) f g = f d
match_search (in_window t) f g = g t

unfoldable pub match_plan : {B : Type 0} → Plan → (Duration → M B) → (Time → M B) → M B
match_plan (requeue_in d) f g = f d
match_plan (record_run t) f g = g t

-- uc.Status.LastScheduledUpgrade == nil || startAfter.After(uc.Status.LastScheduledUpgrade.Time)
unfoldable pub is_unrecorded : UpgradeConfig → UpgradeJob → Bool
is_unrecorded uc job =
    option_case uc.last_scheduled_upgrade true (λ t. after job.spec.start_after t)

-- The shortest of the requeue times that are set, or a minute.
unfoldable pub shortest_requeue : Duration → Duration → Duration
shortest_requeue job_requeue status_requeue =
    let a =
      if ltb_ℤ (pos 0) job_requeue && ltb_ℤ job_requeue (pos max_int64)
      then job_requeue
      else pos max_int64 in
    let b = if ltb_ℤ (pos 0) status_requeue && ltb_ℤ status_requeue a then status_requeue else a in
    if eqb_ℤ b (pos max_int64) then pos 60000000000 else b

module _ (env : Env) where
  unfoldable pub is_completed : UpgradeJob → Bool
  is_completed job =
      env.apimeta.is_status_condition_true condition_succeeded job.conditions
      || env.apimeta.is_status_condition_true condition_failed job.conditions

  unfoldable pub set_last_scheduled_upgrade :
      UpgradeConfig → Time → M (Result Duration × UpgradeConfig)
  set_last_scheduled_upgrade uc t = do
    let uc' = record uc { last_scheduled_upgrade = some t }
    r ← attempt (send env.server (update_upgrade_config_status uc'))
    pure (result_case r (λ e. (err e, uc')) (λ stored. (ok zero_time, stored)))

  -- The window of a run is open.
  unfoldable pub schedule_run : UpgradeConfig → Time → Time → M Plan
  schedule_run uc now next_run = do
    cv ←
        context "could not get cluster version"
          (send env.server (get_cluster_version env.cluster_version_name))
    when uc.spec.schedule.suspend
        then (do
          attempt (send env.server (record_event "UpgradeConfigSuspended"))
          pure (record_run next_run))
        else (do
          window ←
              context "could not search matching upgrade suspension window"
                (matching_upgrade_suspension_window env uc now)
          match_option window
              (do
                context "could not create job"
                    (create_job env uc (latest_available_update env.semver_compare cv) next_run)
                pure (record_run next_run))
              (λ w. do
                attempt (send env.server (record_event "UpgradeConfigSuspendedBySuspensionWindow"))
                pure (record_run next_run)))

  unfoldable pub plan_run : UpgradeConfig → Schedule → Time → Time → M Plan
  plan_run uc sched now earliest = do
    found ← lift (find_next_run sched uc.spec now max_attempts earliest)
    match_search found (λ d. pure (requeue_in d)) (schedule_run uc now)

  unfoldable pub plan_job : UpgradeConfig → Schedule → M Plan
  plan_job uc sched = do
    jobs ← context "could not get controlled jobs" (get_controlled_jobs env uc)
    now ← read_now env.clock
    match_option (latest_scheduled_job jobs)
        (plan_run uc sched now
          (option_case uc.last_scheduled_upgrade uc.meta.creation_timestamp (λ t. t)))
        (λ latest.
          when is_unrecorded uc latest
          then pure (record_run latest.spec.start_after)
          else when after latest.spec.start_after now
          then pure (requeue_in zero_time)
          else when not (is_completed latest)
          then pure (requeue_in zero_time)
          else plan_run uc sched now latest.spec.start_after)

  unfoldable pub schedule_job : UpgradeConfig → Schedule → M (Result Duration × UpgradeConfig)
  schedule_job uc sched = do
    p ← attempt (plan_job uc sched)
    match_result p (λ e. pure (err e, uc))
        (λ plan. match_plan plan (λ d. pure (ok d, uc)) (set_last_scheduled_upgrade uc))

  -- The status with the times that were found. Ten times are asked for, so there is one, or an error.
  unfoldable pub update_schedules :
      UpgradeConfig → Time → List Time → Option Error → M (Result Duration × UpgradeConfig)
  update_schedules uc now [] e =
      pure (err (option_case e (Error.failure "index out of range") (λ x. x)), uc)
  update_schedules uc now (t ∷ ts) e = do
    let uc' = record uc { next_possible_schedules = t ∷ ts }
    r ← attempt (send env.server (update_upgrade_config_status uc'))
    pure (result_case r (λ x. (err x, uc')) (λ stored. (ok (sub_time t now), stored)))

  unfoldable pub update_next_possible_schedules_status :
      UpgradeConfig → Schedule → M (Result Duration × UpgradeConfig)
  update_next_possible_schedules_status uc sched = do
    now ← read_now env.clock
    let np = next_n sched now 10
    update_schedules uc now np.0 np.1

  -- Once the schedule is read.
  unfoldable pub reconcile_scheduled : UpgradeConfig → Schedule → M Outcome
  reconcile_scheduled uc sched = do
    job ← schedule_job uc sched
    status ← update_next_possible_schedules_status job.1 sched
    cleanup ← attempt (cleanup_successful_jobs env status.1)
    return_errors (error_list job.0 ++ (error_list status.0 ++ error_list cleanup))
    pure (record {
      requeue = false;
      requeue_after =
          shortest_requeue (result_case job.0 (λ _. zero_time) (λ d. d))
            (result_case status.0 (λ _. zero_time) (λ d. d));
    })

  unfoldable pub reconcile_config : UpgradeConfig → M Outcome
  reconcile_config uc = when is_deleted uc.meta then pure no_requeue else (do
    location ←
        when str_eq uc.spec.schedule.location ""
        then pure env.local
        else context "could not load location" (lift (env.load_location uc.spec.schedule.location))
    cron ← lift (env.parse_standard uc.spec.schedule.cron)
    reconcile_scheduled uc (record {
      cron_next = cron location;
      iso_week_of = env.iso_week_of location;
      iso_week = uc.spec.schedule.iso_week;
    }))

  unfoldable pub reconcile : NamespacedName → M Outcome
  reconcile nn = do
    r ← attempt (send env.server (get_upgrade_config nn))
    match_result r (λ e. when is_not_found e then pure no_requeue else raise e) reconcile_config
