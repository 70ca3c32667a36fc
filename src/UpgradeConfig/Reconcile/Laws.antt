-- ===== src/UpgradeConfig/Reconcile/Laws.antt =====
-- For which runs of the schedule jobs are created.
use openshift_upgrade_contro.Prelude.{
  ◌≡◌, refl, Bool, true, false, not, Option, none, some, All, arith,
}
use openshift_upgrade_contro.Prelude.Int.{ltb_ℤ→le}
use openshift_upgrade_contro.Api.Time.{after, Time}
use openshift_upgrade_contro.Api.Upstream.{Release}
use openshift_upgrade_contro.Api.Config.{UpgradeConfig}
use openshift_upgrade_contro.Schedule.{Schedule}
use openshift_upgrade_contro.Exec.{
  Request, create_upgrade_job, History, M, read_clock, list_upgrade_jobs, list_windows,
  get_cluster_version, record_event, update_upgrade_config_status, option_case, Result, ok, err,
}
use openshift_upgrade_contro.Exec.Triple.{
  Holds, Holds-Any, Triple, Triple-bind, Triple-pure, Triple-when, Triple-option, Triple-result,
  Triple-context, Triple-attempt, Triple-lift, Triple-send-Any, Triple-send_shown,
  Triple-read_now_shown, Any,
}
use openshift_upgrade_contro.UpgradeConfig.{Env}
use openshift_upgrade_contro.UpgradeConfig.Select.{
  new_job, create_job, get_controlled_jobs, latest_scheduled_job,
}
use openshift_upgrade_contro.UpgradeConfig.Window.{
  Search, too_early, in_window, find_next_run, max_attempts, matching_upgrade_suspension_window,
}
use openshift_upgrade_contro.UpgradeConfig.Window.Laws.{FoundOpen, find_next_run-FoundOpen}
use openshift_upgrade_contro.UpgradeConfig.Reconcile.{
  Plan, requeue_in, record_run, match_search, match_plan, set_last_scheduled_upgrade, schedule_run,
  plan_run, plan_job, schedule_job, is_unrecorded, is_completed,
}
use openshift_upgrade_contro.UpgradeConfig.Reconcile.Scheduled.{
  IsSeen, IsListed, IsStart-of_latest, CreatesScheduled,
}

true_of_not : (b : Bool) → not b ≡ false → b ≡ true
true_of_not b h = ground arith

module _ (uc : UpgradeConfig) (sched : Schedule) (env : Env) where
  abbrev Keeps : {A : Type 0} → M A → (A → Type 0) → Type 0
  Keeps m Q = Triple (All (CreatesScheduled uc sched env)) m Q

  create_job-CreatesScheduled :
      (r : Option Release) (now earliest t : Time)
      → IsSeen uc sched env now earliest
      → FoundOpen sched uc.spec now max_attempts earliest t
      → uc.spec.schedule.suspend ≡ false
      → Keeps (create_job env uc r t) Any
  unfolding create_job new_job
  create_job-CreatesScheduled r now earliest t seen found ns =
      Triple-bind Any _ _ (Triple-context _ _ (Triple-lift _ (Holds-Any _))) (λ m _.
        Triple-context _ _ (
          Triple-send-Any env.server (create_upgrade_job _) (λ h p. (
            record {
              now = now;
              earliest = earliest;
              seen = seen;
              found = found;
              latest_start = refl;
              not_suspended = ns;
            },
            p,
          ))))

  schedule_run-CreatesScheduled :
      (now earliest t : Time)
      → IsSeen uc sched env now earliest
      → FoundOpen sched uc.spec now max_attempts earliest t
      → Keeps (schedule_run env uc now t) Any
  unfolding schedule_run matching_upgrade_suspension_window
  schedule_run-CreatesScheduled now earliest t seen found =
      Triple-bind Any _ _
        (Triple-context _ _ (Triple-send-Any env.server (get_cluster_version _) (λ h p. (tt, p))))
        (λ cv _.
          Triple-when _ _ _
            (λ _.
              Triple-bind _ _ _
                (Triple-attempt _ (Triple-send-Any env.server (record_event _) (λ h p. (tt, p))))
                (λ _ _. Triple-pure _ tt))
            (λ ns.
              Triple-bind Any _ _
                (Triple-context _ _ (
                  Triple-bind Any _ _
                    (Triple-context _ _
                      (Triple-send-Any env.server (list_windows _) (λ h p. (tt, p))))
                    (λ _ _. Triple-pure _ tt)))
                (λ window _.
                  Triple-option window _ _
                    (λ _.
                      Triple-bind Any _ _
                        (Triple-context _ _
                          (create_job-CreatesScheduled _ now earliest t seen found ns))
                        (λ _ _. Triple-pure _ tt))
                    (λ w _.
                      Triple-bind _ _ _
                        (Triple-attempt _
                          (Triple-send-Any env.server (record_event _) (λ h p. (tt, p))))
                        (λ _ _. Triple-pure _ tt)))))

  abbrev Opens : Time → Time → Search → Type 0
  Opens now earliest (too_early d) = Unit
  Opens now earliest (in_window t) = FoundOpen sched uc.spec now max_attempts earliest t

  search-Opens :
      (now earliest : Time) (r : Result Search)
      → find_next_run sched uc.spec now max_attempts earliest ≡ r
      → Holds (Opens now earliest) r
  search-Opens now earliest (err e) q = tt
  search-Opens now earliest (ok (too_early d)) q = tt
  search-Opens now earliest (ok (in_window t)) q =
      (find_next_run-FoundOpen sched uc.spec now earliest t).0 q

  plan_run-CreatesScheduled :
      (now earliest : Time)
      → IsSeen uc sched env now earliest
      → Keeps (plan_run env uc sched now earliest) Any
  unfolding plan_run match_search
  plan_run-CreatesScheduled now earliest seen =
      Triple-bind (Opens now earliest) _ _ (Triple-lift _ (search-Opens now earliest _ refl))
        (λ found o. run found o)
    where
      run :
          (s : Search)
          → Opens now earliest s
          → Keeps
              (match_search s
                (λ d. openshift_upgrade_contro.Exec.pure (requeue_in d))
                (schedule_run env uc now))
              Any
      run (too_early d) o = Triple-pure _ tt
      run (in_window t) o = schedule_run-CreatesScheduled now earliest t seen o

  plan_job-CreatesScheduled : Keeps (plan_job env uc sched) Any
  unfolding plan_job get_controlled_jobs
  plan_job-CreatesScheduled =
      Triple-bind (IsListed uc sched env) _ _
        (Triple-context _ _ (
          Triple-bind _ _ _ (Triple-send_shown env.server (list_upgrade_jobs _) (λ h p. (tt, p)))
            (λ jobs shown. Triple-pure _ (shown.0, jobs, shown.1, refl))))
        (λ js listed.
          let (h, jobs, answer, q) = listed in
          Triple-bind _ _ _ (Triple-read_now_shown env.clock (λ h p. (tt, p))) (λ now clock.
            Triple-option (latest_scheduled_job js) _ _
              (λ none_known. plan_run-CreatesScheduled now _ (
                clock,
                IsStart-of_latest uc sched env now _ h jobs js none answer q none_known refl,
              ))
              (λ latest known.
                Triple-when (is_unrecorded uc latest) _ _ (λ _. Triple-pure _ tt)
                  (λ recorded.
                    Triple-when (after latest.spec.start_after now) _ _ (λ _. Triple-pure _ tt)
                      (λ due.
                        Triple-when (not (is_completed env latest)) _ _ (λ _. Triple-pure _ tt)
                          (λ done. plan_run-CreatesScheduled now latest.spec.start_after (
                            clock,
                            IsStart-of_latest uc sched env now latest.spec.start_after h jobs js
                                (some latest) answer q known
                                (
                                  recorded,
                                  ltb_ℤ→le now latest.spec.start_after due,
                                  true_of_not (is_completed env latest) done,
                                  refl,
                                ),
                          )))))))

  set_last-CreatesScheduled : (t : Time) → Keeps (set_last_scheduled_upgrade env uc t) Any
  unfolding set_last_scheduled_upgrade
  set_last-CreatesScheduled t =
      Triple-bind _ _ _
        (Triple-attempt _
          (Triple-send-Any env.server (update_upgrade_config_status _) (λ h p. (tt, p))))
        (λ _ _. Triple-pure _ tt)

  plan-CreatesScheduled :
      (p : Plan)
      → Keeps
          (match_plan p
            (λ d. openshift_upgrade_contro.Exec.pure (ok d, uc))
            (set_last_scheduled_upgrade env uc))
          Any
  unfolding match_plan
  plan-CreatesScheduled (requeue_in d) = Triple-pure _ tt
  plan-CreatesScheduled (record_run t) = set_last-CreatesScheduled t

  -- Whatever the server answers, after requests that create only such jobs, `scheduleJob` creates jobs
  -- only as follows. The server listed no job of the config, or the latest one is due by the instant
  -- that the clock shows, recorded and completed. The new job is for a run of the schedule whose window is
  -- open at that instant, and that comes after fewer than 101 runs whose windows are over, counted
  -- from the start of the latest job, or without one from the last run recorded or the creation of the
  -- config. It may be started until the start delay after its run has passed. The schedule is not
  -- suspended.
  pub schedule_job-CreatesScheduled :
      (h : History)
      → All (CreatesScheduled uc sched env) h
      → All (CreatesScheduled uc sched env) (schedule_job env uc sched h).1
  unfolding schedule_job
  schedule_job-CreatesScheduled h p =
      let t : Keeps (schedule_job env uc sched) Any =
        Triple-bind _ _ _ (Triple-attempt _ plan_job-CreatesScheduled) (λ r q.
          Triple-result Any r _ _ q (λ e. Triple-pure _ tt)
            (λ plan _. plan-CreatesScheduled plan)) in
      (t.at h p).0
