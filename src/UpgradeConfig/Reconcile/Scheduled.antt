-- ===== src/UpgradeConfig/Reconcile/Scheduled.antt =====
-- What is asked of a job that is created: the schedule, the clock and the jobs that are known allow it.
use openshift_upgrade_contro.Prelude.{
  ◌≡◌, sym, ap, subst, ◌∙◌, true, false, Option, none, some, List,
}
use openshift_upgrade_contro.Prelude.Int.{◌≤ℤ◌}
use openshift_upgrade_contro.Api.Time.{Time, add_time}
use openshift_upgrade_contro.Api.Job.{UpgradeJob}
use openshift_upgrade_contro.Api.Config.{UpgradeConfig}
use openshift_upgrade_contro.Schedule.{Schedule}
use openshift_upgrade_contro.Exec.{
  Request, create_upgrade_job, History, list_upgrade_jobs, option_case, ok,
}
use openshift_upgrade_contro.UpgradeConfig.{Env}
use openshift_upgrade_contro.UpgradeConfig.Select.{filter_controlled_jobs, latest_scheduled_job}
use openshift_upgrade_contro.UpgradeConfig.Window.{max_attempts}
use openshift_upgrade_contro.UpgradeConfig.Window.Laws.{FoundOpen}
use openshift_upgrade_contro.UpgradeConfig.Reconcile.{is_unrecorded, is_completed}

module _ (uc : UpgradeConfig) (sched : Schedule) (env : Env) where
  abbrev pub LatestAllows : Time → Time → Option UpgradeJob → Type 0
  LatestAllows now earliest none =
      earliest ≡ option_case uc.last_scheduled_upgrade uc.meta.creation_timestamp (λ t. t)
  LatestAllows now earliest (some l) =
      (is_unrecorded uc l ≡ false)
      × (l.spec.start_after ≤ℤ now)
      × (is_completed env l ≡ true)
      × (earliest ≡ l.spec.start_after)

  -- Where the search begins: the server listed no job of the config, and it is the last run that was
  -- recorded, or else the creation of the config; or the latest of its jobs has started to be due and
  -- is completed, and it is its start.
  abbrev pub IsStart : Time → Time → Type 0
  IsStart now earliest =
      (h : History) × (jobs : List UpgradeJob) × (env.server h (list_upgrade_jobs uc.meta.namespace)
        ≡ ok jobs)
      × LatestAllows now earliest (latest_scheduled_job (filter_controlled_jobs env uc jobs))

  -- An instant that the clock shows, and where the search begins then.
  abbrev pub IsSeen : Time → Time → Type 0
  IsSeen now earliest = ((h : History) × (now ≡ env.clock h)) × IsStart now earliest

  pub IsStart-of_latest :
      (now earliest : Time) (h : History) (jobs js : List UpgradeJob) (o : Option UpgradeJob)
      → env.server h (list_upgrade_jobs uc.meta.namespace) ≡ ok jobs
      → js ≡ filter_controlled_jobs env uc jobs
      → latest_scheduled_job js ≡ o
      → LatestAllows now earliest o
      → IsStart now earliest
  IsStart-of_latest now earliest h jobs js o e q l allows = (
    h,
    jobs,
    e,
    subst (λ o'. LatestAllows now earliest o') (sym (ap latest_scheduled_job (sym q) ∙ l)) allows,
  )

  -- The job is for a run of the schedule whose window is open at an instant that the clock shows, and
  -- the schedule is not suspended.
  pub record IsScheduled (job : UpgradeJob) : Type 0 where
    pub now : Time
    pub earliest : Time
    pub seen : IsSeen now earliest
    pub found : FoundOpen sched uc.spec now max_attempts earliest job.spec.start_after
    pub latest_start :
        job.spec.start_before ≡ add_time job.spec.start_after uc.spec.max_upgrade_start_delay
    pub not_suspended : uc.spec.schedule.suspend ≡ false

  abbrev pub CreatesScheduled : Request → Type 0
  CreatesScheduled (create_upgrade_job job) = IsScheduled job
  CreatesScheduled _ = Unit

  -- The jobs of the config among those that the server lists.
  abbrev pub IsListed : List UpgradeJob → Type 0
  IsListed js =
      (h : History) × (jobs : List UpgradeJob) × (env.server h (list_upgrade_jobs uc.meta.namespace)
        ≡ ok jobs)
      × (js ≡ filter_controlled_jobs env uc jobs)
