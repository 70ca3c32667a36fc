-- ===== src/UpgradeJob/Consistent/Started.antt =====
-- A started job: the lock is taken before anything of the cluster is changed.
use openshift_upgrade_contro.Prelude.{◌≡◌, refl, some, arith}
use openshift_upgrade_contro.Api.Upstream.{ClusterVersion}
use openshift_upgrade_contro.Api.Job.{UpgradeJob, condition_pre_health_check_done}
use openshift_upgrade_contro.Exec.{M, get_cluster_version}
use openshift_upgrade_contro.Exec.Triple.{
  Triple, Triple-bind, Triple-pure, Triple-when, Triple-context, Triple-send-Any, Any,
}
use openshift_upgrade_contro.UpgradeJob.Env.{Env, ApimetaLaws}
use openshift_upgrade_contro.UpgradeJob.Status.{lock_val}
use openshift_upgrade_contro.UpgradeJob.Lock.{lock_of}
use openshift_upgrade_contro.UpgradeJob.Started.{upgrade, reconcile_started_job}
use openshift_upgrade_contro.UpgradeJob.Consistent.{IsUnfinished, ServerLaws, Legal}
use openshift_upgrade_contro.UpgradeJob.Consistent.Hooks.{execute_hooks-IsKept}
use openshift_upgrade_contro.UpgradeJob.Consistent.Health.{mark_failed, run_health_check-IsPassed}
use openshift_upgrade_contro.UpgradeJob.Consistent.Pools.{
  pause_unpause-GoesOn, time_since_start_after-Any,
}
use openshift_upgrade_contro.UpgradeJob.Consistent.Lock.{try_lock-Locked}
use openshift_upgrade_contro.UpgradeJob.Consistent.Stages.{apply_version-Legal}

module _ (env : Env) (a : ApimetaLaws env.apimeta) (laws : ServerLaws env)
    (LockOk : ClusterVersion → Type 0) where
  abbrev Writes : {A : Type 0} → M A → (A → Type 0) → Type 0
  Writes m Q = Triple (Legal env LockOk) m Q

  upgrade-Legal :
      (uj : UpgradeJob)
      → ((v : ClusterVersion) → lock_of v ≡ some (lock_val uj) → LockOk v)
      → IsUnfinished env uj
      → Writes (upgrade env uj) Any
  unfolding upgrade
  upgrade-Legal uj ok_lock u =
      Triple-bind Any _ _
        (Triple-context _ _ (Triple-send-Any env.server (get_cluster_version _) (λ h p. (tt, p))))
        (λ found _.
          Triple-bind _ _ _
            (Triple-context _ _ (try_lock-Locked env laws LockOk found (lock_val uj) ok_lock))
            (λ version locked.
              Triple-bind _ _ _ (Triple-context _ _ (pause_unpause-GoesOn env a laws LockOk uj u))
                (λ pools goes.
                  Triple-when _ _ _ (λ _. Triple-pure _ tt)
                    (λ on.
                      let g = goes (ground arith) in
                      Triple-bind _ _ _
                        (Triple-context _ _ (
                          run_health_check-IsPassed env a laws LockOk pools.1 g.unfinished
                            condition_pre_health_check_done refl refl version
                            pools.1.spec.config.pre_upgrade_health_checks "PreHealthCheckFailed"))
                        (λ health passed.
                          Triple-when _ _ _ (λ _. Triple-pure _ tt)
                            (λ ok.
                              let p = passed (ground arith) in
                              apply_version-Legal env a laws LockOk health.1 version
                                (λ d. ok_lock (record version { desired_update = d }) locked)
                                (record { checked = p.passed; unfinished = p.unfinished })))))))

  -- All that a started job that has not finished writes: consistent statuses, and cluster versions
  -- under any condition that follows from carrying the lock of the job.
  pub reconcile_started_job-Legal :
      (uj : UpgradeJob)
      → ((v : ClusterVersion) → lock_of v ≡ some (lock_val uj) → LockOk v)
      → IsUnfinished env uj
      → Writes (reconcile_started_job env uj) Any
  unfolding reconcile_started_job
  reconcile_started_job-Legal uj ok_lock u =
      Triple-bind Any _ _ (time_since_start_after-Any env a laws LockOk uj) (λ since _.
        Triple-when _ _ _
          (λ _.
            Triple-bind _ _ _ (mark_failed env a laws LockOk uj "TimedOut" _ u)
              (λ _ _. Triple-pure _ tt))
          (λ _. Triple-bind _ _ _ (execute_hooks-IsKept env a laws LockOk uj _ _ _ _) (λ r k.
            Triple-when _ _ _ (λ _. Triple-pure _ tt)
              (λ on. rw (k.goes_on (ground arith)) (upgrade-Legal uj ok_lock u)))))
