-- ===== src/UpgradeJob/Consistent/Stages.antt =====
-- The stages of an upgrade: a job succeeds only after all of them.
use openshift_upgrade_contro.Prelude.{◌≡◌, refl, true, ◌||◌, Option, some, List, arith, or_true}
use openshift_upgrade_contro.Api.Meta.{is_true}
use openshift_upgrade_contro.Api.Upstream.{ClusterVersion, MachineConfigPool, Update}
use openshift_upgrade_contro.Api.Job.{
  UpgradeJob, condition_pre_health_check_done, condition_post_health_check_done,
  condition_upgrade_completed,
}
use openshift_upgrade_contro.Exec.{M, list_all_pools, update_cluster_version}
use openshift_upgrade_contro.Exec.Triple.{
  Triple, Triple-bind, Triple-pure, Triple-raise, Triple-when, Triple-option, Triple-context,
  Triple-send-Any, Triple-read_now, Any,
}
use openshift_upgrade_contro.UpgradeJob.Env.{Env, ApimetaLaws}
use openshift_upgrade_contro.UpgradeJob.Status.{find_condition}
use openshift_upgrade_contro.UpgradeJob.Requeue.{next_timed_reconcile}
use openshift_upgrade_contro.UpgradeJob.Started.{
  succeed, wait_for_unpause, settle, finish_upgrade, check_completed, start_upgrade, upgrade_to,
  apply_version,
}
use openshift_upgrade_contro.UpgradeJob.Consistent.{
  IsUnfinished, ServerLaws, Legal, stages_done, truth, no_update, state_of,
}
use openshift_upgrade_contro.UpgradeJob.Consistent.Marks.{
  IsConsistent-of_IsUnfinished, set_neutral, set_succeeded, tick, set_status_condition-IsMarked,
  update_status-IsStored, mark-IsMarked, stages_done-set_paused,
}
use openshift_upgrade_contro.UpgradeJob.Consistent.Hooks.{execute_hooks-IsKept}
use openshift_upgrade_contro.UpgradeJob.Consistent.Health.{
  mark_neutral, mark_failed, run_health_check-IsPassed,
}

module _ (env : Env) where
  -- The checks before the upgrade have passed, and the job goes on.
  pub record IsChecked (uj : UpgradeJob) : Type 0 where
    pub checked : truth env condition_pre_health_check_done uj ≡ true
    pub unfinished : IsUnfinished env uj

  module _ (a : ApimetaLaws env.apimeta) (laws : ServerLaws env)
      (LockOk : ClusterVersion → Type 0) where
    abbrev Writes : {A : Type 0} → M A → (A → Type 0) → Type 0
    Writes m Q = Triple (Legal env LockOk) m Q

    succeed-Legal :
        (uj : UpgradeJob)
        → stages_done env uj ≡ true
        → IsUnfinished env uj
        → Writes (succeed env uj) Any
    unfolding succeed
    succeed-Legal uj d u =
        Triple-bind _ _ _
          (Triple-context _ _
            (mark-IsMarked env a laws LockOk uj _ (λ uj'. set_succeeded env _ _ uj uj' d u)))
          (λ _ _. Triple-pure _ tt)

    wait_for_unpause-Legal : (uj : UpgradeJob) → Writes (wait_for_unpause env uj) Any
    unfolding wait_for_unpause next_timed_reconcile
    wait_for_unpause-Legal uj =
        Triple-bind Any _ _
          (Triple-bind Any _ _ (Triple-read_now env.clock (tick env a laws LockOk))
            (λ now _. Triple-pure _ tt))
          (λ res _. Triple-when _ _ _ (λ _. Triple-raise _) (λ _. Triple-pure _ tt))

    settle-Legal :
        (uj : UpgradeJob) (mcps : List MachineConfigPool)
        → stages_done env uj ≡ true
        → IsUnfinished env uj
        → Writes (settle env uj mcps) Any
    unfolding settle
    settle-Legal uj mcps d u =
        Triple-bind _ _ _ (set_status_condition-IsMarked env a (tick env a laws LockOk) uj _)
          (λ r s.
            let u' = set_neutral env _ uj r.0 refl refl u s in
            Triple-when _ _ _
              (λ _.
                Triple-bind _ _ _
                  (update_status-IsStored env a laws LockOk r.0
                    (IsConsistent-of_IsUnfinished env r.0 u'))
                  (λ _ _. Triple-pure _ tt))
              (λ _.
                Triple-when _ _ _ (λ _. wait_for_unpause-Legal r.0)
                  (λ _.
                    Triple-when _ _ _ (λ _. Triple-pure _ tt)
                      (λ _. succeed-Legal r.0 (stages_done-set_paused env uj r.0 s d) u'))))

    finish_upgrade-Legal :
        (uj : UpgradeJob) (version : ClusterVersion)
        → IsChecked uj
        → no_update uj.spec.desired_version || truth env condition_upgrade_completed uj ≡ true
        → Writes (finish_upgrade env uj version) Any
    unfolding finish_upgrade state_of
    finish_upgrade-Legal uj version c up =
        Triple-bind _ _ _
          (Triple-context _ _ (
            run_health_check-IsPassed env a laws LockOk uj c.unfinished
              condition_post_health_check_done refl refl version
              uj.spec.config.post_upgrade_health_checks "PostHealthCheckFailed"))
          (λ r passed.
            Triple-when _ _ _ (λ _. Triple-pure _ tt)
              (λ go.
                let p = passed (ground arith) in
                Triple-bind _ _ _ (execute_hooks-IsKept env a laws LockOk r.1 _ _ _ _) (λ hooks k.
                  Triple-when _ _ _ (λ _. Triple-pure _ tt)
                    (λ on.
                      Triple-bind Any _ _
                        (Triple-context _ _
                          (Triple-send-Any env.server list_all_pools (λ h q. (tt, q))))
                        (λ mcps _. rw (k.goes_on (ground arith)) (
                          settle-Legal r.1 mcps
                            (rw (p.others condition_pre_health_check_done refl) (
                              rw (p.others condition_upgrade_completed refl)
                                (rw (p.same_spec, c.checked, p.passed, up))))
                            p.unfinished))))))

    check_completed-Legal :
        (uj : UpgradeJob) (version : ClusterVersion)
        → IsUnfinished env uj
        → Writes (check_completed env uj version) Any
    unfolding check_completed
    check_completed-Legal uj version u =
        Triple-when _ _ _ (λ _. Triple-pure _ tt)
          (λ _.
            Triple-bind Any _ _
              (Triple-context _ _ (Triple-send-Any env.server list_all_pools (λ h p. (tt, p))))
              (λ mcps _.
                Triple-when _ _ _ (λ _. Triple-pure _ tt)
                  (λ _.
                    Triple-bind _ _ _ (mark_neutral env a laws LockOk uj _ refl refl u)
                      (λ _ _. Triple-pure _ tt))))

    start_upgrade-Legal :
        (uj : UpgradeJob) (version : ClusterVersion) (desired : Update)
        → ((d : Option Update) → LockOk (record version { desired_update = d }))
        → IsUnfinished env uj
        → Writes (start_upgrade env uj version desired) Any
    unfolding start_upgrade
    start_upgrade-Legal uj version desired ok u =
        Triple-when _ _ _
          (λ _.
            Triple-bind _ _ _ (mark_failed env a laws LockOk uj "UpgradeWithdrawn" _ u)
              (λ _ _. Triple-pure _ tt))
          (λ _.
            Triple-bind Any _ _
              (Triple-context _ _ (
                Triple-send-Any env.server (update_cluster_version _)
                  (λ h p. (ok (some desired), p))))
              (λ _ _. Triple-pure _ tt))

    upgrade_to-Legal :
        (uj : UpgradeJob) (version : ClusterVersion) (desired : Update)
        → ((d : Option Update) → LockOk (record version { desired_update = d }))
        → IsChecked uj
        → Writes (upgrade_to env uj version desired) Any
    unfolding upgrade_to state_of
    upgrade_to-Legal uj version desired ok c =
        Triple-when _ _ _ (λ _. start_upgrade-Legal uj version desired ok c.unfinished)
          (λ _.
            Triple-option (find_condition env condition_upgrade_completed uj) _ _
              (λ _.
                Triple-bind _ _ _ (mark_neutral env a laws LockOk uj _ refl refl c.unfinished)
                  (λ _ _. Triple-pure _ tt))
              (λ d found.
                Triple-when (is_true d.status) _ _
                  (λ t. finish_upgrade-Legal uj version c (rw found (rw t (or_true _))))
                  (λ _. check_completed-Legal uj version c.unfinished)))

    pub apply_version-Legal :
        (uj : UpgradeJob) (version : ClusterVersion)
        → ((d : Option Update) → LockOk (record version { desired_update = d }))
        → IsChecked uj
        → Writes (apply_version env uj version) Any
    unfolding apply_version
    apply_version-Legal uj version ok c =
        Triple-option uj.spec.desired_version _ _
          (λ e. finish_upgrade-Legal uj version c (rw e refl))
          (λ desired _. upgrade_to-Legal uj version desired ok c)
