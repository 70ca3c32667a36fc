-- ===== src/UpgradeJob/Consistent/Cleanup.antt =====
-- The pools after the end of a job: what is written is consistent.
use openshift_upgrade_contro.Prelude.{List, [], ◌∷◌}
use openshift_upgrade_contro.Api.Upstream.{ClusterVersion, MachineConfigPool}
use openshift_upgrade_contro.Api.Job.{UpgradeJob}
use openshift_upgrade_contro.Exec.{M, update_pool, list_pools, list_all_pools}
use openshift_upgrade_contro.Exec.Triple.{
  Triple, Triple-bind, Triple-pure, Triple-raise, Triple-when, Triple-option, Triple-result,
  Triple-context, Triple-attempt, Triple-send-Any, Triple-return_errors, Any,
}
use openshift_upgrade_contro.UpgradeJob.Env.{Env, ApimetaLaws}
use openshift_upgrade_contro.UpgradeJob.Pools.{
  release_pool, clean_pool, clean_pools, cleanup_machine_config_pools,
}
use openshift_upgrade_contro.UpgradeJob.Failure.{
  pause_pools, report_paused_on_failure, pause_machine_pools_on_failure,
}
use openshift_upgrade_contro.UpgradeJob.Consistent.{IsConsistent, ServerLaws, Legal}
use openshift_upgrade_contro.UpgradeJob.Consistent.Marks.{
  tick, set_status_condition-IsMarked, update_status-IsStored, set_paused-IsConsistent,
}
use openshift_upgrade_contro.UpgradeJob.Consistent.Hooks.{execute_hooks-IsKept}

module _ (env : Env) (a : ApimetaLaws env.apimeta) (laws : ServerLaws env)
    (LockOk : ClusterVersion → Type 0) where
  abbrev Writes : {A : Type 0} → M A → (A → Type 0) → Type 0
  Writes m Q = Triple (Legal env LockOk) m Q

  release_pool-Legal : (mcp : MachineConfigPool) → Writes (release_pool env mcp) Any
  unfolding release_pool
  release_pool-Legal mcp =
      Triple-bind _ _ _
        (Triple-attempt _ (Triple-send-Any env.server (update_pool mcp) (λ h p. (tt, p))))
        (λ _ _. Triple-pure _ tt)

  clean_pool-Legal :
      (uj : UpgradeJob) (mcp : MachineConfigPool) → Writes (clean_pool env uj mcp) Any
  unfolding clean_pool
  clean_pool-Legal uj mcp =
      Triple-when _ _ _
        (λ _.
          Triple-bind _ _ _ (Triple-attempt _ (execute_hooks-IsKept env a laws LockOk uj _ _ _ _))
            (λ r q.
              Triple-result _ r _ _ q (λ e. Triple-pure _ tt)
                (λ p _. Triple-bind Any _ _ (release_pool-Legal _) (λ es _. Triple-pure _ tt))))
        (λ _. Triple-bind Any _ _ (release_pool-Legal _) (λ es _. Triple-pure _ tt))

  clean_pools-Legal :
      (uj : UpgradeJob) (mcps : List MachineConfigPool) → Writes (clean_pools env uj mcps) Any
  unfolding clean_pools
  clean_pools-Legal uj [] = Triple-pure _ tt
  clean_pools-Legal uj (mcp ∷ mcps) =
      Triple-when _ _ _ (λ _. clean_pools-Legal uj mcps)
        (λ _.
          Triple-bind Any _ _ (clean_pool-Legal uj mcp)
            (λ r _. Triple-bind Any _ _ (clean_pools-Legal r.0 mcps) (λ _ _. Triple-pure _ tt)))

  pub cleanup_pools-Legal : (uj : UpgradeJob) → Writes (cleanup_machine_config_pools env uj) Any
  unfolding cleanup_machine_config_pools
  cleanup_pools-Legal uj =
      Triple-bind Any _ _
        (Triple-context _ _ (Triple-send-Any env.server list_all_pools (λ h p. (tt, p))))
        (λ mcps _.
          Triple-bind Any _ _ (clean_pools-Legal uj mcps) (λ es _. Triple-return_errors es))

  pause_pools-Legal : (mcps : List MachineConfigPool) → Writes (pause_pools env mcps) Any
  unfolding pause_pools
  pause_pools-Legal [] = Triple-pure _ tt
  pause_pools-Legal (mcp ∷ mcps) =
      Triple-when _ _ _ (λ _. pause_pools-Legal mcps)
        (λ _.
          Triple-bind _ _ _
            (Triple-attempt _ (Triple-send-Any env.server (update_pool _) (λ h p. (tt, p))))
            (λ _ _. Triple-bind Any _ _ (pause_pools-Legal mcps) (λ _ _. Triple-pure _ tt)))

  report_paused_on_failure-Legal :
      (uj : UpgradeJob) (es : List openshift_upgrade_contro.Exec.Error)
      → IsConsistent env uj
      → Writes (report_paused_on_failure env uj es) Any
  unfolding report_paused_on_failure
  report_paused_on_failure-Legal uj es c =
      Triple-bind _ _ _ (set_status_condition-IsMarked env a (tick env a laws LockOk) uj _) (λ r s.
        Triple-when _ _ _ (λ _. Triple-return_errors es)
          (λ _.
            Triple-bind _ _ _
              (Triple-attempt _ (
                update_status-IsStored env a laws LockOk r.0
                  (set_paused-IsConsistent env uj r.0 c s)))
              (λ u _. Triple-return_errors _)))

  pub pause_on_failure-Legal :
      (uj : UpgradeJob) → IsConsistent env uj → Writes (pause_machine_pools_on_failure env uj) Any
  unfolding pause_machine_pools_on_failure
  pause_on_failure-Legal uj c =
      Triple-when _ _ _ (λ _. Triple-pure _ tt)
        (λ _.
          Triple-when _ _ _ (λ _. Triple-pure _ tt)
            (λ _.
              Triple-option _ _ _ (λ _. Triple-raise _)
                (λ _ _.
                  Triple-bind Any _ _
                    (Triple-context _ _
                      (Triple-send-Any env.server (list_pools _) (λ h p. (tt, p))))
                    (λ mcps _.
                      Triple-bind Any _ _ (pause_pools-Legal mcps)
                        (λ es _. report_paused_on_failure-Legal uj es c)))))
