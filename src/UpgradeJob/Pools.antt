-- ===== src/UpgradeJob/Pools.antt =====
-- Machine config pools: paused while their upgrade is delayed, unpaused after it, cleaned up when the
-- job has succeeded and paused when it has failed.
use openshift_upgrade_contro.Prelude.{
  ◌<>◌, str_eq, Bool, true, false, ◌&&◌, ◌||◌, not, List, [], ◌∷◌, ◌++◌, if◌then◌else◌,
}
use openshift_upgrade_contro.Prelude.Int.{pos, ltb_ℤ, leb_ℤ, eqb_ℤ}
use openshift_upgrade_contro.Prelude.Dict.{insert, remove, read}
use openshift_upgrade_contro.Api.Time.{Duration, zero_time}
use openshift_upgrade_contro.Api.Upstream.{MachineConfigPool}
use openshift_upgrade_contro.Api.Job.{
  UpgradeJob, MachineConfigPoolSpec, DelayUpgradeSpec, condition_machine_config_pools_paused,
}
use openshift_upgrade_contro.Api.Hook.{machine_config_pool_unpause}
use openshift_upgrade_contro.Exec.{
  Error, failure, wrap, both, M, ◌>>=◌, ◌>>◌, pure, raise, attempt, context, send, list_pools,
  list_all_pools, update_pool, result_case, return_errors, match_option, match_result,
  when◌then◌else◌,
}
use openshift_upgrade_contro.UpgradeJob.Env.{Env}
use openshift_upgrade_contro.UpgradeJob.Status.{
  set_status_condition, update_status, condition, failed_condition, bool_to_status, lock_val,
}
use openshift_upgrade_contro.UpgradeJob.Lock.{job_lock_annotation}
use openshift_upgrade_contro.UpgradeJob.Requeue.{time_since_start_after}
use openshift_upgrade_contro.UpgradeJob.HookJob.{event_info_unpause}
use openshift_upgrade_contro.UpgradeJob.Hooks.{execute_hooks}

-- Where the loops over the pools stand: stopped to wait for the hooks of a pool, or going on. The
-- fields are `controllerManagesPools` and `controllerPausedPools`.
pub data Walk : Type 0 where
  stopped : UpgradeJob → Walk
  walking : UpgradeJob → Bool → Bool → Walk

unfoldable pub match_walk :
    {B : Type 0} → Walk → (UpgradeJob → M B) → (UpgradeJob → Bool → Bool → M B) → M B
match_walk (stopped uj) f g = f uj
match_walk (walking uj manages paused) f g = g uj manages paused

-- delayUpgrade == UpgradeJobMachineConfigPoolDelayUpgradeSpec{}
unfoldable pub no_delay : DelayUpgradeSpec → Bool
no_delay d = eqb_ℤ d.delay_min (pos 0) && eqb_ℤ d.delay_max (pos 0)

-- A pool that is paused or unpaused by the job carries its name for the cleanup.
unfoldable pub managed_pool : UpgradeJob → Bool → MachineConfigPool → MachineConfigPool
managed_pool uj pause mcp = record mcp {
  meta = record mcp.meta {
    annotations = insert job_lock_annotation (lock_val uj) mcp.meta.annotations;
  };
  paused = pause;
}

module _ (env : Env) where
  -- The delay has run out before the pool was unpaused. Always an error.
  unfoldable pub expire : UpgradeJob → MachineConfigPool → M Walk
  expire uj mcp = do
    let msg = "unpausing of pool " <> (env.quote mcp.meta.name <> " expired")
    r ← set_status_condition env uj (failed_condition env "UnpausingPoolsExpired" msg)
    u ← attempt (update_status env r.0)
    raise (result_case u (λ e. both (failure msg) e) (λ _. failure msg))

  -- `pause` is `shouldPause`.
  unfoldable pub set_paused : UpgradeJob → Bool → Bool → MachineConfigPool → M Walk
  set_paused uj pause paused mcp = do
    context "failed to pause/unpause machine config pool"
        (send env.server (update_pool (managed_pool uj pause mcp)))
    pure (walking uj true paused)

  unfoldable pub unpause : UpgradeJob → Bool → MachineConfigPool → M Walk
  unpause uj paused mcp = do
    r ← context "failed to execute unpause hooks for machine config pool" (
        execute_hooks env uj machine_config_pool_unpause mcp.meta.name
          (event_info_unpause "DelayReached" mcp.meta.name) zero_time)
    when not r.0 then pure (stopped r.1) else set_paused r.1 false paused mcp

  -- The body of the inner loop.
  unfoldable pub visit_pool :
      DelayUpgradeSpec → Duration → UpgradeJob → Bool → MachineConfigPool → M Walk
  visit_pool delay since uj paused mcp =
      let pause = ltb_ℤ since delay.delay_min in
      when mcp.paused
        && (not pause && (ltb_ℤ (pos 0) delay.delay_max && leb_ℤ delay.delay_max since))
      then expire uj mcp
      else when mcp.paused && not pause
      then unpause uj (paused || pause) mcp
      else when not mcp.paused && pause
      then set_paused uj pause (paused || pause) mcp
      else pure (walking uj true (paused || pause))

  unfoldable pub visit_pools :
      DelayUpgradeSpec → Duration → UpgradeJob → Bool → Bool → List MachineConfigPool → M Walk
  visit_pools delay since uj manages paused [] = pure (walking uj manages paused)
  visit_pools delay since uj manages paused (mcp ∷ mcps) = do
    w ← visit_pool delay since uj paused mcp
    match_walk w (λ uj'. pure (stopped uj')) (λ uj' m p. visit_pools delay since uj' m p mcps)

  -- The outer loop, over the pools of the job's specification.
  unfoldable pub visit_specs : UpgradeJob → Bool → Bool → List MachineConfigPoolSpec → M Walk
  visit_specs uj manages paused [] = pure (walking uj manages paused)
  visit_specs uj manages paused (spec ∷ specs) =
      let skip = visit_specs uj manages paused specs in
      when no_delay spec.delay_upgrade then skip else (do
        since ← time_since_start_after env uj
        match_option (env.as_selector spec.match_labels)
            (raise (failure "failed to parse machine config pool selector"))
            (λ _. do
              mcps ←
                  context "failed to list machine config pools"
                    (send env.server (list_pools spec.match_labels))
              w ← visit_pools spec.delay_upgrade since uj manages paused mcps
              match_walk w (λ uj'. pure (stopped uj')) (λ uj' m p. visit_specs uj' m p specs)))

  unfoldable pub report_paused : UpgradeJob → Bool → Bool → M (Bool × UpgradeJob)
  report_paused uj manages paused = do
    r ← set_status_condition env uj (
        condition condition_machine_config_pools_paused (bool_to_status paused)
          (if manages then "DelaySet" else "NoManagedPools") "")
    when r.1 then (do uj' ← update_status env r.0; pure (true, uj')) else pure (true, r.0)

  -- Whether to go on, and the job after the call.
  unfoldable pub pause_unpause_machine_config_pools : UpgradeJob → M (Bool × UpgradeJob)
  pause_unpause_machine_config_pools uj = do
    w ← visit_specs uj false false uj.spec.config.machine_config_pools
    match_walk w (λ uj'. pure (false, uj')) report_paused

  -- Writes back a pool without the job's annotation.
  unfoldable pub release_pool : MachineConfigPool → M (List Error)
  release_pool mcp = do
    r ← attempt (send env.server (update_pool mcp))
    pure (result_case r (λ e. wrap "failed to cleanup machine config pool" e ∷ []) (λ _. []))

  -- The body of the cleanup loop, for a pool that carries the job's name. The result is the job as
  -- the hooks left it, and the errors.
  unfoldable pub clean_pool : UpgradeJob → MachineConfigPool → M (UpgradeJob × List Error)
  clean_pool uj mcp =
      let free = record mcp {
        meta = record mcp.meta { annotations = remove job_lock_annotation mcp.meta.annotations };
        paused = false;
      } in
      when mcp.paused
      then (do
        r ← attempt (
            execute_hooks env uj machine_config_pool_unpause mcp.meta.name
              (event_info_unpause "Completed" mcp.meta.name) zero_time)
        match_result r
            (λ e. pure (uj, wrap "failed to execute unpause hooks for machine config pool" e ∷ []))
            (λ p. do es ← release_pool free; pure (p.1, es)))
      else (do es ← release_pool free; pure (uj, es))

  unfoldable pub clean_pools : UpgradeJob → List MachineConfigPool → M (List Error)
  clean_pools uj [] = pure []
  clean_pools uj (mcp ∷ mcps) =
      let skip = clean_pools uj mcps in
      when not (str_eq (read job_lock_annotation mcp.meta.annotations) (lock_val uj))
      then skip
      else (do r ← clean_pool uj mcp; more ← clean_pools r.0 mcps; pure (r.1 ++ more))

  unfoldable pub cleanup_machine_config_pools : UpgradeJob → M (Unit {0})
  cleanup_machine_config_pools uj = do
    mcps ← context "failed to list machine config pools" (send env.server list_all_pools)
    es ← clean_pools uj mcps
    return_errors es
