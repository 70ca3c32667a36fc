-- ===== src/Metrics/Collect.antt =====
-- The methods `Describe` and `Collect` of controllers/upgrade_information_collector.go.
use openshift_upgrade_contro.Prelude.{
  ℕ, suc, String, str_eq, Bool, false, ◌||◌, not, List, [], ◌∷◌, ◌++◌, map, keep, any_of, is_empty,
}
use openshift_upgrade_contro.Prelude.Int.{pos}
use openshift_upgrade_contro.Api.Time.{Time}
use openshift_upgrade_contro.Api.Upstream.{ClusterVersion, MachineConfigPool, Update}
use openshift_upgrade_contro.Api.Job.{UpgradeJob}
use openshift_upgrade_contro.Api.Hook.{UpgradeJobHook}
use openshift_upgrade_contro.Api.Window.{UpgradeSuspensionWindow}
use openshift_upgrade_contro.Api.Config.{UpgradeConfig}
use openshift_upgrade_contro.Exec.{
  Error, wrap, Result, ok, err, M, ◌>>=◌, pure, attempt, send, list_all_pools, get_cluster_version,
  list_all_windows, list_all_configs, list_all_upgrade_jobs, list_all_hooks, list_all_nodes,
  list_machines, get_managed_version, option_case, result_case,
}
use openshift_upgrade_contro.ClusterVersion.{is_version_upgrade_completed}
use openshift_upgrade_contro.HealthCheck.{UpdatingPool, machine_config_pools_updating}
use openshift_upgrade_contro.UpgradeConfig.Select.{unix}
use openshift_upgrade_contro.UpgradeJob.Environment.{itoa}
use openshift_upgrade_contro.Metrics.{
  Env, Desc, cluster_upgrading_desc, pools_upgrading_desc, pools_paused_desc, job_state_desc,
  job_start_after_desc, job_start_before_desc, window_info_desc, window_start_desc, window_end_desc,
  window_matching_configs_desc, config_info_desc, config_pin_version_window_desc,
  config_next_possible_schedule_desc, whole, seconds_of, Metric, gauge, invalid_metric,
  bool_to_float, format_bool,
}
use openshift_upgrade_contro.Metrics.Jobs.{
  job_state_reason, job_state, job_has_matching_disruptive_hook,
}

-- Describe of the UpgradeInformationCollector
abbrev pub describe_information : List Desc
describe_information =
    cluster_upgrading_desc ∷ pools_upgrading_desc ∷ pools_paused_desc ∷ job_state_desc
    ∷ job_start_after_desc ∷ job_start_before_desc ∷ config_info_desc
    ∷ config_pin_version_window_desc ∷ config_next_possible_schedule_desc ∷ window_info_desc
    ∷ window_start_desc ∷ window_end_desc ∷ window_matching_configs_desc ∷ []

abbrev pub all_invalid : List Desc → Error → List Metric
all_invalid ds e = map (λ d. invalid_metric d e) ds

unfoldable pub concat_map : {A : Type 0} → (A → List Metric) → List A → List Metric
concat_map f [] = []
concat_map f (a ∷ as') = f a ++ concat_map f as'

-- The names in the set `pus`.
unfoldable pub upgrading_names : List MachineConfigPool → List String
unfolding machine_config_pools_updating
upgrading_names mcps =
    map (λ (p : UpdatingPool). p.name)
      (keep (λ (p : UpdatingPool). not p.paused) (machine_config_pools_updating mcps))

unfoldable pub pool_metrics : List String → MachineConfigPool → List Metric
pool_metrics names mcp =
    gauge pools_upgrading_desc (bool_to_float (any_of (λ n. str_eq n mcp.meta.name) names))
      (mcp.meta.name ∷ [])
    ∷ gauge pools_paused_desc (bool_to_float mcp.paused) (mcp.meta.name ∷ [])
    ∷ []

unfoldable pub is_upgrading : List MachineConfigPool → ClusterVersion → Bool
unfolding upgrading_names is_version_upgrade_completed
is_upgrading mcps cv =
    not (is_version_upgrade_completed cv) || not (is_empty (upgrading_names mcps))

unfoldable pub window_metrics : UpgradeSuspensionWindow → List Metric
unfolding unix
window_metrics w =
    gauge window_info_desc (whole (pos 1)) (w.meta.name ∷ w.reason ∷ [])
    ∷ gauge window_start_desc (whole (unix w.start)) (w.meta.name ∷ [])
    ∷ gauge window_end_desc (whole (unix w.end)) (w.meta.name ∷ [])
    ∷ map (λ c. gauge window_matching_configs_desc (whole (pos 1)) (w.meta.name ∷ c ∷ []))
        w.matching_configs

abbrev pub no_update : Update
no_update = record { architecture = ""; version = ""; image = ""; force = false }

module _ (env : Env) where
  -- The loop over the next schedules, with the index.
  unfoldable pub schedule_metrics : UpgradeConfig → ℕ → List Time → List Metric
  unfolding unix itoa
  schedule_metrics config i [] = []
  schedule_metrics config i (nps ∷ rest) =
      gauge config_next_possible_schedule_desc (whole (unix nps))
        (config.meta.name ∷ itoa i ∷ env.format_time nps ∷ [])
      ∷ schedule_metrics config (suc i) rest

  unfoldable pub config_metrics : UpgradeConfig → List Metric
  unfolding schedule_metrics
  config_metrics config =
      let s = config.spec.schedule in
      gauge config_info_desc (whole (pos 1))
        (config.meta.name ∷ s.cron ∷ s.location ∷ format_bool s.suspend ∷ [])
      ∷ gauge config_pin_version_window_desc (seconds_of config.spec.pin_version_window)
          (config.meta.name ∷ [])
      ∷ schedule_metrics config 0 config.next_possible_schedules

  unfoldable pub job_metrics : List UpgradeJobHook → UpgradeJob → List Metric
  unfolding unix job_state job_state_reason job_has_matching_disruptive_hook
  job_metrics hooks job =
      let v = option_case job.spec.desired_version no_update (λ (x : Update). x) in
      gauge job_state_desc (whole (pos 1)) (
        job.meta.name
        ∷ env.format_time job.spec.start_after
        ∷ env.format_time job.spec.start_before
        ∷ format_bool v.force
        ∷ v.image
        ∷ v.version
        ∷ job_state env job
        ∷ job_state_reason env job
        ∷ format_bool (job_has_matching_disruptive_hook env job hooks)
        ∷ [])
      ∷ gauge job_start_after_desc (whole (unix job.spec.start_after)) (job.meta.name ∷ [])
      ∷ gauge job_start_before_desc (whole (unix job.spec.start_before)) (job.meta.name ∷ [])
      ∷ []

  -- Pools that cannot be listed are reported, and then taken for none.
  unfoldable pub collect_pools : Result (List MachineConfigPool) → List Metric
  collect_pools r =
      result_case r
        (λ e.
          all_invalid (cluster_upgrading_desc ∷ pools_upgrading_desc ∷ pools_paused_desc ∷ [])
            (wrap "failed to list machine config pools" e))
        (λ mcps. concat_map (pool_metrics (upgrading_names mcps)) mcps)

  abbrev pub pools_or_none : Result (List MachineConfigPool) → List MachineConfigPool
  pools_or_none r = result_case r (λ _. []) (λ mcps. mcps)

  abbrev pub job_descs : List Desc
  job_descs = job_state_desc ∷ job_start_after_desc ∷ job_start_before_desc ∷ []

  unfoldable pub collect_jobs : M (List Metric)
  collect_jobs = do
    r ← attempt (send env.server list_all_upgrade_jobs)
    openshift_upgrade_contro.Exec.match_result r
        (λ e. pure (all_invalid job_descs (wrap "failed to list upgrade jobs" e)))
        (λ jobs. do
          r' ← attempt (send env.server list_all_hooks)
          pure (
              result_case r'
                (λ e. all_invalid job_descs (wrap "failed to list upgrade job hooks" e))
                (λ hooks. concat_map (job_metrics hooks) jobs)))

  -- Collect of the UpgradeInformationCollector
  unfoldable pub collect_information : M (List Metric)
  collect_information = do
    pools ← attempt (send env.server list_all_pools)
    cv ← attempt (send env.server (get_cluster_version env.upstream_name))
    windows ← attempt (send env.server list_all_windows)
    configs ← attempt (send env.server list_all_configs)
    jobs ← collect_jobs
    pure (
        collect_pools pools
        ++ (result_case cv (λ e. invalid_metric cluster_upgrading_desc e ∷ [])
              (λ v.
                gauge cluster_upgrading_desc (bool_to_float (is_upgrading (pools_or_none pools) v))
                  []
                ∷ [])
            ++ (result_case windows
                  (λ e.
                    all_invalid
                      (window_info_desc ∷ window_start_desc ∷ window_end_desc
                        ∷ window_matching_configs_desc ∷ [])
                      (wrap "failed to list upgrade suspension windows" e))
                  (concat_map window_metrics)
                ++ (result_case configs
                      (λ e.
                        all_invalid
                          (config_info_desc ∷ config_pin_version_window_desc
                            ∷ config_next_possible_schedule_desc ∷ [])
                          (wrap "failed to list upgrade configs" e))
                      (concat_map config_metrics)
                    ++ jobs))))
