-- ===== src/Metrics/Described.antt =====
-- When a metric fits the descriptors of its collector: `MustNewConstMetric` panics at a wrong number of
-- labels, and the registry refuses a metric that was not described.
use openshift_upgrade_contro.Prelude.{
  ℕ, suc, Bool, true, any_of, str_eq, ◌≡◌, refl, String, List, [], ◌∷◌, ◌++◌, map, length, All,
}
use openshift_upgrade_contro.Api.Time.{Time}
use openshift_upgrade_contro.Api.Upstream.{MachineConfigPool}
use openshift_upgrade_contro.Api.Config.{UpgradeConfig}
use openshift_upgrade_contro.Api.Job.{UpgradeJob}
use openshift_upgrade_contro.Api.Hook.{UpgradeJobHook}
use openshift_upgrade_contro.Api.Window.{UpgradeSuspensionWindow}
use openshift_upgrade_contro.Exec.{Error, wrap, Result, ok, err, History, M, result_case}
use openshift_upgrade_contro.Exec.Triple.{
  Triple, Any, Holds, Holds-Any, Triple-pure, Triple-bind, Triple-result,
}
use openshift_upgrade_contro.Metrics.{
  cluster_upgrading_desc, pools_upgrading_desc, pools_paused_desc, window_info_desc,
  window_start_desc, window_end_desc, config_info_desc, config_pin_version_window_desc,
  config_next_possible_schedule_desc, Env, Desc, Metric, gauge, invalid_metric, label_names,
  fq_name, window_matching_configs_desc,
}
use openshift_upgrade_contro.Metrics.Collect.{
  job_descs, all_invalid, concat_map, pool_metrics, window_metrics, schedule_metrics,
  config_metrics, job_metrics, collect_pools, collect_jobs, collect_information,
  describe_information,
}
use openshift_upgrade_contro.Metrics.Objects.{
  extract_cv_fields, overlay_metric, collect_cluster_version, collect_nodes, collect_machines,
  machine_metric, describe_cluster_version, describe_nodes, describe_machines,
}

-- A registry tells descriptors apart by their names.
abbrev pub described : List Desc → Desc → Bool
unfolding fq_name
described ds d = any_of (λ d'. str_eq (fq_name d') (fq_name d)) ds

abbrev pub IsDescribed : List Desc → Metric → Type 0
IsDescribed ds (gauge d v ls) = (described ds d ≡ true) × (length ls ≡ length (label_names d))
IsDescribed ds (invalid_metric d e) = described ds d ≡ true

module _ (ds : List Desc) where
  All-append :
      (xs ys : List Metric)
      → All (IsDescribed ds) xs
      → All (IsDescribed ds) ys
      → All (IsDescribed ds) (xs ++ ys)
  All-append [] ys ps qs = qs
  All-append (x ∷ xs) ys ps qs = (ps.0, All-append xs ys ps.1 qs)

  All-map :
      {A : Type 0} (f : A → Metric)
      → ((a : A) → IsDescribed ds (f a))
      → (xs : List A) → All (IsDescribed ds) (map f xs)
  All-map f h [] = tt
  All-map f h (x ∷ xs) = (h x, All-map f h xs)

  All-concat_map :
      {A : Type 0} (f : A → List Metric)
      → ((a : A) → All (IsDescribed ds) (f a))
      → (xs : List A) → All (IsDescribed ds) (concat_map f xs)
  unfolding concat_map
  All-concat_map f h [] = tt
  All-concat_map f h (x ∷ xs) = All-append (f x) (concat_map f xs) (h x) (All-concat_map f h xs)

  All-all_invalid :
      (bad : List Desc) (e : Error)
      → All (λ d. described ds d ≡ true) bad
      → All (IsDescribed ds) (all_invalid bad e)
  All-all_invalid [] e h = tt
  All-all_invalid (d ∷ bad) e h = (h.0, All-all_invalid bad e h.1)

  -- An error is reported, and an answer turned into metrics.
  All-result_case :
      {A : Type 0} (r : Result A) (f : Error → List Metric) (g : A → List Metric)
      → ((e : Error) → All (IsDescribed ds) (f e))
      → ((a : A) → All (IsDescribed ds) (g a))
      → All (IsDescribed ds) (result_case r f g)
  All-result_case (err e) f g p q = p e
  All-result_case (ok a) f g p q = q a

abbrev IsInfo : List Metric → Type 0
IsInfo = All (IsDescribed describe_information)

All-pool_metrics : (names : List String) (mcp : MachineConfigPool) → IsInfo (pool_metrics names mcp)
unfolding pool_metrics label_names fq_name
All-pool_metrics names mcp = ((refl, refl), ((refl, refl), tt))

All-window_metrics : (w : UpgradeSuspensionWindow) → IsInfo (window_metrics w)
unfolding window_metrics label_names fq_name
All-window_metrics w = (
  (refl, refl),
  (
    (refl, refl),
    ((refl, refl), All-map describe_information _ (λ c. (refl, refl)) w.matching_configs),
  ),
)

module _ (env : Env) where
  All-schedule_metrics :
      (config : UpgradeConfig) (i : ℕ) (ts : List Time) → IsInfo (schedule_metrics env config i ts)
  unfolding schedule_metrics label_names fq_name
  All-schedule_metrics config i [] = tt
  All-schedule_metrics config i (t ∷ ts) = ((refl, refl), All-schedule_metrics config (suc i) ts)

  All-config_metrics : (config : UpgradeConfig) → IsInfo (config_metrics env config)
  unfolding config_metrics label_names fq_name
  All-config_metrics config =
      ((refl, refl), ((refl, refl), All-schedule_metrics config 0 config.next_possible_schedules))

  All-job_metrics :
      (hooks : List UpgradeJobHook) (job : UpgradeJob) → IsInfo (job_metrics env hooks job)
  unfolding job_metrics label_names fq_name
  All-job_metrics hooks job = ((refl, refl), ((refl, refl), ((refl, refl), tt)))

  All-collect_pools : (r : Result (List MachineConfigPool)) → IsInfo (collect_pools env r)
  unfolding collect_pools fq_name
  All-collect_pools r =
      All-result_case describe_information r _ _
        (λ e.
          All-all_invalid describe_information
            (cluster_upgrading_desc ∷ pools_upgrading_desc ∷ pools_paused_desc ∷ [])
            (wrap "failed to list machine config pools" e) (refl, (refl, (refl, tt))))
        (λ mcps. All-concat_map describe_information _ (All-pool_metrics _) mcps)

  abbrev Anywhere : History → Type 0
  Anywhere h = Unit

  Anywhere-Any : {A : Type 0} (m : M A) → Triple Anywhere m Any
  Anywhere-Any m = record { at = λ h p. (tt, Holds-Any (m h).0) }

  collect_jobs-IsDescribed : Triple Anywhere (collect_jobs env) IsInfo
  unfolding collect_jobs fq_name
  collect_jobs-IsDescribed = Triple-bind Any _ _ (Anywhere-Any _) (λ r _.
      Triple-result Any r _ _ (Holds-Any r)
        (λ e. Triple-pure _ (
          All-all_invalid describe_information (job_descs env)
            (wrap "failed to list upgrade jobs" e) (refl, (refl, (refl, tt)))))
        (λ jobs _. Triple-bind Any _ _ (Anywhere-Any _) (λ r' _. Triple-pure _ (
          All-result_case describe_information r' _ _
            (λ e.
              All-all_invalid describe_information (job_descs env)
                (wrap "failed to list upgrade job hooks" e) (refl, (refl, (refl, tt))))
            (λ hooks. All-concat_map describe_information _ (All-job_metrics hooks) jobs)))))

  collect_information-IsDescribed : Triple Anywhere (collect_information env) IsInfo
  unfolding collect_information label_names fq_name
  collect_information-IsDescribed = Triple-bind Any _ _ (Anywhere-Any _) (λ pools _.
      Triple-bind Any _ _ (Anywhere-Any _) (λ cv _.
        Triple-bind Any _ _ (Anywhere-Any _) (λ windows _.
          Triple-bind Any _ _ (Anywhere-Any _) (λ configs _.
            Triple-bind _ _ _ collect_jobs-IsDescribed (λ jobs js. Triple-pure _ (
              All-append describe_information _ _ (All-collect_pools pools) (
                All-append describe_information _ _
                  (All-result_case describe_information cv _ _ (λ e. (refl, tt))
                    (λ v. ((refl, refl), tt)))
                  (All-append describe_information _ _
                    (All-result_case describe_information windows _ _
                      (λ e.
                        All-all_invalid describe_information
                          (window_info_desc ∷ window_start_desc ∷ window_end_desc
                            ∷ window_matching_configs_desc ∷ [])
                          (wrap "failed to list upgrade suspension windows" e)
                          (refl, (refl, (refl, (refl, tt)))))
                      (All-concat_map describe_information _ All-window_metrics))
                    (All-append describe_information _ _
                      (All-result_case describe_information configs _ _
                        (λ e.
                          All-all_invalid describe_information
                            (config_info_desc ∷ config_pin_version_window_desc
                              ∷ config_next_possible_schedule_desc ∷ [])
                            (wrap "failed to list upgrade configs" e) (refl, (refl, (refl, tt))))
                        (All-concat_map describe_information _ All-config_metrics))
                      js)))))))))

  collect_cluster_version-IsDescribed :
      Triple Anywhere (collect_cluster_version env) (All (IsDescribed describe_cluster_version))
  unfolding collect_cluster_version overlay_metric extract_cv_fields label_names fq_name
  collect_cluster_version-IsDescribed = Triple-bind Any _ _ (Anywhere-Any _) (λ r _. Triple-pure _ (
      All-result_case describe_cluster_version r _ _ (λ e. (refl, (refl, tt)))
        (λ cv. ((refl, refl), All-map describe_cluster_version _ (λ o. (refl, refl)) _))))

  collect_nodes-IsDescribed : Triple Anywhere (collect_nodes env) (All (IsDescribed describe_nodes))
  unfolding collect_nodes label_names fq_name
  collect_nodes-IsDescribed = Triple-bind Any _ _ (Anywhere-Any _) (λ r _. Triple-pure _ (
      All-result_case describe_nodes r _ _ (λ e. (refl, tt))
        (λ nodes. All-map describe_nodes _ (λ n. (refl, refl)) nodes)))

  collect_machines-IsDescribed :
      Triple Anywhere (collect_machines env) (All (IsDescribed describe_machines))
  unfolding collect_machines machine_metric label_names fq_name
  collect_machines-IsDescribed = Triple-bind Any _ _ (Anywhere-Any _) (λ r _. Triple-pure _ (
      All-result_case describe_machines r _ _ (λ e. (refl, tt))
        (λ machines. All-map describe_machines machine_metric (λ m. (refl, refl)) machines)))

  -- Whatever the server answers, every metric that a collector sends has a descriptor that the
  -- collector describes, and as many label values as the descriptor has label names.
  pub collect-IsDescribed :
      (h : History)
      → Holds (All (IsDescribed describe_information)) (collect_information env h).0
        × Holds (All (IsDescribed describe_cluster_version)) (collect_cluster_version env h).0
        × Holds (All (IsDescribed describe_nodes)) (collect_nodes env h).0
        × Holds (All (IsDescribed describe_machines)) (collect_machines env h).0
  collect-IsDescribed h = (
    (collect_information-IsDescribed.at h tt).1,
    (collect_cluster_version-IsDescribed.at h tt).1,
    (collect_nodes-IsDescribed.at h tt).1,
    (collect_machines-IsDescribed.at h tt).1,
  )
