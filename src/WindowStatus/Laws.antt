-- ===== src/WindowStatus/Laws.antt =====
-- The status that is written, and the objects that match.
use mathlib.Core.List.{Perm, perm_middle}
use mathlib.Core.List.Perm
use openshift_upgrade_contro.Prelude.{
  ◌≡◌, refl, true, false, not, List, [], ◌∷◌, ◌++◌, map, keep, All, Bool-cases, inl, inr, arith,
}
use openshift_upgrade_contro.Prelude.Int.{◌≤ℤ◌}
use openshift_upgrade_contro.Prelude.Text.{string_lt}
use openshift_upgrade_contro.Prelude.Sort.Laws.{sort_by-perm}
use openshift_upgrade_contro.Api.Meta.{NamespacedName}
use openshift_upgrade_contro.Api.Job.{UpgradeJob}
use openshift_upgrade_contro.Api.Config.{UpgradeConfig}
use openshift_upgrade_contro.Api.Window.{UpgradeSuspensionWindow}
use openshift_upgrade_contro.Exec.{
  ok, err, History, Request, Result, pure, raise, get_window, list_selected_configs,
  list_selected_jobs, update_window_status, match_result, when◌then◌else◌,
}
use openshift_upgrade_contro.Exec.Triple.{
  Triple, Any, Triple-pure, Triple-raise, Triple-bind, Triple-when, Triple-attempt-send,
  Triple-context, Triple-send_shown, Triple-send-Any,
}
use openshift_upgrade_contro.UpgradeJob.Status.{no_requeue}
use openshift_upgrade_contro.UpgradeJob.Track.{is_not_found}
use openshift_upgrade_contro.WindowStatus.{
  Env, name_of_config, name_of_job, starts_in, with_matches, reconcile_window, reconcile,
}

-- The job may start during the window.
abbrev pub IsWithin : UpgradeSuspensionWindow → UpgradeJob → Type 0
IsWithin usw job = (usw.start ≤ℤ job.spec.start_after) × (job.spec.start_after ≤ℤ usw.end)

-- The jobs, parted into those that start in the window and the others.
pub record IsParted (usw : UpgradeSuspensionWindow) (jobs inside outside : List UpgradeJob)
    : Type 0 where
  pub parts : Perm (inside ++ outside) jobs
  pub within : All (IsWithin usw) inside
  pub without : All (λ job. IsWithin usw job → false ≡ true) outside

module _ (usw : UpgradeSuspensionWindow) where
  starts_in-IsWithin : (job : UpgradeJob) → starts_in usw job ≡ true → IsWithin usw job
  unfolding starts_in
  starts_in-IsWithin job h = ground arith

  IsWithin-starts_in :
      (job : UpgradeJob) → starts_in usw job ≡ false → IsWithin usw job → false ≡ true
  unfolding starts_in
  IsWithin-starts_in job h w = ground arith

  keep-IsParted :
      (jobs : List UpgradeJob)
      → IsParted usw jobs (keep (starts_in usw) jobs) (keep (λ j. not (starts_in usw j)) jobs)
  keep-IsParted [] = record { parts = Perm.refl []; within = tt; without = tt }
  keep-IsParted (j ∷ js) =
      let p = keep-IsParted js in
      elim (Bool-cases (starts_in usw j)) [
        | inl e ↦ rw e (record {
          parts = Perm.cons j p.parts;
          within = (starts_in-IsWithin j e, p.within);
          without = p.without;
        })
        | inr e ↦ rw e (record {
          parts =
              Perm.trans
                (perm_middle (keep (starts_in usw) js) (keep (λ x. not (starts_in usw x)) js))
                (Perm.cons j p.parts);
          within = p.within;
          without = (IsWithin-starts_in j e, p.without);
        })
      ]

module _ (env : Env) (nn : NamespacedName) where
  -- The status of a window: the names of the configs that the server listed for its selector, and of
  -- those listed jobs that start in the window.
  pub record IsStatus (usw : UpgradeSuspensionWindow) : Type 0 where
    pub at : History
    pub old : UpgradeSuspensionWindow
    pub shown : env.server at (get_window nn) ≡ ok old
    pub configs_at : History
    pub configs : List UpgradeConfig
    pub configs_shown :
        env.server configs_at (list_selected_configs old.config_selector) ≡ ok configs
    pub jobs_at : History
    pub jobs : List UpgradeJob
    pub jobs_shown : env.server jobs_at (list_selected_jobs old.job_selector) ≡ ok jobs
    pub inside : List UpgradeJob
    pub outside : List UpgradeJob
    pub parted : IsParted old jobs inside outside
    -- All but the status is as the server gave it.
    pub same_window :
        usw
        ≡ record old { matching_configs = usw.matching_configs; matching_jobs = usw.matching_jobs }
    pub config_names : Perm usw.matching_configs (map name_of_config configs)
    pub job_names : Perm usw.matching_jobs (map name_of_job inside)

  abbrev pub WritesStatus : Request → Type 0
  WritesStatus (update_window_status usw) = IsStatus usw
  WritesStatus _ = Unit

  reconcile_window-WritesStatus :
      (usw : UpgradeSuspensionWindow)
      → ((h : History) × (env.server h (get_window nn) ≡ ok usw))
      → Triple (All WritesStatus) (reconcile_window env usw) Any
  unfolding reconcile_window with_matches
  reconcile_window-WritesStatus usw shown =
      Triple-when _ _ _ (λ _. Triple-pure _ tt)
        (λ _.
          Triple-when _ _ _ (λ _. Triple-raise _)
            (λ _.
              Triple-bind _ _ _
                (Triple-context _ _
                  (Triple-send_shown env.server (list_selected_configs _) (λ h p. (tt, p))))
                (λ configs cs.
                  Triple-when _ _ _ (λ _. Triple-raise _)
                    (λ _.
                      Triple-bind _ _ _
                        (Triple-context _ _
                          (Triple-send_shown env.server (list_selected_jobs _) (λ h p. (tt, p))))
                        (λ jobs js.
                          let written : IsStatus (with_matches usw configs jobs) = record {
                            at = shown.0;
                            old = usw;
                            shown = shown.1;
                            configs_at = cs.0;
                            configs = configs;
                            configs_shown = cs.1;
                            jobs_at = js.0;
                            jobs = jobs;
                            jobs_shown = js.1;
                            inside = keep (starts_in usw) jobs;
                            outside = keep (λ j. not (starts_in usw j)) jobs;
                            parted = keep-IsParted usw jobs;
                            same_window = refl;
                            config_names = sort_by-perm string_lt (map name_of_config configs);
                            job_names =
                                sort_by-perm string_lt
                                  (map name_of_job (keep (starts_in usw) jobs));
                          } in
                          Triple-bind Any _ _
                            (Triple-context _ _ (
                              Triple-send-Any env.server (update_window_status _)
                                (λ h p. (written, p))))
                            (λ _ _. Triple-pure _ tt))))))

  found-WritesStatus :
      (r : Result UpgradeSuspensionWindow)
      → ((h : History) × (env.server h (get_window nn) ≡ r))
      → Triple
          (All WritesStatus)
          (match_result r
            (λ e. when is_not_found e then pure no_requeue else raise e)
            (reconcile_window env))
          Any
  unfolding match_result
  found-WritesStatus (ok usw) shown = reconcile_window-WritesStatus usw shown
  found-WritesStatus (err e) shown = Triple-when _ _ _ (λ _. Triple-pure _ tt) (λ _. Triple-raise _)

  -- Whatever the server answers, a status that is written is of the window that the server gave, which
  -- is otherwise unchanged, and names, in some order, exactly the configs that the server listed for
  -- the selector of the window and the jobs, among those that it listed, that start between the start
  -- and the end of the window, if that held of the requests before.
  pub reconcile-WritesStatus :
      (h : History) → All WritesStatus h → All WritesStatus (reconcile env nn h).1
  unfolding reconcile
  reconcile-WritesStatus h p =
      let t : Triple (All WritesStatus) (reconcile env nn) Any =
        Triple-bind _ _ _ (Triple-attempt-send env.server (get_window _) (λ h p. (tt, p)))
          (λ r shown. found-WritesStatus r shown) in
      (t.at h p).0
