-- ===== src/WindowStatus.antt =====
-- controllers/upgradesuspensionwindow_controller.go: the status of a suspension window names the configs
-- and jobs that it matches. metav1.LabelSelectorAsSelector is a parameter, as a test for parse errors.
pub mod Laws
use openshift_upgrade_contro.Prelude.{String, Bool, true, false, ◌&&◌, not, Option, List, map, keep}
use openshift_upgrade_contro.Prelude.Text.{string_lt}
use openshift_upgrade_contro.Prelude.Sort.{sort_by}
use openshift_upgrade_contro.Api.Time.{before, after}
use openshift_upgrade_contro.Api.Meta.{NamespacedName, LabelSelector}
use openshift_upgrade_contro.Api.Job.{UpgradeJob}
use openshift_upgrade_contro.Api.Config.{UpgradeConfig}
use openshift_upgrade_contro.Api.Window.{UpgradeSuspensionWindow}
use openshift_upgrade_contro.Exec.{
  Server, failure, M, ◌>>=◌, ◌>>◌, pure, raise, attempt, context, send, get_window,
  list_selected_configs, list_selected_jobs, update_window_status, match_result, when◌then◌else◌,
}
use openshift_upgrade_contro.UpgradeJob.Status.{Outcome, no_requeue}
use openshift_upgrade_contro.UpgradeJob.Reconcile.{is_deleted}
use openshift_upgrade_contro.UpgradeJob.Track.{is_not_found}

pub record Env : Type 0 where
  pub server : Server
  pub can_parse : Option LabelSelector → Bool

-- The name of the object that goes into the status.
abbrev pub name_of_config : UpgradeConfig → String
name_of_config config = config.meta.name

abbrev pub name_of_job : UpgradeJob → String
name_of_job job = job.meta.name

unfoldable pub starts_in : UpgradeSuspensionWindow → UpgradeJob → Bool
starts_in usw job =
    not (before job.spec.start_after usw.start) && not (after job.spec.start_after usw.end)

unfoldable pub with_matches :
    UpgradeSuspensionWindow → List UpgradeConfig → List UpgradeJob → UpgradeSuspensionWindow
unfolding sort_by
with_matches usw configs jobs = record usw {
  matching_configs = sort_by string_lt (map name_of_config configs);
  matching_jobs = sort_by string_lt (map name_of_job (keep (starts_in usw) jobs));
}

module _ (env : Env) where
  unfoldable pub reconcile_window : UpgradeSuspensionWindow → M Outcome
  reconcile_window usw =
      when is_deleted usw.meta
      then pure no_requeue
      else when not (env.can_parse usw.config_selector)
      then raise (failure "failed to parse config selector")
      else (do
        configs ←
            context "failed to list matching UpgradeConfigs"
              (send env.server (list_selected_configs usw.config_selector))
        when not (env.can_parse usw.job_selector)
            then raise (failure "failed to parse job selector")
            else (do
              jobs ←
                  context "failed to list matching UpgradeJobs"
                    (send env.server (list_selected_jobs usw.job_selector))
              context "failed to update status"
                  (send env.server (update_window_status (with_matches usw configs jobs)))
              pure no_requeue))

  unfoldable pub reconcile : NamespacedName → M Outcome
  reconcile nn = do
    r ← attempt (send env.server (get_window nn))
    match_result r (λ e. when is_not_found e then pure no_requeue else raise e) reconcile_window
