-- ===== src/UpgradeJob/Window.antt =====
-- Suspension windows: `matchingUpgradeSuspensionWindow` and `checkAndMarkSkipped` of the job's
-- controller.
use openshift_upgrade_contro.Prelude.{◌<>◌, Bool, true, false, Option, ◌&&◌, ◌||◌, not, find_first}
use openshift_upgrade_contro.Api.Time.{Time, before, after}
use openshift_upgrade_contro.Api.Meta.{status_true}
use openshift_upgrade_contro.Api.Job.{UpgradeJob, condition_succeeded}
use openshift_upgrade_contro.Api.Window.{UpgradeSuspensionWindow}
use openshift_upgrade_contro.Exec.{
  M, ◌>>=◌, ◌>>◌, pure, context, send, list_windows, option_case, match_option,
}
use openshift_upgrade_contro.UpgradeJob.Env.{Env}
use openshift_upgrade_contro.UpgradeJob.Status.{mark, condition}

module _ (env : Env) where
  -- The tests of the loop: a selector that cannot be parsed matches nothing.
  unfoldable pub window_matches : UpgradeJob → Time → UpgradeSuspensionWindow → Bool
  window_matches uj t w =
      option_case (env.as_selector w.job_selector) false (λ matches. matches uj.meta.labels)
      && not (before t w.start || after t w.end)

  unfoldable pub matching_upgrade_suspension_window :
      UpgradeJob → Time → M (Option UpgradeSuspensionWindow)
  matching_upgrade_suspension_window uj t = do
    all_windows ← context "failed to list hooks" (send env.server (list_windows uj.meta.namespace))
    pure (find_first (window_matches uj t) all_windows)

  unfoldable pub check_and_mark_skipped : UpgradeJob → Time → M Bool
  check_and_mark_skipped uj now = do
    window ←
        context "failed to search for matching upgrade suspension window"
          (matching_upgrade_suspension_window uj now)
    match_option window (pure false) (λ w. do
      mark env uj (
          condition condition_succeeded status_true "Skipped" (
            "Upgrade job skipped by UpgradeSuspensionWindow "
            <> (env.quote w.meta.name <> (", reason: " <> env.quote w.reason))))
      pure true)
