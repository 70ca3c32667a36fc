-- ===== src/UpgradeConfig/Window.antt =====
-- The search for the run of the schedule that a job is created for, and the suspension windows of the
-- config.
pub mod Laws
use openshift_upgrade_contro.Prelude.{
  ℕ, zero, suc, Bool, true, false, ◌&&◌, ◌||◌, not, Option, none, some, find_first,
}
use openshift_upgrade_contro.Prelude.Int.{pos}
use openshift_upgrade_contro.Api.Time.{Time, Duration, add_time, sub_time, before, after}
use openshift_upgrade_contro.Api.Duration.{sub_duration}
use openshift_upgrade_contro.Api.Window.{UpgradeSuspensionWindow}
use openshift_upgrade_contro.Api.Config.{UpgradeConfig, UpgradeConfigSpec}
use openshift_upgrade_contro.Exec.{
  M, ◌>>=◌, pure, context, send, list_windows, option_case, Result, ok, err, wrap, failure,
}
use openshift_upgrade_contro.Schedule.{Schedule, next}
use openshift_upgrade_contro.UpgradeConfig.{Env}

-- What the search ends with: a window that has not opened yet, with the time until it does, or the
-- run whose window is open.
pub data Search : Type 0 where
  too_early : Duration → Search
  in_window : Time → Search

-- nextRun.Add(-uc.Spec.PinVersionWindow.Duration)
unfoldable pub window_start : UpgradeConfigSpec → Time → Time
unfolding add_time sub_duration
window_start spec run = add_time run (sub_duration (pos 0) spec.pin_version_window)

-- nextCreateJobWindow.Add(uc.Spec.MaxSchedulingDelay.Duration)
unfoldable pub window_end : UpgradeConfigSpec → Time → Time
unfolding window_start add_time
window_end spec run = add_time (window_start spec run) spec.max_scheduling_delay

-- The loop `findNextRun`, with the attempts that are left.
unfoldable pub find_next_run : Schedule → UpgradeConfigSpec → Time → ℕ → Time → Result Search
find_next_run sched spec now zero run = err (failure "could not find next scheduling window")
find_next_run sched spec now (suc left) run = elim (next sched run) [
  | err e ↦ err (wrap "could not find next run" e)
  | ok t ↦ elim (before now (window_start spec t)) [
    | true ↦ ok (too_early (sub_time (window_start spec t) now))
    | false ↦ elim (after now (window_end spec t)) [
      | false ↦ ok (in_window t)
      | true ↦ find_next_run sched spec now left t
    ]
  ]
]

-- The search gives up when the attempt after the hundredth finds a window that is over.
abbrev pub max_attempts : ℕ
max_attempts = 101

module _ (env : Env) where
  unfoldable pub window_matches : UpgradeConfig → Time → UpgradeSuspensionWindow → Bool
  window_matches uc t w =
      option_case (env.as_selector w.config_selector) false (λ matches. matches uc.meta.labels)
      && not (before t w.start || after t w.end)

  unfoldable pub matching_upgrade_suspension_window :
      UpgradeConfig → Time → M (Option UpgradeSuspensionWindow)
  matching_upgrade_suspension_window uc t = do
    all_windows ← context "failed to list hooks" (send env.server (list_windows uc.meta.namespace))
    pure (find_first (window_matches uc t) all_windows)
