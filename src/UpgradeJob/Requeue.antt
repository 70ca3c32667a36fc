-- ===== src/UpgradeJob/Requeue.antt =====
-- `timeSinceStartAfter` and `nextTimedReconcile`.
pub mod Laws
use openshift_upgrade_contro.Prelude.{
  Bool, true, false, Option, none, some, List, [], ◌∷◌, ◌++◌, if◌then◌else◌,
}
use openshift_upgrade_contro.Prelude.Int.{ℤ, pos, ltb_ℤ}
use openshift_upgrade_contro.Prelude.Sort.{sort_by}
use openshift_upgrade_contro.Api.Time.{Time, Duration, sub_time, add_time, after}
use openshift_upgrade_contro.Api.Job.{UpgradeJob, MachineConfigPoolSpec}
use openshift_upgrade_contro.Exec.{M, ◌>>=◌, pure, read_now}
use openshift_upgrade_contro.UpgradeJob.Env.{Env}
use openshift_upgrade_contro.UpgradeJob.Status.{Outcome, no_requeue}

-- The instants that the loop collects for the pools.
unfoldable pub pool_times : Time → List MachineConfigPoolSpec → List Time
pool_times start [] = []
pool_times start (v ∷ vs) =
    add_time start v.delay_upgrade.delay_min
    ∷ add_time start v.delay_upgrade.delay_max
    ∷ pool_times start vs

unfoldable pub possible_times : UpgradeJob → List Time
unfolding pool_times
possible_times uj =
    pool_times uj.spec.start_after uj.spec.config.machine_config_pools
    ++ (add_time uj.spec.start_after uj.spec.config.upgrade_timeout ∷ [])

-- int(a.Sub(b)) < 0, on a platform with an int of 64 bits.
unfoldable pub earlier : Time → Time → Bool
unfolding sub_time
earlier a b = ltb_ℤ (sub_time a b) (pos 0)

unfoldable pub first_after : Time → List Time → Outcome
first_after now [] = no_requeue
first_after now (t ∷ ts) =
    let rest = first_after now ts in
    if after now t then rest else record { requeue = true; requeue_after = sub_time t now }

module _ (env : Env) where
  unfoldable pub time_since_start_after : UpgradeJob → M Duration
  time_since_start_after uj = do now ← read_now env.clock; pure (sub_time now uj.spec.start_after)

  unfoldable pub next_timed_reconcile : UpgradeJob → M Outcome
  next_timed_reconcile uj = do
    now ← read_now env.clock
    pure (first_after now (sort_by earlier (possible_times uj)))
