-- ===== src/UpgradeConfig/Cleanup.antt =====
-- `cleanupSuccessfulJobs`: the successful jobs beyond the limit are deleted, the oldest first to go.
pub mod Laws
use openshift_upgrade_contro.Prelude.{
  ℕ, zero, suc, Bool, true, false, List, [], ◌∷◌, ◌++◌, length, drop, keep, ltb, ◌&&◌,
  if◌then◌else◌,
}
use openshift_upgrade_contro.Prelude.Int.{ℤ, pos, negsuc}
use openshift_upgrade_contro.Prelude.Sort.{sort_by}
use openshift_upgrade_contro.Api.Time.{after}
use openshift_upgrade_contro.Api.Job.{UpgradeJob, condition_succeeded}
use openshift_upgrade_contro.Api.Config.{UpgradeConfig, get_successful_jobs_history_limit}
use openshift_upgrade_contro.Exec.{
  M, ◌>>=◌, ◌>>◌, pure, attempt, context, send, delete_upgrade_job, Error, result_case,
  return_errors,
}
use openshift_upgrade_contro.UpgradeConfig.{Env}
use openshift_upgrade_contro.UpgradeConfig.Select.{get_controlled_jobs}

-- The comparison of the sort: the later start first.
abbrev pub is_newer : UpgradeJob → UpgradeJob → Bool
is_newer a b = after a.spec.start_after b.spec.start_after

-- successfulJobs[limit:], where the limit is positive and there are more jobs.
abbrev pub beyond : ℤ → List UpgradeJob → List UpgradeJob
beyond (negsuc n) jobs = []
beyond (pos n) jobs = if ltb 0 n && ltb n (length jobs) then drop n jobs else []

module _ (env : Env) where
  -- The successful jobs, the newest first.
  unfoldable pub successful_jobs : List UpgradeJob → List UpgradeJob
  successful_jobs jobs = sort_by is_newer (
      keep
        (λ (job : UpgradeJob).
          env.apimeta.is_status_condition_true condition_succeeded job.conditions)
        jobs)

  unfoldable pub jobs_to_delete : UpgradeConfig → List UpgradeJob → List UpgradeJob
  jobs_to_delete uc jobs = beyond (get_successful_jobs_history_limit uc.spec) (successful_jobs jobs)

  unfoldable pub delete_jobs : List UpgradeJob → M (List Error)
  delete_jobs [] = pure []
  delete_jobs (job ∷ jobs) = do
    r ← attempt (send env.server (delete_upgrade_job job))
    more ← delete_jobs jobs
    pure (result_case r (λ e. e ∷ more) (λ _. more))

  unfoldable pub cleanup_successful_jobs : UpgradeConfig → M (Unit {0})
  cleanup_successful_jobs uc = do
    jobs ← context "could not get controlled jobs" (get_controlled_jobs env uc)
    es ← delete_jobs (jobs_to_delete uc jobs)
    context "could not delete jobs" (return_errors es)
