-- ===== src/UpgradeJob/Hooks.antt =====
-- `executeHooks`: which hooks a job claims for an event, what their jobs say, and what follows.
use text.Mathlib.Text.{starts_with}
use openshift_upgrade_contro.Prelude.{
  String, ◌<>◌, str_eq, Bool, true, false, ◌&&◌, ◌||◌, not, Option, none, some, List, [], ◌∷◌, ◌++◌,
  any_of, is_empty, if◌then◌else◌,
}
use openshift_upgrade_contro.Prelude.Dict.{Map}
use openshift_upgrade_contro.Prelude.Text.{join}
use openshift_upgrade_contro.Api.Time.{Time, is_zero, after}
use openshift_upgrade_contro.Api.Meta.{status_true}
use openshift_upgrade_contro.Api.Job.{
  UpgradeJob, HookJobTracker, complete, failed, active, condition_failed, condition_succeeded,
  reason_pod_failure_policy,
}
use openshift_upgrade_contro.Api.Hook.{
  UpgradeEvent, contains_event, influences_outcome, can_skip_update, get_failure_policy,
  failure_policy_ignore, UpgradeJobHook, claim,
}
use openshift_upgrade_contro.Exec.{
  Error, M, ◌>>=◌, pure, attempt, raise, context, send, list_hooks, update_hook_status, option_case,
  result_case, combine, match_option, when◌then◌else◌,
}
use openshift_upgrade_contro.UpgradeJob.Env.{Env}
use openshift_upgrade_contro.UpgradeJob.Status.{
  find_condition, mark, condition, failed_condition, job_claimer,
}
use openshift_upgrade_contro.UpgradeJob.HookJob.{job_for_upgrade_job_and_hook}

-- What the second loop collects.
pub record Tally : Type 0 where
  pub active_jobs : List String
  pub errors : List Error
  pub failed_jobs : List String
  pub skips : List String

abbrev pub no_tally : Tally
no_tally = record { active_jobs = []; errors = []; failed_jobs = []; skips = [] }

abbrev pub is_some_condition {ℓ} : {A : Type ℓ} → Option A → Bool
is_some_condition none = false
is_some_condition (some c) = true

module _ (env : Env) where
  -- The tests of the first loop, before the claim.
  unfoldable pub selects : UpgradeJob → UpgradeEvent → Time → UpgradeJobHook → Bool
  selects uj event cutoff hook =
      contains_event hook.spec.events event
      && (not (not (is_zero cutoff) && after hook.meta.creation_timestamp cutoff)
          && option_case (env.as_selector (some hook.spec.selector)) false
              (λ matches. matches uj.meta.labels))

  -- A claimed hook is written, and stands in the list as the server answers.
  unfoldable pub claim_hook : UpgradeJob → UpgradeJobHook → M (Option UpgradeJobHook)
  claim_hook uj hook =
      let (hook', ok, upd) = claim hook (job_claimer uj) in
      when not ok
      then pure none
      else when upd
      then (do h ← send env.server (update_hook_status hook'); pure (some h))
      else pure (some hook')

  unfoldable pub claim_hooks :
      UpgradeJob → UpgradeEvent → Time → List UpgradeJobHook → M (List UpgradeJobHook)
  claim_hooks uj event cutoff [] = pure []
  claim_hooks uj event cutoff (hook ∷ hooks) =
      let rest = claim_hooks uj event cutoff hooks in
      when selects uj event cutoff hook
      then (do
        claimed ← claim_hook uj hook
        more ← rest
        pure (option_case claimed more (λ h. h ∷ more)))
      else rest

  -- The body of the loop over the jobs of one hook.
  unfoldable pub tally_job : UpgradeJobHook → HookJobTracker → Tally → Tally
  tally_job hook job t = elim job.status [
    | active ↦ record t { active_jobs = t.active_jobs ++ (job.upgrade_job_hook_name ∷ []) }
    | complete ↦ t
    | failed ↦
        if hook.spec.pod_failure_policy_skips_upgrade
          && starts_with job.reason reason_pod_failure_policy
        then record t {
          skips =
              t.skips
              ++ (("hook "
                    <> (env.quote hook.meta.name <> (" caused upgrade skip: " <> job.message)))
                  ∷ []);
        }
        else if str_eq (get_failure_policy hook.spec) failure_policy_ignore
        then t
        else record t {
          failed_jobs =
              t.failed_jobs
              ++ (("hook " <> (env.quote hook.meta.name <> (" failed: " <> job.message))) ∷ []);
        }
  ]

  unfoldable pub tally_jobs : UpgradeJobHook → List HookJobTracker → Tally → Tally
  unfolding tally_job
  tally_jobs hook [] t = t
  tally_jobs hook (job ∷ jobs) t = tally_jobs hook jobs (tally_job hook job t)

  unfoldable pub run_hooks :
      UpgradeJob → UpgradeEvent → String → Map String → Bool → List UpgradeJobHook → Tally → M Tally
  run_hooks uj event key info disruptive [] t = pure t
  run_hooks uj event key info disruptive (hook ∷ hooks) t = do
    jobs ← attempt (job_for_upgrade_job_and_hook env uj hook event key info disruptive)
    run_hooks uj event key info disruptive hooks (
        result_case jobs (λ e. record t { errors = t.errors ++ (e ∷ []) })
          (λ js. tally_jobs hook js t))

  -- The job has a condition `Succeeded` or `Failed`, whatever its status.
  unfoldable pub job_finished : UpgradeJob → Bool
  job_finished uj =
      is_some_condition (find_condition env condition_succeeded uj)
      || is_some_condition (find_condition env condition_failed uj)

  -- What follows from the tally: whether to go on, and the job after the call.
  unfoldable pub conclude : UpgradeJob → UpgradeEvent → Tally → M (Bool × UpgradeJob)
  conclude uj event t =
      match_option (combine t.errors)
        (when not (is_empty t.active_jobs)
          then pure (false, uj)
          else when not (is_empty t.failed_jobs)
              && (influences_outcome event && not (job_finished uj))
          then (do
            uj' ← mark env uj (failed_condition env "HookFailed" (join ", " t.failed_jobs))
            pure (false, uj'))
          else when not (is_empty t.skips) && (can_skip_update event && not (job_finished uj))
          then (do
            uj' ←
                mark env uj (
                  condition condition_succeeded status_true "HookRequestedSkip" (join ", " t.skips))
            pure (false, uj'))
          else pure (true, uj))
        raise

  unfoldable pub execute_hooks :
      UpgradeJob → UpgradeEvent → String → Map String → Time → M (Bool × UpgradeJob)
  execute_hooks uj event key info cutoff = do
    all_hooks ← context "failed to list hooks" (send env.server (list_hooks uj.meta.namespace))
    hooks ← claim_hooks uj event cutoff all_hooks
    let disruptive = any_of (λ (h : UpgradeJobHook). h.spec.disruptive) hooks
    t ← run_hooks uj event key info disruptive hooks no_tally
    conclude uj event t
