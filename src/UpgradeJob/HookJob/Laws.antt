-- ===== src/UpgradeJob/HookJob/Laws.antt =====
-- When a job of a hook is created.
use openshift_upgrade_contro.Prelude.{
  String, ◌≡◌, refl, sym, subst, ◌⊎◌, inl, inr, Bool, true, false, List, ◌∷◌, ◌++◌, map, is_empty,
}
use openshift_upgrade_contro.Prelude.Dict.{Map}
use openshift_upgrade_contro.Api.Upstream.{Job}
use openshift_upgrade_contro.Api.Job.{UpgradeJob, HookJobTracker}
use openshift_upgrade_contro.Api.Hook.{UpgradeEvent, event_name, UpgradeJobHook}
use openshift_upgrade_contro.Exec.{
  History, Request, list_jobs, create_job, ok, Result-cases, M, ◌>>=◌, pure, lift, context, send,
  when◌then◌else◌, bind-pure,
}
use openshift_upgrade_contro.UpgradeJob.Env.{Env}
use openshift_upgrade_contro.UpgradeJob.HookJob.{
  normalize_as_json, hook_job, job_labels, find_tracked_hook_job, tracker_of, create_hook_job,
  job_for_upgrade_job_and_hook,
}

module _ (env : Env) (uj : UpgradeJob) (hook : UpgradeJobHook) (event : UpgradeEvent)
    (key : String) where
  -- The request for the jobs of the hook.
  abbrev pub listing : Request
  listing = list_jobs uj.meta.namespace (job_labels uj.meta.name hook.meta.name event key)

  -- The trackers that are known of them.
  abbrev pub known : List Job → List HookJobTracker
  known jobs =
      find_tracked_hook_job hook.meta.name (event_name event) key uj
      ++ map (tracker_of hook.meta.name (event_name event) key) jobs

  module _ (info : Map String) (disruptive : Bool) where
    -- At most one job was created.
    abbrev pub CreatesOne : History → History → Type 0
    CreatesOne h h' = (h' ≡ h) ⊎ ((j : Job) × (h' ≡ create_job j ∷ h))

    create_hook_job-CreatesOne :
        (h : History) → CreatesOne h (create_hook_job env hook uj event key info disruptive h).1
    unfolding create_hook_job ◌>>=◌ pure lift context send
    create_hook_job-CreatesOne h = elim (Result-cases (normalize_as_json env uj)) [
      | inl (e, q) ↦ inl (rw q refl)
      | inr (fields, q) ↦
          let job = hook_job env hook uj event key info disruptive fields in
          elim (Result-cases (env.set_controller_reference uj job.meta)) [
            | inl (e, r) ↦ inl (rw q (rw r refl))
            | inr (m, r) ↦ inr (record job { meta = m }, rw q (rw r refl))
          ]
    ]

    abbrev pub run : M (List HookJobTracker)
    run = job_for_upgrade_job_and_hook env uj hook event key info disruptive

    -- Where the server lists the jobs of a hook for an event and a key: if any of them is listed or
    -- tracked in the status, the call returns their trackers and sends nothing more; otherwise it
    -- sends at most one more request, which creates a job.
    pub job_for_upgrade_job_and_hook-CreatesOne :
        (jobs : List Job) (h : History)
        → env.server h listing ≡ ok jobs
        → (is_empty (known jobs) ≡ false → run h ≡ (ok (known jobs), listing ∷ h))
          × (is_empty (known jobs) ≡ true → CreatesOne (listing ∷ h) (run h).1)
    unfolding job_for_upgrade_job_and_hook ◌>>=◌ pure send when◌then◌else◌
    job_for_upgrade_job_and_hook-CreatesOne jobs h answer = (
      λ some_known. rw answer (rw some_known refl),
      λ none_known. rw answer (
          rw none_known (
            subst (λ h'. CreatesOne (listing ∷ h) h')
              (sym
                (bind-pure (create_hook_job env hook uj event key info disruptive) _ (listing ∷ h)))
              (create_hook_job-CreatesOne (listing ∷ h)))),
    )
