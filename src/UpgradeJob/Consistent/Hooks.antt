-- ===== src/UpgradeJob/Consistent/Hooks.antt =====
-- Executing hooks writes no inconsistent status, and leaves a job that may go on as it was.
use openshift_upgrade_contro.Prelude.{
  String, ◌≡◌, refl, Bool, true, false, ◌&&◌, not, none, some, List, [], ◌∷◌, arith,
}
use openshift_upgrade_contro.Prelude.Dict.{Map}
use openshift_upgrade_contro.Api.Time.{Time}
use openshift_upgrade_contro.Api.Meta.{Condition}
use openshift_upgrade_contro.Api.Upstream.{ClusterVersion}
use openshift_upgrade_contro.Api.Job.{UpgradeJob}
use openshift_upgrade_contro.Api.Hook.{UpgradeEvent, UpgradeJobHook, claim}
use openshift_upgrade_contro.Exec.{
  M, pure, send, list_jobs, list_hooks, ◌>>=◌, create_job, update_hook_status, combine,
}
use openshift_upgrade_contro.Exec.Triple.{
  Triple, Triple-bind, Triple-send-Any, Triple-pure, Triple-raise, Triple-when, Triple-option,
  Triple-context, Triple-attempt, Triple-lift, Holds-Any, Any,
}
use openshift_upgrade_contro.UpgradeJob.Env.{Env, ApimetaLaws}
use openshift_upgrade_contro.UpgradeJob.Status.{mark, lock_val, job_claimer}
use openshift_upgrade_contro.UpgradeJob.HookJob.{create_hook_job, job_for_upgrade_job_and_hook}
use openshift_upgrade_contro.UpgradeJob.Hooks.{
  Tally, claim_hook, claim_hooks, run_hooks, job_finished, conclude, execute_hooks,
}
use openshift_upgrade_contro.UpgradeJob.Consistent.{
  state_of, IsConsistent, IsUnfinished, ServerLaws, Legal,
}
use openshift_upgrade_contro.UpgradeJob.Consistent.Marks.{
  IsMarked, mark-IsMarked, set_failed, set_skipped,
}

last_false : (b c d : Bool) → b && (c && not d) ≡ true → d ≡ false
last_false b c d h = ground arith

module _ (env : Env) where
  -- A job without the final conditions has not finished.
  pub IsUnfinished-of_job_finished :
      (uj : UpgradeJob) → job_finished env uj ≡ false → IsUnfinished env uj
  unfolding job_finished state_of
  IsUnfinished-of_job_finished uj h = record {
    not_succeeded = ground arith;
    not_failed = ground arith;
  }

  -- What a call of `executeHooks` leaves of the job.
  pub record IsKept (uj : UpgradeJob) (p : Bool × UpgradeJob) : Type 0 where
    pub same_name : lock_val p.1 ≡ lock_val uj
    pub goes_on : p.0 ≡ true → p.1 ≡ uj
    pub finished : job_finished env uj ≡ true → p.1 ≡ uj

  IsKept-self : (uj : UpgradeJob) (b : Bool) → IsKept uj (b, uj)
  IsKept-self uj b = record { same_name = refl; goes_on = λ h. refl; finished = λ h. refl }

  module _ (a : ApimetaLaws env.apimeta) (laws : ServerLaws env)
      (LockOk : ClusterVersion → Type 0) where
    abbrev Writes : {A : Type 0} → M A → (A → Type 0) → Type 0
    Writes m Q = Triple (Legal env LockOk) m Q

    create_hook_job-Legal :
        (hook : UpgradeJobHook) (uj : UpgradeJob) (event : UpgradeEvent) (key : String)
        (info : Map String) (d : Bool)
        → Writes (create_hook_job env hook uj event key info d) Any
    unfolding create_hook_job
    create_hook_job-Legal hook uj event key info d =
        Triple-bind Any _ _ (Triple-context _ _ (Triple-lift _ (Holds-Any _))) (λ j _.
          Triple-bind Any _ _ (Triple-context _ _ (Triple-lift _ (Holds-Any _))) (λ m _.
            Triple-context _ _ (Triple-send-Any env.server (create_job _) (λ h p. (tt, p)))))

    job_for_upgrade_job_and_hook-Legal :
        (uj : UpgradeJob) (hook : UpgradeJobHook) (event : UpgradeEvent) (key : String)
        (info : Map String) (d : Bool)
        → Writes (job_for_upgrade_job_and_hook env uj hook event key info d) Any
    unfolding job_for_upgrade_job_and_hook
    job_for_upgrade_job_and_hook-Legal uj hook event key info d =
        Triple-bind Any _ _ (Triple-send-Any env.server (list_jobs _ _) (λ h p. (tt, p))) (λ jobs _.
          Triple-when _ _ _
            (λ _.
              Triple-bind Any _ _ (create_hook_job-Legal hook uj event key info d)
                (λ _ _. Triple-pure _ tt))
            (λ _. Triple-pure _ tt))

    claim_hook-Legal :
        (uj : UpgradeJob) (hook : UpgradeJobHook) → Writes (claim_hook env uj hook) Any
    unfolding claim_hook
    claim_hook-Legal uj hook =
        let r = claim hook (job_claimer uj) in
        Triple-when (not r.1) (pure none) _ (λ _. Triple-pure none tt)
          (λ _.
            Triple-when r.2 _ (pure (some r.0))
              (λ _.
                Triple-bind Any (send env.server (update_hook_status r.0)) (λ h. pure (some h))
                  (Triple-send-Any env.server (update_hook_status r.0) (λ h p. (tt, p)))
                  (λ h _. Triple-pure (some h) tt))
              (λ _. Triple-pure (some r.0) tt))

    claim_hooks-Legal :
        (uj : UpgradeJob) (event : UpgradeEvent) (cutoff : Time) (hooks : List UpgradeJobHook)
        → Writes (claim_hooks env uj event cutoff hooks) Any
    unfolding claim_hooks
    claim_hooks-Legal uj event cutoff [] = Triple-pure _ tt
    claim_hooks-Legal uj event cutoff (hook ∷ hooks) =
        let ih = claim_hooks-Legal uj event cutoff hooks in
        Triple-when _ _ _
          (λ _.
            Triple-bind Any _ _ (claim_hook-Legal uj hook)
              (λ c _. Triple-bind Any _ _ ih (λ _ _. Triple-pure _ tt)))
          (λ _. ih)

    run_hooks-Legal :
        (uj : UpgradeJob) (event : UpgradeEvent) (key : String) (info : Map String) (d : Bool)
        (hooks : List UpgradeJobHook) (t : Tally)
        → Writes (run_hooks env uj event key info d hooks t) Any
    unfolding run_hooks
    run_hooks-Legal uj event key info d [] t = Triple-pure _ tt
    run_hooks-Legal uj event key info d (hook ∷ hooks) t =
        Triple-bind _ _ _
          (Triple-attempt _ (job_for_upgrade_job_and_hook-Legal uj hook event key info d))
          (λ jobs _. run_hooks-Legal uj event key info d hooks _)

    stop_with :
        (uj : UpgradeJob) (c : Condition)
        → job_finished env uj ≡ false
        → ((uj' : UpgradeJob) → IsMarked env c uj uj' → IsConsistent env uj')
        → Writes (mark env uj c >>= λ uj'. pure (false, uj')) (IsKept uj)
    stop_with uj c nf consistent =
        Triple-bind (IsMarked env c uj) _ _ (mark-IsMarked env a laws LockOk uj c consistent)
          (λ uj' s.
            Triple-pure _
              (record { same_name = s.same_name; goes_on = λ h. cc; finished = λ h. cc }))

    conclude-IsKept :
        (uj : UpgradeJob) (event : UpgradeEvent) (t : Tally)
        → Writes (conclude env uj event t) (IsKept uj)
    unfolding conclude
    conclude-IsKept uj event t =
        Triple-option (combine t.errors) _ _
          (λ _.
            Triple-when _ _ _ (λ _. Triple-pure _ (IsKept-self uj false))
              (λ _.
                Triple-when _ _ _
                  (λ h.
                    let nf = last_false _ _ (job_finished env uj) h in
                    stop_with uj _ nf (λ uj'.
                      set_failed env "HookFailed" _ uj uj' (IsUnfinished-of_job_finished uj nf)))
                  (λ _.
                    Triple-when _ _ _
                      (λ h.
                        let nf = last_false _ _ (job_finished env uj) h in
                        stop_with uj _ nf (λ uj'.
                          set_skipped env "HookRequestedSkip" _ uj uj' refl
                            (IsUnfinished-of_job_finished uj nf)))
                      (λ _. Triple-pure _ (IsKept-self uj true)))))
          (λ e _. Triple-raise e)

    pub execute_hooks-IsKept :
        (uj : UpgradeJob) (event : UpgradeEvent) (key : String) (info : Map String) (cutoff : Time)
        → Writes (execute_hooks env uj event key info cutoff) (IsKept uj)
    unfolding execute_hooks
    execute_hooks-IsKept uj event key info cutoff =
        Triple-bind Any _ _
          (Triple-context _ _ (Triple-send-Any env.server (list_hooks _) (λ h p. (tt, p))))
          (λ all _. Triple-bind Any _ _ (claim_hooks-Legal uj event cutoff all) (λ hooks _.
            Triple-bind Any _ _ (run_hooks-Legal uj event key info _ hooks _)
              (λ t _. conclude-IsKept uj event t)))
