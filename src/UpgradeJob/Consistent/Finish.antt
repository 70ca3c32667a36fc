-- ===== src/UpgradeJob/Consistent/Finish.antt =====
-- The two ends of a reconciliation: the tracking of the jobs of the hooks before it, and what is done
-- for a job that has finished.
use openshift_upgrade_contro.Prelude.{
  String, ◌≡◌, refl, Bool, true, false, none, some, List, [], ◌∷◌, or_true, arith,
}
use openshift_upgrade_contro.Api.Meta.{NamespacedName, Condition}
use openshift_upgrade_contro.Api.Upstream.{ClusterVersion, Job}
use openshift_upgrade_contro.Api.Job.{UpgradeJob, condition_succeeded, condition_failed}
use openshift_upgrade_contro.Exec.{
  M, Result, ok, err, list_jobs, update_job, update_upgrade_job_status,
}
use openshift_upgrade_contro.Exec.Triple.{
  Holds, Triple, Triple-bind, Triple-pure, Triple-when, Triple-attempt, Triple-send-Any,
  Triple-return_errors, Any,
}
use openshift_upgrade_contro.UpgradeJob.Env.{Env, ApimetaLaws}
use openshift_upgrade_contro.UpgradeJob.Status.{find_condition}
use openshift_upgrade_contro.UpgradeJob.Lock.{lock_of}
use openshift_upgrade_contro.UpgradeJob.Hooks.{job_finished, is_some_condition}
use openshift_upgrade_contro.UpgradeJob.Track.{
  drop_finalizer, drop_finalizers, cleanup_hook_job_tracking_finalizers, track_jobs,
}
use openshift_upgrade_contro.UpgradeJob.Reconcile.{
  true_condition, job_after, finish_succeeded, finish_failed,
}
use openshift_upgrade_contro.UpgradeJob.Consistent.{
  IsConsistent, ServerLaws, Legal, state_of, truth,
}
use openshift_upgrade_contro.UpgradeJob.Consistent.Hooks.{IsKept, execute_hooks-IsKept}
use openshift_upgrade_contro.UpgradeJob.Consistent.Cleanup.{
  cleanup_pools-Legal, pause_on_failure-Legal,
}
use openshift_upgrade_contro.UpgradeJob.Consistent.Lock.{cleanup_lock-Legal}

module _ (env : Env) where
  -- The conditions that `Reconcile` finds true.
  truth_of_some :
      (uj : UpgradeJob) (t : String) (c : Condition)
      → true_condition (find_condition env t uj) ≡ some c
      → is_some_condition (find_condition env t uj) ≡ true
  truth_of_some uj t c h = ground arith

  pub truth_of_none :
      (uj : UpgradeJob) (t : String)
      → true_condition (find_condition env t uj) ≡ none
      → truth env t uj ≡ false
  unfolding state_of
  truth_of_none uj t h = ground arith

  pub job_finished_of_succeeded :
      (uj : UpgradeJob) (c : Condition)
      → true_condition (find_condition env condition_succeeded uj) ≡ some c
      → job_finished env uj ≡ true
  unfolding job_finished
  job_finished_of_succeeded uj c h = rw (truth_of_some uj condition_succeeded c h) refl

  pub job_finished_of_failed :
      (uj : UpgradeJob) (c : Condition)
      → true_condition (find_condition env condition_failed uj) ≡ some c
      → job_finished env uj ≡ true
  unfolding job_finished
  job_finished_of_failed uj c h =
      rw (truth_of_some uj condition_failed c h)
        (or_true (is_some_condition (find_condition env condition_succeeded uj)))

  -- After the hooks of a finished job the job is the same, also when they fail.
  job_after-eq :
      (uj : UpgradeJob) (r : Result (Bool × UpgradeJob))
      → job_finished env uj ≡ true
      → Holds (IsKept env uj) r
      → job_after uj r ≡ uj
  job_after-eq uj (ok p) f k = k.finished f
  job_after-eq uj (err e) f k = refl

  module _ (a : ApimetaLaws env.apimeta) (laws : ServerLaws env)
      (LockOk : ClusterVersion → Type 0) where
    abbrev Writes : {A : Type 0} → M A → (A → Type 0) → Type 0
    Writes m Q = Triple (Legal env LockOk) m Q

    drop_finalizer-Legal : (j : Job) → Writes (drop_finalizer env j) Any
    unfolding drop_finalizer
    drop_finalizer-Legal j =
        Triple-when _ _ _
          (λ _.
            Triple-bind _ _ _
              (Triple-attempt _ (Triple-send-Any env.server (update_job _) (λ h p. (tt, p))))
              (λ _ _. Triple-pure _ tt))
          (λ _. Triple-pure _ tt)

    drop_finalizers-Legal : (all : Bool) (js : List Job) → Writes (drop_finalizers env all js) Any
    unfolding drop_finalizers
    drop_finalizers-Legal all [] = Triple-pure _ tt
    drop_finalizers-Legal all (j ∷ js) =
        Triple-when _ _ _ (λ _. drop_finalizers-Legal all js)
          (λ _.
            Triple-bind Any _ _ (drop_finalizer-Legal j)
              (λ _ _. Triple-bind Any _ _ (drop_finalizers-Legal all js) (λ _ _. Triple-pure _ tt)))

    pub track_jobs-Legal : (uj : UpgradeJob) → IsConsistent env uj → Writes (track_jobs env uj) Any
    unfolding track_jobs state_of
    track_jobs-Legal uj c =
        Triple-bind Any _ _ (Triple-send-Any env.server (list_jobs _ _) (λ h p. (tt, p))) (λ jobs _.
          Triple-bind Any _ _
            (Triple-when _ _ _ (λ _. Triple-pure _ tt)
              (λ _.
                Triple-send-Any env.server (update_upgrade_job_status _)
                  (λ h p. (record { exclusive = c.exclusive; staged = c.staged }, p))))
            (λ _ _.
              Triple-bind Any _ _ (drop_finalizers-Legal false jobs)
                (λ es _. Triple-return_errors es)))

    pub cleanup_finalizers-Legal :
        (nn : NamespacedName) → Writes (cleanup_hook_job_tracking_finalizers env nn) Any
    unfolding cleanup_hook_job_tracking_finalizers
    cleanup_finalizers-Legal nn =
        Triple-bind Any _ _ (Triple-send-Any env.server (list_jobs _ _) (λ h p. (tt, p))) (λ jobs _.
          Triple-bind Any _ _ (drop_finalizers-Legal true jobs) (λ es _. Triple-return_errors es))

    pub finish_succeeded-Legal :
        (uj : UpgradeJob) (c : Condition)
        → ((v : ClusterVersion) → lock_of v ≡ none → LockOk v)
        → Writes (finish_succeeded env uj c) Any
    unfolding finish_succeeded
    finish_succeeded-Legal uj c ok_free =
        Triple-bind _ _ _ (Triple-attempt _ (execute_hooks-IsKept env a laws LockOk uj _ _ _ _))
          (λ es _.
            Triple-bind _ _ _ (Triple-attempt _ (execute_hooks-IsKept env a laws LockOk _ _ _ _ _))
              (λ ef _.
                Triple-bind _ _ _ (Triple-attempt _ (cleanup_pools-Legal env a laws LockOk _))
                  (λ pools _.
                    Triple-bind _ _ _
                      (Triple-attempt _ (cleanup_lock-Legal env laws LockOk _ ok_free))
                      (λ lock _.
                        Triple-bind Any _ _ (Triple-return_errors _) (λ _ _. Triple-pure _ tt)))))

    pub finish_failed-Legal :
        (uj : UpgradeJob) (c : Condition)
        → ((v : ClusterVersion) → lock_of v ≡ none → LockOk v)
        → job_finished env uj ≡ true
        → IsConsistent env uj
        → Writes (finish_failed env uj c) Any
    unfolding finish_failed
    finish_failed-Legal uj c ok_free f k =
        Triple-bind _ _ _ (Triple-attempt _ (execute_hooks-IsKept env a laws LockOk uj _ _ _ _))
          (λ ea qa. rw (job_after-eq uj ea f qa) (
            Triple-bind _ _ _ (Triple-attempt _ (execute_hooks-IsKept env a laws LockOk uj _ _ _ _))
              (λ ei qi. rw (job_after-eq uj ei f qi) (
                Triple-bind _ _ _ (Triple-attempt _ (pause_on_failure-Legal env a laws LockOk uj k))
                  (λ pools _.
                    Triple-bind _ _ _
                      (Triple-attempt _ (cleanup_lock-Legal env laws LockOk uj ok_free))
                      (λ lock _.
                        Triple-bind Any _ _ (Triple-return_errors _) (λ _ _. Triple-pure _ tt)))))))
