-- ===== src/UpgradeJob/Consistent/Reconcile.antt =====
-- The whole reconciliation of a job, and any sequence of them.
use openshift_upgrade_contro.Prelude.{◌<>◌, ◌≡◌, refl, sym, none, some, arith}
use openshift_upgrade_contro.Api.Time.{Time}
use openshift_upgrade_contro.Api.Meta.{NamespacedName, Condition}
use openshift_upgrade_contro.Api.Upstream.{ClusterVersion}
use openshift_upgrade_contro.Api.Job.{UpgradeJob, condition_succeeded, condition_failed}
use openshift_upgrade_contro.Exec.{M, History, get_upgrade_job, list_windows}
use openshift_upgrade_contro.Exec.Triple.{
  Holds, Holds-both, Triple, Triple-bind, Triple-pure, Triple-raise, Triple-when, Triple-option,
  Triple-result, Triple-attempt, Triple-context, Triple-send_after, Triple-send-Any,
  Triple-read_now, Any,
}
use openshift_upgrade_contro.UpgradeJob.Env.{Env, ApimetaLaws}
use openshift_upgrade_contro.UpgradeJob.Status.{lock_val, find_condition}
use openshift_upgrade_contro.UpgradeJob.Lock.{lock_of}
use openshift_upgrade_contro.UpgradeJob.Track.{track_hook_jobs}
use openshift_upgrade_contro.UpgradeJob.Window.{
  matching_upgrade_suspension_window, check_and_mark_skipped,
}
use openshift_upgrade_contro.UpgradeJob.Reconcile.{
  true_condition, unless_skipped, reconcile_pending, reconcile_unfinished, reconcile_job, reconcile,
}
use openshift_upgrade_contro.UpgradeJob.Consistent.{IsConsistent, IsUnfinished, ServerLaws, Legal}
use openshift_upgrade_contro.UpgradeJob.Consistent.Marks.{
  IsMarked, IsConsistent-of_IsUnfinished, set_skipped, set_failed, set_neutral, tick, mark-IsMarked,
}
use openshift_upgrade_contro.UpgradeJob.Consistent.Hooks.{execute_hooks-IsKept}
use openshift_upgrade_contro.UpgradeJob.Consistent.Started.{reconcile_started_job-Legal}
use openshift_upgrade_contro.UpgradeJob.Consistent.Finish.{
  track_jobs-Legal, cleanup_finalizers-Legal, finish_succeeded-Legal, finish_failed-Legal,
  truth_of_none, job_finished_of_failed,
}

module _ (env : Env) (a : ApimetaLaws env.apimeta) (laws : ServerLaws env)
    (LockOk : ClusterVersion → Type 0) where
  abbrev Writes : {A : Type 0} → M A → (A → Type 0) → Type 0
  Writes m Q = Triple (Legal env LockOk) m Q

  check_and_mark_skipped-Legal :
      (uj : UpgradeJob) (now : Time)
      → IsUnfinished env uj
      → Writes (check_and_mark_skipped env uj now) Any
  unfolding check_and_mark_skipped matching_upgrade_suspension_window
  check_and_mark_skipped-Legal uj now u =
      Triple-bind Any _ _
        (Triple-context _ _ (
          Triple-bind Any _ _
            (Triple-context _ _ (Triple-send-Any env.server (list_windows _) (λ h p. (tt, p))))
            (λ _ _. Triple-pure _ tt)))
        (λ window _.
          Triple-option window _ _ (λ _. Triple-pure _ tt)
            (λ w _.
              Triple-bind _ _ _
                (mark-IsMarked env a laws LockOk uj _
                  (λ uj'. set_skipped env "Skipped" _ uj uj' refl u))
                (λ _ _. Triple-pure _ tt)))

  unless_skipped-Legal :
      (uj : UpgradeJob) (now : Time) (c : Condition)
      → IsUnfinished env uj
      → ((uj' : UpgradeJob) → IsMarked env c uj uj' → IsConsistent env uj')
      → Writes (unless_skipped env uj now c) Any
  unfolding unless_skipped
  unless_skipped-Legal uj now c u consistent =
      Triple-bind Any _ _ (check_and_mark_skipped-Legal uj now u) (λ skipped _.
        Triple-when _ _ _ (λ _. Triple-pure _ tt)
          (λ _.
            Triple-bind _ _ _ (mark-IsMarked env a laws LockOk uj c consistent)
              (λ _ _. Triple-pure _ tt)))

  reconcile_pending-Legal :
      (uj : UpgradeJob) → IsUnfinished env uj → Writes (reconcile_pending env uj) Any
  unfolding reconcile_pending
  reconcile_pending-Legal uj u =
      Triple-bind Any _ _ (Triple-read_now env.clock (tick env a laws LockOk)) (λ now _.
        Triple-when _ _ _
          (λ _. unless_skipped-Legal uj now _ u (λ uj' s. set_failed env "Expired" _ uj uj' u s))
          (λ _.
            Triple-when _ _ _
              (λ _. unless_skipped-Legal uj now _ u (λ uj' s.
                IsConsistent-of_IsUnfinished env uj' (set_neutral env _ uj uj' refl refl u s)))
              (λ _. Triple-pure _ tt)))

  module _ (ok_free : (v : ClusterVersion) → lock_of v ≡ none → LockOk v) where
    reconcile_job-Legal :
        (uj : UpgradeJob)
        → ((v : ClusterVersion) → lock_of v ≡ some (lock_val uj) → LockOk v)
        → IsConsistent env uj
        → Writes (reconcile_job env uj) Any
    unfolding reconcile_job reconcile_unfinished
    reconcile_job-Legal uj ok_lock c =
        Triple-when _ _ _ (λ _. Triple-pure _ tt)
          (λ _.
            Triple-option (true_condition (find_condition env condition_succeeded uj)) _ _
              (λ ns.
                Triple-option (true_condition (find_condition env condition_failed uj)) _ _
                  (λ nf.
                    let u : IsUnfinished env uj = record {
                      not_succeeded = truth_of_none env uj condition_succeeded ns;
                      not_failed = truth_of_none env uj condition_failed nf;
                    } in
                    Triple-bind _ _ _ (execute_hooks-IsKept env a laws LockOk uj _ _ _ _) (λ r k.
                      Triple-when _ _ _ (λ _. Triple-pure _ tt)
                        (λ on. rw (k.goes_on (ground arith)) (
                          Triple-when _ _ _
                            (λ _. reconcile_started_job-Legal env a laws LockOk uj ok_lock u)
                            (λ _. reconcile_pending-Legal uj u)))))
                  (λ fc failed.
                    finish_failed-Legal env a laws LockOk uj fc ok_free
                      (job_finished_of_failed env uj fc failed) c))
              (λ sc _. finish_succeeded-Legal env a laws LockOk uj sc ok_free))

    module _
        (reads : (nn : NamespacedName) (h : History)
          → Legal env LockOk h
          → Holds (IsConsistent env) (env.server h (get_upgrade_job nn))) where
      track_hook_jobs-Legal : (nn : NamespacedName) → Writes (track_hook_jobs env nn) Any
      unfolding track_hook_jobs
      track_hook_jobs-Legal nn =
          Triple-bind _ _ _
            (Triple-attempt _ (
              Triple-send_after env.server (get_upgrade_job nn) (IsConsistent env) (λ h p. (tt, p))
                (reads nn)))
            (λ r q.
              Triple-result (IsConsistent env) r _ _ q
                (λ e.
                  Triple-when _ _ _ (λ _. cleanup_finalizers-Legal env a laws LockOk nn)
                    (λ _. Triple-raise e))
                (λ uj c. track_jobs-Legal env a laws LockOk uj c))

      -- A reconciliation writes only consistent statuses, and cluster versions that are locked by the
      -- job or free.
      pub reconcile-Legal :
          (nn : NamespacedName)
          → ((v : ClusterVersion) → lock_of v ≡ some (nn.namespace <> ("/" <> nn.name)) → LockOk v)
          → Writes (reconcile env nn) Any
      unfolding reconcile
      reconcile-Legal nn ok_lock =
          Triple-bind Any _ _ (Triple-context _ _ (track_hook_jobs-Legal nn)) (λ _ _.
            Triple-bind _ _ _
              (Triple-attempt _ (
                Triple-send_after env.server (get_upgrade_job nn) _ (λ h p. (tt, p))
                  (λ h p. Holds-both _ _ _ (laws.job_found nn h) (reads nn h p))))
              (λ r q.
                Triple-result _ r _ _ q
                  (λ e. Triple-when _ _ _ (λ _. Triple-pure _ tt) (λ _. Triple-raise e))
                  (λ uj k.
                    let ((ns, name), c) = k in
                    reconcile_job-Legal uj
                      (λ v locked. ok_lock v (rw (sym ns) (rw (sym name) locked))) c)))
