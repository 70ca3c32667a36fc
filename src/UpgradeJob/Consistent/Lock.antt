-- ===== src/UpgradeJob/Consistent/Lock.antt =====
-- The lock: a version is written only with the lock of the job, or without any.
use openshift_upgrade_contro.Prelude.{String, eq_iff, ◌≡◌, ◌∙◌, ap, some, none}
use openshift_upgrade_contro.Prelude.Dict.{lookup-insert, lookup-remove}
use openshift_upgrade_contro.Api.Upstream.{ClusterVersion}
use openshift_upgrade_contro.Api.Job.{UpgradeJob}
use openshift_upgrade_contro.Exec.{get_cluster_version, update_cluster_version}
use openshift_upgrade_contro.Exec.Triple.{
  Triple, Triple-bind, Triple-pure, Triple-raise, Triple-when, Triple-option, Triple-context,
  Triple-send, Triple-send-Any, Triple-weaken, Any,
}
use openshift_upgrade_contro.UpgradeJob.Env.{Env}
use openshift_upgrade_contro.UpgradeJob.Lock.{
  lock_of, with_lock, without_lock, try_lock_cluster_version, release_lock, cleanup_lock,
  job_lock_annotation,
}
use openshift_upgrade_contro.UpgradeJob.Consistent.{ServerLaws, Legal}

lock_of-with_lock : (v : ClusterVersion) (l : String) → lock_of (with_lock v l) ≡ some l
lock_of-with_lock v l = lookup-insert job_lock_annotation job_lock_annotation l v.meta.annotations

lock_of-without_lock : (v : ClusterVersion) → lock_of (without_lock v) ≡ none
lock_of-without_lock v = lookup-remove job_lock_annotation job_lock_annotation v.meta.annotations

module _ (env : Env) (laws : ServerLaws env) (LockOk : ClusterVersion → Type 0) where
  -- The version that is locked carries the value.
  pub try_lock-Locked :
      (version : ClusterVersion) (l : String)
      → ((v : ClusterVersion) → lock_of v ≡ some l → LockOk v)
      → Triple (Legal env LockOk) (try_lock_cluster_version env version l) (λ v. lock_of v ≡ some l)
  unfolding try_lock_cluster_version
  try_lock-Locked version l ok_lock =
      Triple-option _ _ _
        (λ _.
          let e = lock_of-with_lock version l in
          Triple-context _ _ (
            Triple-weaken (λ v. lock_of v ≡ lock_of (with_lock version l)) (λ v. lock_of v ≡ some l)
              _ (λ v q. q ∙ e)
              (Triple-send env.server (update_cluster_version (with_lock version l)) _
                (λ h p. (ok_lock _ e, p)) (laws.version_stored (with_lock version l)))))
        (λ l' found.
          Triple-when _ _ _ (λ eq. Triple-pure version (found ∙ ap some ((eq_iff l' l).0 eq)))
            (λ _. Triple-raise _))

  pub cleanup_lock-Legal :
      (uj : UpgradeJob)
      → ((v : ClusterVersion) → lock_of v ≡ none → LockOk v)
      → Triple (Legal env LockOk) (cleanup_lock env uj) Any
  unfolding cleanup_lock release_lock
  cleanup_lock-Legal uj ok_free =
      Triple-bind Any _ _
        (Triple-context _ _ (Triple-send-Any env.server (get_cluster_version _) (λ h p. (tt, p))))
        (λ version _.
          Triple-option _ _ _ (λ _. Triple-pure _ tt)
            (λ l _.
              Triple-when _ _ _
                (λ _.
                  Triple-bind Any _ _
                    (Triple-context _ _ (
                      Triple-send-Any env.server (update_cluster_version (without_lock version))
                        (λ h p. (ok_free _ (lock_of-without_lock version), p))))
                    (λ _ _. Triple-pure _ tt))
                (λ _. Triple-pure _ tt)))
