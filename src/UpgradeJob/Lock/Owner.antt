-- ===== src/UpgradeJob/Lock/Owner.antt =====
-- Only the owner of the lock changes it.
use openshift_upgrade_contro.Prelude.{
  String, ◌<>◌, str_eq, eq_iff, eq_refl, ◌≡◌, ◌≢◌, refl, ap, ◌∙◌, Bool-cases, Option-cases, inl,
  inr, false, none, some, ◌∷◌,
}
use openshift_upgrade_contro.Api.Upstream.{ClusterVersion}
use openshift_upgrade_contro.Api.Job.{UpgradeJob}
use openshift_upgrade_contro.Exec.{
  History, get_cluster_version, update_cluster_version, ok, err, failure, ◌>>=◌, pure, raise,
  context, send, match_option, when◌then◌else◌, bind-pure,
}
use openshift_upgrade_contro.UpgradeJob.Env.{Env}
use openshift_upgrade_contro.UpgradeJob.Status.{lock_val}
use openshift_upgrade_contro.UpgradeJob.Lock.{
  lock_of, with_lock, without_lock, try_lock_cluster_version, release_lock, cleanup_lock,
}

other_lock : (l v : String) → l ≢ v → str_eq l v ≡ false
other_lock l v ne = elim (Bool-cases (str_eq l v)) [
  | inl e ↦ elim (ne ((eq_iff l v).0 e)) [ ]
  | inr e ↦ e
]

module _ (env : Env) where
  -- `tryLockClusterVersion` sends one request for a version without a lock, which sets the lock; it
  -- returns a version that has the lock already as it is; and it fails for a version that another
  -- job has locked, without a request.
  pub try_lock_cluster_version-eq :
      (version : ClusterVersion) (v : String) (h : History)
      → (lock_of version ≡ none
          → (try_lock_cluster_version env version v h).1
            ≡ update_cluster_version (with_lock version v) ∷ h)
        × (lock_of version ≡ some v → try_lock_cluster_version env version v h ≡ (ok version, h))
        × ((l : String)
            → lock_of version ≡ some l
            → l ≢ v
            → try_lock_cluster_version env version v h
              ≡ (err (failure ("cluster version is locked by " <> l)), h))
  unfolding try_lock_cluster_version match_option when◌then◌else◌ send pure raise context
  try_lock_cluster_version-eq version v h = (
    λ free. rw free refl,
    λ own. rw own (rw (eq_refl v) refl),
    λ l other ne. rw other (rw (other_lock l v ne) refl),
  )

  release_lock-other :
      (version : ClusterVersion) (uj : UpgradeJob) (h : History)
      → lock_of version ≢ some (lock_val uj)
      → release_lock env version uj h ≡ (ok tt, h)
  unfolding release_lock match_option when◌then◌else◌ send pure context ◌>>=◌
  release_lock-other version uj h ne = elim (Option-cases (lock_of version)) [
    | inl e ↦ rw e refl
    | inr (l, e) ↦
        rw e (rw (other_lock l (lock_val uj) (λ q. ne (e ∙ ap (λ (x : String). some x) q))) refl)
  ]

  -- Where the server has a version, `cleanupLock` sends one request that takes the lock away if the
  -- lock is the job's; otherwise it sends none and succeeds, so the lock of another job stays.
  pub cleanup_lock-eq :
      (uj : UpgradeJob) (version : ClusterVersion) (h : History)
      → env.server h (get_cluster_version env.cluster_version_name) ≡ ok version
      → (lock_of version ≡ some (lock_val uj)
          → (cleanup_lock env uj h).1
            ≡ update_cluster_version (without_lock version)
              ∷ get_cluster_version env.cluster_version_name
              ∷ h)
        × (lock_of version ≢ some (lock_val uj)
            → cleanup_lock env uj h ≡ (ok tt, get_cluster_version env.cluster_version_name ∷ h))
  unfolding cleanup_lock release_lock match_option when◌then◌else◌ send pure context ◌>>=◌
  cleanup_lock-eq uj version h answer = (
    λ own. rw answer (
        rw own (
          rw (eq_refl (lock_val uj)) (
            bind-pure
              (context "failed to unlock cluster version"
                (send env.server (update_cluster_version (without_lock version))))
              (λ _. tt) (get_cluster_version env.cluster_version_name ∷ h)))),
    λ ne.
        rw answer
          (release_lock-other version uj (get_cluster_version env.cluster_version_name ∷ h) ne),
  )
