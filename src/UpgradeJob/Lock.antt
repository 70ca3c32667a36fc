-- ===== src/UpgradeJob/Lock.antt =====
-- The lock on the cluster version: an annotation that names the job that upgrades.
pub mod Laws
pub mod Owner
use Prim.Native.Char.{code}
use openshift_upgrade_contro.Prelude.{
  ℕ, String, ◌<>◌, str_eq, ◌==◌, Bool, true, false, Option, none, some, List, [], ◌∷◌,
  if◌then◌else◌,
}
use openshift_upgrade_contro.Prelude.Dict.{lookup, insert, remove, read}
use openshift_upgrade_contro.Api.Meta.{NamespacedName, ObjectMeta}
use openshift_upgrade_contro.Api.Upstream.{ClusterVersion}
use openshift_upgrade_contro.Api.Job.{UpgradeJob}
use openshift_upgrade_contro.Exec.{
  M, ◌>>=◌, ◌>>◌, pure, raise, context, send, failure, get_cluster_version, update_cluster_version,
  match_option, when◌then◌else◌,
}
use openshift_upgrade_contro.UpgradeJob.Env.{Env}
use openshift_upgrade_contro.UpgradeJob.Status.{lock_val}

-- JobLockAnnotation
abbrev pub job_lock_annotation : String
job_lock_annotation = "managedupgrade.appuio.io/upgrade-job"

abbrev pub slash : ℕ
slash = b'/'

cons_head : Prim.Native.Char.Char → List String → List String
cons_head c [] = String.◌∷◌ c "" ∷ []
cons_head c (w ∷ ws) = String.◌∷◌ c w ∷ ws

-- strings.Split(s, "/")
unfoldable pub split : String → List String
unfolding cons_head
split String.[] = "" ∷ []
split (String.◌∷◌ c s) =
    let rest = split s in if code c == slash then "" ∷ rest else cons_head c rest

two_parts : List String → Option NamespacedName
two_parts (ns ∷ name ∷ []) = some (record { namespace = ns; name = name })
two_parts _ = none

-- `none` where the source returns false.
unfoldable pub upgrade_job_name_from_locked_cluster_version : ClusterVersion → Option NamespacedName
unfolding two_parts
upgrade_job_name_from_locked_cluster_version cv =
    let job = read job_lock_annotation cv.meta.annotations in
    if str_eq job "" then none else two_parts (split job)

abbrev pub with_lock : ClusterVersion → String → ClusterVersion
with_lock cv v = record cv {
  meta = record cv.meta { annotations = insert job_lock_annotation v cv.meta.annotations };
}

abbrev pub without_lock : ClusterVersion → ClusterVersion
without_lock cv = record cv {
  meta = record cv.meta { annotations = remove job_lock_annotation cv.meta.annotations };
}

-- The value of the lock, if there is one.
abbrev pub lock_of : ClusterVersion → Option String
lock_of cv = lookup job_lock_annotation cv.meta.annotations

module _ (env : Env) where
  -- The cluster version as it stands after the call.
  unfoldable pub try_lock_cluster_version : ClusterVersion → String → M ClusterVersion
  try_lock_cluster_version version v =
      match_option (lock_of version)
        (context "failed to lock cluster version"
          (send env.server (update_cluster_version (with_lock version v))))
        (λ l.
          when str_eq l v
          then pure version
          else raise (failure ("cluster version is locked by " <> l)))

  unfoldable pub release_lock : ClusterVersion → UpgradeJob → M (Unit {0})
  release_lock version uj = match_option (lock_of version) (pure tt) (λ l.
      when str_eq l (lock_val uj)
      then (do
        context "failed to unlock cluster version"
            (send env.server (update_cluster_version (without_lock version)))
        pure tt)
      else pure tt)

  unfoldable pub cleanup_lock : UpgradeJob → M (Unit {0})
  cleanup_lock uj = do
    version ←
        context "failed to get cluster version"
          (send env.server (get_cluster_version env.cluster_version_name))
    release_lock version uj
