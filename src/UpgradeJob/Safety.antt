-- ===== src/UpgradeJob/Safety.antt =====
-- The safety of the controller of upgrade jobs, over every answer that the API server may give.
use openshift_upgrade_contro.Prelude.Dict.{Map}
use openshift_upgrade_contro.Api.Time.{Time}
use openshift_upgrade_contro.Api.Hook.{UpgradeEvent}
use openshift_upgrade_contro.UpgradeJob.Hooks.{execute_hooks}
use openshift_upgrade_contro.UpgradeJob.Health.{run_health_check}
use openshift_upgrade_contro.UpgradeJob.Consistent.Hooks.{IsKept, execute_hooks-IsKept}
use openshift_upgrade_contro.UpgradeJob.Consistent.Health.{IsVerdict, checked-IsVerdict}
use openshift_upgrade_contro.Prelude.{
  false, str_eq, String, ◌<>◌, ◌≡◌, ◌⊎◌, inl, inr, none, some, List, [], ◌∷◌,
}
use openshift_upgrade_contro.Api.Meta.{NamespacedName}
use openshift_upgrade_contro.Api.Upstream.{ClusterVersion}
use openshift_upgrade_contro.Api.Job.{
  UpgradeJob, HealthCheckSpec, condition_succeeded, condition_failed,
}
use openshift_upgrade_contro.Exec.{History, get_upgrade_job}
use openshift_upgrade_contro.Exec.Triple.{Holds, Any}
use openshift_upgrade_contro.UpgradeJob.Env.{Env, ApimetaLaws}
use openshift_upgrade_contro.UpgradeJob.Status.{lock_val}
use openshift_upgrade_contro.UpgradeJob.Lock.{lock_of}
use openshift_upgrade_contro.UpgradeJob.Started.{reconcile_started_job}
use openshift_upgrade_contro.UpgradeJob.Reconcile.{reconcile}
use openshift_upgrade_contro.UpgradeJob.Consistent.{IsConsistent, IsUnfinished, ServerLaws, Legal}
use openshift_upgrade_contro.UpgradeJob.Consistent.Started.{reconcile_started_job-Legal}
use openshift_upgrade_contro.UpgradeJob.Consistent.Reconcile.{reconcile-Legal}

-- A cluster version that carries the lock `l`, or none.
abbrev pub IsLockedBy : String → ClusterVersion → Type 0
IsLockedBy l v = (lock_of v ≡ some l) ⊎ (lock_of v ≡ none)

-- The requests that are on record after reconciling the jobs of these names, one after the other.
unfoldable pub reconcile_all : Env → List NamespacedName → History → History
reconcile_all env [] h = h
reconcile_all env (nn ∷ nns) h = reconcile_all env nns (reconcile env nn h).1

-- Where the server answers a read with a consistent job as long as every status written before was
-- consistent, and every version written before was locked by this job or free, a call of
-- `Reconcile` that begins after such requests makes only such requests, whatever else the server
-- answers: no status it writes is both Succeeded and Failed, none is Succeeded by an upgrade unless
-- both health checks are done and, if the job has a desired version, the upgrade is completed, and
-- every cluster version it writes is locked by its own job or by none.
pub reconcile-IsSafe :
    (env : Env)
    → ApimetaLaws env.apimeta
    → ServerLaws env
    → (nn : NamespacedName)
    → ((n : NamespacedName) (h : History)
        → Legal env (IsLockedBy (nn.namespace <> ("/" <> nn.name))) h
        → Holds (IsConsistent env) (env.server h (get_upgrade_job n)))
    → (h : History) → Legal env (IsLockedBy (nn.namespace <> ("/" <> nn.name))) h
    → Legal env (IsLockedBy (nn.namespace <> ("/" <> nn.name))) (reconcile env nn h).1
reconcile-IsSafe env a laws nn reads h p =
    let t =
      reconcile-Legal env a laws (IsLockedBy (nn.namespace <> ("/" <> nn.name)))
        (λ v free. inr free) reads nn (λ v locked. inl locked) in
    (t.at h p).0

-- Whatever sequence of jobs is reconciled from an empty record, and whatever the server answers that
-- keeps reads consistent as long as all the statuses written were, every status written is consistent.
pub reconcile_all-IsSafe :
    (env : Env)
    → ApimetaLaws env.apimeta
    → ServerLaws env
    → ((n : NamespacedName) (h : History)
        → Legal env (Any {A = ClusterVersion}) h
        → Holds (IsConsistent env) (env.server h (get_upgrade_job n)))
    → (nns : List NamespacedName) → Legal env (Any {A = ClusterVersion}) (reconcile_all env nns [])
unfolding reconcile_all
reconcile_all-IsSafe env a laws reads nns = from nns [] tt
  where
    from :
        (nns : List NamespacedName) (h : History)
        → Legal env (Any {A = ClusterVersion}) h
        → Legal env (Any {A = ClusterVersion}) (reconcile_all env nns h)
    from [] h p = p
    from (nn ∷ nns) h p =
        let t =
          reconcile-Legal env a laws (Any {A = ClusterVersion}) (λ v _. tt) reads nn (λ v _. tt) in
        from nns _ (t.at h p).0

-- A started job that has neither succeeded nor failed writes no cluster version that does not carry
-- its own lock, in whatever state it finds the cluster: a version that another job holds is not
-- touched. The statuses it writes are consistent.
pub reconcile_started_job-IsLocked :
    (env : Env)
    → ApimetaLaws env.apimeta
    → ServerLaws env
    → (uj : UpgradeJob) → IsUnfinished env uj
    → (h : History) → Legal env (λ v. lock_of v ≡ some (lock_val uj)) h
    → Legal env (λ v. lock_of v ≡ some (lock_val uj)) (reconcile_started_job env uj h).1
reconcile_started_job-IsLocked env a laws uj u h p =
    let t =
      reconcile_started_job-Legal env a laws (λ v. lock_of v ≡ some (lock_val uj)) uj
        (λ v locked. locked) u in
    (t.at h p).0

-- After requests with only consistent statuses, a call of `executeHooks` that returns keeps the name of
-- the job; where it says to go on, and where the job had finished before, the job is unchanged.
pub execute_hooks-Keeps :
    (env : Env)
    → ApimetaLaws env.apimeta
    → ServerLaws env
    → (uj : UpgradeJob) (event : UpgradeEvent) (key : String) (info : Map String) (cutoff : Time)
    → (h : History) → Legal env (Any {A = ClusterVersion}) h
    → Holds (IsKept env uj) (execute_hooks env uj event key info cutoff h).0
execute_hooks-Keeps env a laws uj event key info cutoff h p =
    ((execute_hooks-IsKept env a laws (Any {A = ClusterVersion}) uj event key info cutoff).at h p).1

-- After requests with only consistent statuses, a health check of an unfinished job under any condition
-- but Succeeded and Failed, when it returns, has passed only if it had passed before, or was started by
-- an earlier call and the operators are not looked at or none is degraded; then its condition is true,
-- and the job is unfinished, with the name, the specification and the other conditions that it had. It
-- has not passed only in two cases. Either it was not started before: then its condition is false, and
-- the job is unfinished and otherwise as it was. Or some operator is degraded and they are looked at:
-- then the job is unchanged, or it has failed at an instant after the timeout.
pub run_health_check-IsVerdict :
    (env : Env)
    → ApimetaLaws env.apimeta
    → ServerLaws env
    → (uj : UpgradeJob) (version : ClusterVersion) (config : HealthCheckSpec)
    → (type failed_reason : String) → IsUnfinished env uj
    → str_eq type condition_succeeded ≡ false
    → str_eq type condition_failed ≡ false
    → (h : History) → Legal env (Any {A = ClusterVersion}) h
    → Holds
        (IsVerdict env version config type uj)
        (run_health_check env uj version config type failed_reason h).0
run_health_check-IsVerdict env a laws uj version config type failed_reason u not_s not_f h p =
    let t =
      checked-IsVerdict env a laws (Any {A = ClusterVersion}) uj u type not_s not_f version config
        failed_reason in
    (t.at h p).1
