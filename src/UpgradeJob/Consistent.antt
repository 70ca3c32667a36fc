-- ===== src/UpgradeJob/Consistent.antt =====
-- What holds of every upgrade job that the controller writes: it never is both succeeded and failed,
-- and it has succeeded by an upgrade only after every stage of the upgrade was done.
pub mod Marks
pub mod Hooks
pub mod Health
pub mod Pools
pub mod Lock
pub mod Cleanup
pub mod Stages
pub mod Started
pub mod Finish
pub mod Reconcile
use openshift_upgrade_contro.Prelude.{
  String, str_eq, ◌≡◌, refl, ◌⊎◌, Bool, true, false, ◌&&◌, ◌||◌, Option, none, some, List, All,
}
use openshift_upgrade_contro.Api.Meta.{NamespacedName, Condition, ConditionStatus, is_true}
use openshift_upgrade_contro.Api.Upstream.{ClusterVersion, Update}
use openshift_upgrade_contro.Api.Job.{
  UpgradeJob, condition_succeeded, condition_failed, condition_pre_health_check_done,
  condition_post_health_check_done, condition_upgrade_completed,
}
use openshift_upgrade_contro.Exec.{
  Request, Response, update_upgrade_job_status, update_cluster_version, get_upgrade_job, History,
}
use openshift_upgrade_contro.Exec.Triple.{Answers}
use openshift_upgrade_contro.UpgradeJob.Env.{Env}
use openshift_upgrade_contro.UpgradeJob.Status.{lock_val, find_condition}
use openshift_upgrade_contro.UpgradeJob.Lock.{lock_of}

-- A condition without its time and message.
abbrev pub State : Type 0
State = Option (ConditionStatus × String)

abbrev pub state_of_condition : Option Condition → State
state_of_condition none = none
state_of_condition (some c) = some (c.status, c.reason)

abbrev pub is_true_state : State → Bool
is_true_state none = false
is_true_state (some (s, r)) = is_true s

-- True with the reason that the end of an upgrade gives.
abbrev pub is_upgraded_state : State → Bool
is_upgraded_state none = false
is_upgraded_state (some (s, r)) = is_true s && str_eq r "Succeeded"

abbrev pub no_update : Option Update → Bool
no_update none = true
no_update (some u) = false

module _ (env : Env) where
  unfoldable pub state_of : String → UpgradeJob → State
  state_of t uj = state_of_condition (find_condition env t uj)

  abbrev pub truth : String → UpgradeJob → Bool
  truth t uj = is_true_state (state_of t uj)

  -- Every stage of the upgrade is done.
  abbrev pub stages_done : UpgradeJob → Bool
  stages_done uj =
      truth condition_pre_health_check_done uj
      && (truth condition_post_health_check_done uj
          && (no_update uj.spec.desired_version || truth condition_upgrade_completed uj))

  pub record IsConsistent (uj : UpgradeJob) : Type 0 where
    pub exclusive : truth condition_succeeded uj && truth condition_failed uj ≡ false
    pub staged : is_upgraded_state (state_of condition_succeeded uj) ≡ true → stages_done uj ≡ true

  -- Neither succeeded nor failed.
  pub record IsUnfinished (uj : UpgradeJob) : Type 0 where
    pub not_succeeded : truth condition_succeeded uj ≡ false
    pub not_failed : truth condition_failed uj ≡ false

  -- What the server keeps of a job whose status it stores. (It may cut times to seconds.)
  pub record IsStored (uj uj' : UpgradeJob) : Type 0 where
    pub same_name : lock_val uj' ≡ lock_val uj
    pub same_spec : uj'.spec ≡ uj.spec
    pub same_state : (t : String) → state_of t uj' ≡ state_of t uj

  -- What the API server documents: an update answers with the object that was stored, and a read
  -- with an object of the name that was asked for.
  pub record ServerLaws : Type 0 where
    pub job_found :
        (nn : NamespacedName)
        → Answers env.server
            (get_upgrade_job nn)
            (λ uj. (uj.meta.namespace ≡ nn.namespace) × (uj.meta.name ≡ nn.name))
    pub status_stored :
        (uj : UpgradeJob) → Answers env.server (update_upgrade_job_status uj) (IsStored uj)
    pub version_stored :
        (v : ClusterVersion)
        → Answers env.server (update_cluster_version v) (λ v'. lock_of v' ≡ lock_of v)

  -- What is asked of a request: a status that is written is consistent, and a cluster version that
  -- is written satisfies `LockOk`.
  abbrev pub Allowed : (ClusterVersion → Type 0) → Request → Type 0
  Allowed LockOk (update_upgrade_job_status uj) = IsConsistent uj
  Allowed LockOk (update_cluster_version v) = LockOk v
  Allowed LockOk _ = Unit

  abbrev pub Legal : (ClusterVersion → Type 0) → History → Type 0
  Legal LockOk h = All (Allowed LockOk) h
