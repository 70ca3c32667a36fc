-- ===== src/UpgradeJob/Status.antt =====
-- Status conditions of the job: `setStatusCondition`, `boolToStatus`, and the status update that
-- follows most changes.
use openshift_upgrade_contro.Prelude.{String, ◌<>◌, Bool, true, false, Option}
use openshift_upgrade_contro.Api.Time.{zero_time}
use openshift_upgrade_contro.Api.Meta.{ConditionStatus, status_true, status_false, Condition}
use openshift_upgrade_contro.Api.Job.{UpgradeJob, condition_failed}
use openshift_upgrade_contro.Api.Hook.{Claimer}
use openshift_upgrade_contro.Exec.{M, ◌>>=◌, pure, send, read_now, update_upgrade_job_status}
use openshift_upgrade_contro.UpgradeJob.Env.{Env}

-- ctrl.Result
pub record Outcome : Type 0 where
  pub requeue : Bool
  pub requeue_after : openshift_upgrade_contro.Api.Time.Duration

-- ctrl.Result{}
abbrev pub no_requeue : Outcome
no_requeue = record { requeue = false; requeue_after = zero_time }

abbrev pub bool_to_status : Bool → ConditionStatus
bool_to_status true = status_true
bool_to_status false = status_false

-- uj.Namespace + "/" + uj.Name
abbrev pub lock_val : UpgradeJob → String
lock_val uj = uj.meta.namespace <> ("/" <> uj.meta.name)

abbrev pub job_claimer : UpgradeJob → Claimer
job_claimer uj = record {
  api_version = uj.api_version;
  kind = uj.kind;
  name = uj.meta.name;
  uid = uj.meta.uid;
}

-- A condition as the source writes it, before it is given a time.
abbrev pub condition : String → ConditionStatus → String → String → Condition
condition type status reason message = record {
  type = type;
  status = status;
  last_transition_time = zero_time;
  reason = reason;
  message = message;
}

module _ (env : Env) where
  abbrev pub find_condition : String → UpgradeJob → Option Condition
  find_condition t uj = env.apimeta.find_status_condition t uj.conditions

  abbrev pub has_condition : String → UpgradeJob → Bool
  has_condition t uj = env.apimeta.is_status_condition_true t uj.conditions

  -- setStatusCondition on the conditions of a job: the job after it, and whether it changed.
  unfoldable pub set_status_condition : UpgradeJob → Condition → M (UpgradeJob × Bool)
  set_status_condition uj c = do
    now ← read_now env.clock
    let r = env.apimeta.set_status_condition (record c { last_transition_time = now }) uj.conditions
    pure (record uj { conditions = r.0 }, r.1)

  -- r.Status().Update(ctx, uj)
  abbrev pub update_status : UpgradeJob → M UpgradeJob
  update_status uj = send env.server (update_upgrade_job_status uj)

  -- A condition is set and the status written.
  unfoldable pub mark : UpgradeJob → Condition → M UpgradeJob
  mark uj c = do r ← set_status_condition uj c; update_status r.0

  -- The condition that fails a job.
  abbrev pub failed_condition : String → String → Condition
  failed_condition reason message = condition condition_failed status_true reason message
