-- ===== src/UpgradeJob/Consistent/Marks.antt =====
-- How setting a condition changes the states of the conditions, and which marks are consistent.
use openshift_upgrade_contro.Prelude.{
  String, str_eq, ◌≡◌, refl, ◌∙◌, true, false, Option, none, some, ◌∷◌, if◌then◌else◌, arith,
}
use openshift_upgrade_contro.Api.Meta.{Condition, ConditionStatus, status_true}
use openshift_upgrade_contro.Api.Upstream.{ClusterVersion}
use openshift_upgrade_contro.Api.Job.{
  UpgradeJob, condition_succeeded, condition_failed, condition_pre_health_check_done,
  condition_post_health_check_done, condition_upgrade_completed,
  condition_machine_config_pools_paused, condition_paused,
}
use openshift_upgrade_contro.Exec.{History, read_clock, read_now, update_upgrade_job_status}
use openshift_upgrade_contro.Exec.Triple.{
  Triple, Triple-bind, Triple-send, Triple-pure, Triple-read_now, Triple-weaken, Any,
}
use openshift_upgrade_contro.UpgradeJob.Env.{Env, ApimetaLaws, merged}
use openshift_upgrade_contro.UpgradeJob.Status.{
  set_status_condition, mark, condition, failed_condition, find_condition, lock_val, update_status,
}
use openshift_upgrade_contro.UpgradeJob.Consistent.{
  State, state_of_condition, state_of, stages_done, is_true_state, is_upgraded_state, IsConsistent,
  IsUnfinished, IsStored, ServerLaws, Legal,
}

state_of-merged :
    (c : Condition) (old : Option Condition)
    → state_of_condition (some (merged c old)) ≡ some (c.status, c.reason)
state_of-merged c none = refl
state_of-merged c (some old) = ground arith

not_upgraded : (s : State) → is_true_state s ≡ false → is_upgraded_state s ≡ false
not_upgraded none p = refl
not_upgraded (some (s, r)) p = ground arith

module _ (env : Env) where
  -- The job `uj'` is `uj` with the state of `c` set.
  pub record IsMarked (c : Condition) (uj uj' : UpgradeJob) : Type 0 where
    pub same_name : lock_val uj' ≡ lock_val uj
    pub same_spec : uj'.spec ≡ uj.spec
    pub new_state :
        (t : String)
        → state_of env t uj'
          ≡ (if str_eq c.type t then some (c.status, c.reason) else state_of env t uj)

  module _ (a : ApimetaLaws env.apimeta) where
    state_of-set :
        (c : Condition) (uj : UpgradeJob)
        → IsMarked c uj
            (record uj { conditions = (env.apimeta.set_status_condition c uj.conditions).0 })
    unfolding state_of
    state_of-set c uj = record {
      same_name = refl;
      same_spec = refl;
      new_state =
          λ t. let m = state_of-merged c (find_condition env t uj) in rw a.find-set (ground arith);
    }

    module _ {P : History → Type 0} (tick : (h : History) → P h → P (read_clock ∷ h)) where
      pub set_status_condition-IsMarked :
          (uj : UpgradeJob) (c : Condition)
          → Triple P (set_status_condition env uj c) (λ r. IsMarked c uj r.0)
      unfolding set_status_condition
      set_status_condition-IsMarked uj c =
          Triple-bind Any (read_now env.clock) _ (Triple-read_now env.clock tick) (λ now _.
            Triple-pure _ (
              let s = state_of-set (record c { last_transition_time = now }) uj in
              record { same_name = s.same_name; same_spec = s.same_spec; new_state = s.new_state }))

  IsMarked-IsStored :
      (c : Condition) (uj u1 u2 : UpgradeJob)
      → IsMarked c uj u1
      → IsStored env u1 u2
      → IsMarked c uj u2
  IsMarked-IsStored c uj u1 u2 p q = record {
    same_name = q.same_name ∙ p.same_name;
    same_spec = q.same_spec ∙ p.same_spec;
    new_state = λ t. q.same_state t ∙ p.new_state t;
  }

  pub IsConsistent-of_IsUnfinished : (uj : UpgradeJob) → IsUnfinished env uj → IsConsistent env uj
  IsConsistent-of_IsUnfinished uj u = record {
    exclusive = rw u.not_succeeded;
    staged = λ h. cc (not_upgraded (state_of env condition_succeeded uj) u.not_succeeded);
  }

  pub IsUnfinished-IsStored :
      (uj uj' : UpgradeJob) → IsUnfinished env uj → IsStored env uj uj' → IsUnfinished env uj'
  IsUnfinished-IsStored uj uj' u k = record {
    not_succeeded = rw (k.same_state condition_succeeded) u.not_succeeded;
    not_failed = rw (k.same_state condition_failed) u.not_failed;
  }

  -- A condition other than `Succeeded` and `Failed` finishes nothing.
  pub set_neutral :
      (c : Condition) (uj uj' : UpgradeJob)
      → str_eq c.type condition_succeeded ≡ false
      → str_eq c.type condition_failed ≡ false
      → IsUnfinished env uj
      → IsMarked c uj uj'
      → IsUnfinished env uj'
  set_neutral c uj uj' p q u s = record {
    not_succeeded = rw s.new_state (rw p u.not_succeeded);
    not_failed = rw s.new_state (rw q u.not_failed);
  }

  -- Failing a job that has not finished.
  pub set_failed :
      (reason message : String) (uj uj' : UpgradeJob)
      → IsUnfinished env uj
      → IsMarked (failed_condition env reason message) uj uj'
      → IsConsistent env uj'
  set_failed reason message uj uj' u s = record {
    exclusive = rw (s.new_state condition_succeeded) (rw u.not_succeeded);
    staged = λ h. cc (
      not_upgraded (state_of env condition_succeeded uj) u.not_succeeded,
      s.new_state condition_succeeded,
    );
  }

  -- A job that is skipped succeeds, though not by an upgrade.
  pub set_skipped :
      (reason message : String) (uj uj' : UpgradeJob)
      → str_eq reason "Succeeded" ≡ false
      → IsUnfinished env uj
      → IsMarked (condition condition_succeeded status_true reason message) uj uj'
      → IsConsistent env uj'
  set_skipped reason message uj uj' r u s = record {
    exclusive =
        rw (s.new_state condition_succeeded) (rw (s.new_state condition_failed) u.not_failed);
    staged = λ h.
        let e : str_eq reason "Succeeded" ≡ true = rw (s.new_state condition_succeeded) at h in cc;
  }

  stages_done-set :
      {reason message : String} (uj uj' : UpgradeJob)
      → IsMarked (condition condition_succeeded status_true reason message) uj uj'
      → stages_done env uj ≡ true
      → stages_done env uj' ≡ true
  stages_done-set uj uj' s d = rw (s.new_state condition_pre_health_check_done) (
      rw (s.new_state condition_post_health_check_done)
        (rw (s.new_state condition_upgrade_completed, s.same_spec) d))

  pub stages_done-set_paused :
      {status : ConditionStatus} {reason message : String} (uj uj' : UpgradeJob)
      → IsMarked (condition condition_paused status reason message) uj uj'
      → stages_done env uj ≡ true
      → stages_done env uj' ≡ true
  stages_done-set_paused uj uj' s d = rw (s.new_state condition_pre_health_check_done) (
      rw (s.new_state condition_post_health_check_done)
        (rw (s.new_state condition_upgrade_completed, s.same_spec) d))

  -- The condition on the pools decides nothing, also when the job has finished.
  pub set_paused-IsConsistent :
      {status : ConditionStatus} {reason message : String} (uj uj' : UpgradeJob)
      → IsConsistent env uj
      → IsMarked (condition condition_machine_config_pools_paused status reason message) uj uj'
      → IsConsistent env uj'
  set_paused-IsConsistent uj uj' c s = record {
    exclusive =
        rw (s.new_state condition_succeeded) (rw (s.new_state condition_failed) c.exclusive);
    staged = λ h.
        let old : is_upgraded_state (state_of env condition_succeeded uj) ≡ true =
          rw (s.new_state condition_succeeded) at h in
        rw (s.new_state condition_pre_health_check_done) (
          rw (s.new_state condition_post_health_check_done)
            (rw (s.new_state condition_upgrade_completed, s.same_spec) (c.staged old)));
  }

  pub set_succeeded :
      (reason message : String) (uj uj' : UpgradeJob)
      → stages_done env uj ≡ true
      → IsUnfinished env uj
      → IsMarked (condition condition_succeeded status_true reason message) uj uj'
      → IsConsistent env uj'
  set_succeeded reason message uj uj' d u s = record {
    exclusive =
        rw (s.new_state condition_succeeded) (rw (s.new_state condition_failed) u.not_failed);
    staged = λ h. stages_done-set uj uj' s d;
  }

  module _ (a : ApimetaLaws env.apimeta) (laws : ServerLaws env)
      (LockOk : ClusterVersion → Type 0) where
    pub tick : (h : History) → Legal env LockOk h → Legal env LockOk (read_clock ∷ h)
    tick h p = (tt, p)

    -- A status that is consistent may be written, and the server keeps it.
    pub update_status-IsStored :
        (uj : UpgradeJob)
        → IsConsistent env uj
        → Triple (Legal env LockOk) (update_status env uj) (IsStored env uj)
    update_status-IsStored uj c =
        Triple-send env.server (update_upgrade_job_status uj) (IsStored env uj) (λ h p. (c, p))
          (laws.status_stored uj)

    pub mark-IsMarked :
        (uj : UpgradeJob) (c : Condition)
        → ((uj' : UpgradeJob) → IsMarked c uj uj' → IsConsistent env uj')
        → Triple (Legal env LockOk) (mark env uj c) (IsMarked c uj)
    unfolding mark
    mark-IsMarked uj c consistent =
        Triple-bind (λ r. IsMarked c uj r.0) (set_status_condition env uj c)
          (λ r. update_status env r.0) (set_status_condition-IsMarked a tick uj c)
          (λ r p.
            Triple-weaken (IsStored env r.0) (IsMarked c uj) (update_status env r.0)
              (λ uj' q. IsMarked-IsStored c uj r.0 uj' p q)
              (update_status-IsStored r.0 (consistent r.0 p)))
