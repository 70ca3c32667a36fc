-- ===== src/UpgradeJob/Consistent/Health.antt =====
-- What a health check decides, and how it leaves the job.
use openshift_upgrade_contro.Prelude.{
  String, str_eq, eq_refl, ◌≡◌, ◌⊎◌, inl, inr, refl, Bool, true, false, not, ◌||◌, none, some,
}
use openshift_upgrade_contro.Api.Meta.{
  Condition, ConditionStatus, status_true, status_false, is_true,
}
use openshift_upgrade_contro.Api.Time.{add_time, after}
use openshift_upgrade_contro.Exec.{History}
use openshift_upgrade_contro.HealthCheck.{is_operator_degraded}
use openshift_upgrade_contro.Api.Upstream.{ClusterVersion}
use openshift_upgrade_contro.Api.Job.{
  UpgradeJob, HealthCheckSpec, condition_succeeded, condition_failed,
}
use openshift_upgrade_contro.Exec.Triple.{
  Triple, Triple-bind, Triple-pure, Triple-when, Triple-option, Triple-read_now_shown,
  Triple-weaken,
}
use openshift_upgrade_contro.UpgradeJob.Env.{Env, ApimetaLaws}
use openshift_upgrade_contro.UpgradeJob.Status.{
  mark, condition, failed_condition, find_condition, lock_val,
}
use openshift_upgrade_contro.UpgradeJob.Health.{run_health_check}
use openshift_upgrade_contro.UpgradeJob.Consistent.{
  state_of, truth, IsUnfinished, ServerLaws, Legal,
}
use openshift_upgrade_contro.UpgradeJob.Consistent.Marks.{
  IsMarked, IsConsistent-of_IsUnfinished, set_neutral, set_failed, mark-IsMarked, tick,
}

-- The operators are not looked at, or none of them is degraded.
abbrev pub IsHealthy : ClusterVersion → HealthCheckSpec → Type 0
IsHealthy version config =
    (config.skip_degraded_operators_check ≡ true) ⊎ (is_operator_degraded version ≡ false)

abbrev pub IsUnhealthy : ClusterVersion → HealthCheckSpec → Type 0
IsUnhealthy version config =
    (config.skip_degraded_operators_check ≡ false) × (is_operator_degraded version ≡ true)

healthy_lem : (s d : Bool) → not (s || not d) ≡ false → (s ≡ true) ⊎ (d ≡ false)
healthy_lem true d h = inl refl
healthy_lem false false h = inr refl
healthy_lem false true h = cc

unhealthy_lem : (s d : Bool) → not (s || not d) ≡ true → (s ≡ false) × (d ≡ true)
unhealthy_lem true d h = cc
unhealthy_lem false true h = (refl, refl)
unhealthy_lem false false h = cc

module _ (env : Env) where
  -- The condition `t` of `uj'` is `b`; it is otherwise `uj`, and has not finished.
  pub record IsChecked (b : Bool) (t : String) (uj uj' : UpgradeJob) : Type 0 where
    pub same_name : lock_val uj' ≡ lock_val uj
    pub same_spec : uj'.spec ≡ uj.spec
    pub passed : truth env t uj' ≡ b
    pub others : (u : String) → str_eq t u ≡ false → state_of env u uj' ≡ state_of env u uj
    pub unfinished : IsUnfinished env uj'

  abbrev pub IsPassed : String → UpgradeJob → UpgradeJob → Type 0
  IsPassed t uj uj' = IsChecked true t uj uj'

  -- The job failed at an instant after the timeout, counted from the last change of the condition.
  pub record IsTimedOut (config : HealthCheckSpec) (c : Condition) (uj : UpgradeJob) : Type 0 where
    pub at : History
    pub late : after (env.clock at) (add_time c.last_transition_time config.timeout) ≡ true
    pub failed : truth env condition_failed uj ≡ true

  -- A check passes if it had passed before, or was started before and the cluster is healthy. It does
  -- not pass if it was not started before, and its condition is false then, or if the cluster is not
  -- healthy, and the job is unchanged or has timed out then.
  abbrev pub IsVerdict :
      ClusterVersion → HealthCheckSpec → String → UpgradeJob → Bool × UpgradeJob → Type 0
  IsVerdict version config t uj (true, uj') =
      IsPassed t uj uj'
      × (c : Condition) × (find_condition env t uj ≡ some c)
      × ((is_true c.status ≡ true) ⊎ IsHealthy version config)
  IsVerdict version config t uj (false, uj') =
      ((find_condition env t uj ≡ none) × IsChecked false t uj uj')
      ⊎ ((c : Condition) × (find_condition env t uj ≡ some c)
          × (is_true c.status ≡ false)
          × IsUnhealthy version config
          × ((uj' ≡ uj) ⊎ IsTimedOut config c uj'))

  verdict-IsPassed :
      (version : ClusterVersion) (config : HealthCheckSpec) (t : String) (uj : UpgradeJob)
      (r : Bool × UpgradeJob)
      → IsVerdict version config t uj r
      → r.0 ≡ true
      → IsPassed t uj r.1
  verdict-IsPassed version config t uj (true, uj') v e = v.0
  verdict-IsPassed version config t uj (false, uj') v e = cc

  module _ (a : ApimetaLaws env.apimeta) (laws : ServerLaws env)
      (LockOk : ClusterVersion → Type 0) where
    -- A mark that finishes nothing.
    pub mark_neutral :
        (uj : UpgradeJob) (c : Condition)
        → str_eq c.type condition_succeeded ≡ false
        → str_eq c.type condition_failed ≡ false
        → IsUnfinished env uj
        → Triple (Legal env LockOk) (mark env uj c) (IsMarked env c uj)
    mark_neutral uj c p q u =
        mark-IsMarked env a laws LockOk uj c
          (λ uj' s. IsConsistent-of_IsUnfinished env uj' (set_neutral env c uj uj' p q u s))

    -- A mark that fails the job.
    pub mark_failed :
        (uj : UpgradeJob) (reason message : String)
        → IsUnfinished env uj
        → Triple
            (Legal env LockOk)
            (mark env uj (failed_condition env reason message))
            (IsMarked env (failed_condition env reason message) uj)
    mark_failed uj reason message u =
        mark-IsMarked env a laws LockOk uj (failed_condition env reason message)
          (λ uj' s. set_failed env reason message uj uj' u s)

    module _ (uj : UpgradeJob) (u : IsUnfinished env uj) (type : String)
        (not_s : str_eq type condition_succeeded ≡ false)
        (not_f : str_eq type condition_failed ≡ false) where
      set-IsChecked :
          (st : ConditionStatus) (reason message : String) (uj' : UpgradeJob)
          → IsMarked env (condition type st reason message) uj uj'
          → IsChecked (is_true st) type uj uj'
      set-IsChecked st reason message uj' s = record {
        same_name = s.same_name;
        same_spec = s.same_spec;
        passed = rw (s.new_state type) (rw (eq_refl type));
        others = λ t ne. rw (s.new_state t) (rw ne);
        unfinished = set_neutral env (condition type st reason message) uj uj' not_s not_f u s;
      }

      found-IsPassed :
          (c : Condition)
          → find_condition env type uj ≡ some c
          → is_true c.status ≡ true
          → IsPassed type uj uj
      unfolding state_of
      found-IsPassed c found t = record {
        same_name = refl;
        same_spec = refl;
        passed = rw found t;
        others = λ v ne. refl;
        unfinished = u;
      }

      pub checked-IsVerdict :
          (version : ClusterVersion) (config : HealthCheckSpec) (failed_reason : String)
          → Triple
              (Legal env LockOk)
              (run_health_check env uj version config type failed_reason)
              (IsVerdict version config type uj)
      unfolding run_health_check
      checked-IsVerdict version config failed_reason =
          Triple-option (find_condition env type uj) _ _
            (λ missing. Triple-bind _ _ _ (mark_neutral uj _ not_s not_f u) (λ uj' s.
              Triple-pure (false, uj')
                (inl (
                  missing,
                  set-IsChecked status_false "InProgress" "Health checks started" uj' s,
                ))))
            (λ c found.
              Triple-when _ _ _
                (λ t. Triple-pure (true, uj) (found-IsPassed c found t, c, found, inl t))
                (λ waiting.
                  Triple-when _ _ _
                    (λ ill.
                      let unhealthy = unhealthy_lem _ _ ill in
                      Triple-bind _ _ _ (Triple-read_now_shown env.clock (tick env a laws LockOk))
                        (λ now shown.
                          Triple-when _ _ _
                            (λ late. Triple-bind _ _ _ (mark_failed uj failed_reason _ u) (λ uj' s.
                              Triple-pure (false, uj')
                                (inr (
                                  c,
                                  found,
                                  waiting,
                                  unhealthy,
                                  inr (record {
                                    at = shown.0;
                                    late = rw (← shown.1) late;
                                    failed = rw (s.new_state condition_failed) refl;
                                  }),
                                ))))
                            (λ _.
                              Triple-pure (false, uj)
                                (inr (c, found, waiting, unhealthy, inl refl)))))
                    (λ well. Triple-bind _ _ _ (mark_neutral uj _ not_s not_f u) (λ uj' s.
                      Triple-pure (true, uj')
                        (
                          set-IsChecked status_true "Completed" "Health checks ok" uj' s,
                          c,
                          found,
                          inr (healthy_lem _ _ well),
                        )))))

      pub run_health_check-IsPassed :
          (version : ClusterVersion) (config : HealthCheckSpec) (failed_reason : String)
          → Triple
              (Legal env LockOk)
              (run_health_check env uj version config type failed_reason)
              (λ r. r.0 ≡ true → IsPassed type uj r.1)
      run_health_check-IsPassed version config failed_reason =
          Triple-weaken _ _ _ (verdict-IsPassed version config type uj)
            (checked-IsVerdict version config failed_reason)
