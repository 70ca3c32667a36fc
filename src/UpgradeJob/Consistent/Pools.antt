-- ===== src/UpgradeJob/Consistent/Pools.antt =====
-- The pools: going on past them leaves the job unfinished, and what is written is consistent.
use openshift_upgrade_contro.Prelude.{◌≡◌, refl, ◌∙◌, Bool, true, false, List, [], ◌∷◌, arith}
use openshift_upgrade_contro.Api.Time.{Duration}
use openshift_upgrade_contro.Api.Upstream.{ClusterVersion, MachineConfigPool}
use openshift_upgrade_contro.Api.Job.{UpgradeJob, MachineConfigPoolSpec, DelayUpgradeSpec}
use openshift_upgrade_contro.Exec.{M, update_pool, list_pools, list_all_pools, ok, err}
use openshift_upgrade_contro.Exec.Triple.{
  Triple, Triple-bind, Triple-pure, Triple-raise, Triple-when, Triple-option, Triple-context,
  Triple-attempt, Triple-send-Any, Triple-read_now, Triple-weaken, Any,
}
use openshift_upgrade_contro.UpgradeJob.Env.{Env, ApimetaLaws}
use openshift_upgrade_contro.UpgradeJob.Status.{lock_val}
use openshift_upgrade_contro.UpgradeJob.Requeue.{time_since_start_after}
use openshift_upgrade_contro.UpgradeJob.Pools.{
  Walk, stopped, walking, match_walk, expire, set_paused, unpause, visit_pool, visit_pools,
  visit_specs, report_paused, pause_unpause_machine_config_pools,
}
use openshift_upgrade_contro.UpgradeJob.Consistent.{IsUnfinished, ServerLaws, Legal}
use openshift_upgrade_contro.UpgradeJob.Consistent.Marks.{
  IsConsistent-of_IsUnfinished, set_neutral, set_failed, tick, set_status_condition-IsMarked,
  update_status-IsStored, IsUnfinished-IsStored,
}
use openshift_upgrade_contro.UpgradeJob.Consistent.Hooks.{execute_hooks-IsKept}

-- A walk that goes on has left the job as it was.
abbrev pub Carries : UpgradeJob → Walk → Type 0
Carries uj (stopped uj') = Unit
Carries uj (walking uj' m p) = uj' ≡ uj

module _ {B : Type 0} {P : openshift_upgrade_contro.Exec.History → Type 0} {R : B → Type 0} where
  Triple-walk :
      (uj : UpgradeJob) (w : Walk) (f : UpgradeJob → M B) (g : UpgradeJob → Bool → Bool → M B)
      → Carries uj w
      → ((uj' : UpgradeJob) → Triple P (f uj') R)
      → ((uj' : UpgradeJob) (m p : Bool) → uj' ≡ uj → Triple P (g uj' m p) R)
      → Triple P (match_walk w f g) R
  unfolding match_walk
  Triple-walk uj (stopped uj') f g c kf kg = kf uj'
  Triple-walk uj (walking uj' m p) f g c kf kg = kg uj' m p c

module _ (env : Env) where
  -- A job that may go on: still of the same name, and unfinished.
  pub record GoesOn (uj uj' : UpgradeJob) : Type 0 where
    pub same_name : lock_val uj' ≡ lock_val uj
    pub unfinished : IsUnfinished env uj'

  module _ (a : ApimetaLaws env.apimeta) (laws : ServerLaws env)
      (LockOk : ClusterVersion → Type 0) where
    abbrev Writes : {A : Type 0} → M A → (A → Type 0) → Type 0
    Writes m Q = Triple (Legal env LockOk) m Q

    pub time_since_start_after-Any : (uj : UpgradeJob) → Writes (time_since_start_after env uj) Any
    unfolding time_since_start_after
    time_since_start_after-Any uj =
        Triple-bind Any _ _ (Triple-read_now env.clock (tick env a laws LockOk))
          (λ now _. Triple-pure _ tt)

    expire-Carries :
        (uj : UpgradeJob) (mcp : MachineConfigPool)
        → IsUnfinished env uj
        → Writes (expire env uj mcp) (Carries uj)
    unfolding expire
    expire-Carries uj mcp u =
        Triple-bind _ _ _ (set_status_condition-IsMarked env a (tick env a laws LockOk) uj _)
          (λ r s.
            Triple-bind _ _ _
              (Triple-attempt _ (
                update_status-IsStored env a laws LockOk r.0
                  (set_failed env "UnpausingPoolsExpired" _ uj r.0 u s)))
              (λ v _. Triple-raise _))

    set_paused-Carries :
        (uj : UpgradeJob) (pause paused : Bool) (mcp : MachineConfigPool)
        → Writes (set_paused env uj pause paused mcp) (Carries uj)
    unfolding set_paused
    set_paused-Carries uj pause paused mcp =
        Triple-bind Any _ _
          (Triple-context _ _ (Triple-send-Any env.server (update_pool _) (λ h p. (tt, p))))
          (λ _ _. Triple-pure _ refl)

    unpause-Carries :
        (uj : UpgradeJob) (paused : Bool) (mcp : MachineConfigPool)
        → Writes (unpause env uj paused mcp) (Carries uj)
    unfolding unpause
    unpause-Carries uj paused mcp =
        Triple-bind _ _ _ (Triple-context _ _ (execute_hooks-IsKept env a laws LockOk uj _ _ _ _))
          (λ r k.
            Triple-when _ _ _ (λ _. Triple-pure _ tt)
              (λ g.
                let e : r.1 ≡ uj = k.goes_on (ground arith) in
                Triple-weaken (Carries r.1) (Carries uj) _ (λ w c. Carries-trans w c e)
                  (set_paused-Carries r.1 false paused mcp)))
      where
        Carries-trans : {u v : UpgradeJob} (w : Walk) → Carries v w → v ≡ u → Carries u w
        Carries-trans (stopped _) c e = tt
        Carries-trans (walking _ m p) c e = c ∙ e

    visit_pool-Carries :
        (delay : DelayUpgradeSpec) (since : Duration) (uj : UpgradeJob) (paused : Bool)
        (mcp : MachineConfigPool)
        → IsUnfinished env uj
        → Writes (visit_pool env delay since uj paused mcp) (Carries uj)
    unfolding visit_pool
    visit_pool-Carries delay since uj paused mcp u =
        Triple-when _ _ _ (λ _. expire-Carries uj mcp u)
          (λ _.
            Triple-when _ _ _ (λ _. unpause-Carries uj _ mcp)
              (λ _.
                Triple-when _ _ _ (λ _. set_paused-Carries uj _ _ mcp) (λ _. Triple-pure _ refl)))

    visit_pools-Carries :
        (delay : DelayUpgradeSpec) (since : Duration) (uj : UpgradeJob) (manages paused : Bool)
        (mcps : List MachineConfigPool)
        → IsUnfinished env uj
        → Writes (visit_pools env delay since uj manages paused mcps) (Carries uj)
    unfolding visit_pools
    visit_pools-Carries delay since uj manages paused [] u = Triple-pure _ refl
    visit_pools-Carries delay since uj manages paused (mcp ∷ mcps) u =
        Triple-bind _ _ _ (visit_pool-Carries delay since uj paused mcp u) (λ w c.
          Triple-walk uj w _ _ c (λ _. Triple-pure _ tt)
            (λ uj' m p e. rw e (visit_pools-Carries delay since uj m p mcps u)))

    visit_specs-Carries :
        (uj : UpgradeJob) (manages paused : Bool) (specs : List MachineConfigPoolSpec)
        → IsUnfinished env uj
        → Writes (visit_specs env uj manages paused specs) (Carries uj)
    unfolding visit_specs
    visit_specs-Carries uj manages paused [] u = Triple-pure _ refl
    visit_specs-Carries uj manages paused (spec ∷ specs) u =
        Triple-when _ _ _ (λ _. visit_specs-Carries uj manages paused specs u)
          (λ _. Triple-bind Any _ _ (time_since_start_after-Any uj) (λ since _.
            Triple-option _ _ _ (λ _. Triple-raise _)
              (λ _ _.
                Triple-bind Any _ _
                  (Triple-context _ _ (Triple-send-Any env.server (list_pools _) (λ h p. (tt, p))))
                  (λ mcps _.
                    Triple-bind _ _ _
                      (visit_pools-Carries spec.delay_upgrade since uj manages paused mcps u)
                      (λ w c.
                        Triple-walk uj w _ _ c (λ _. Triple-pure _ tt)
                          (λ uj' m p e. rw e (visit_specs-Carries uj m p specs u)))))))

    report_paused-GoesOn :
        (uj : UpgradeJob) (manages paused : Bool)
        → IsUnfinished env uj
        → Writes (report_paused env uj manages paused) (λ r. GoesOn uj r.1)
    unfolding report_paused
    report_paused-GoesOn uj manages paused u =
        Triple-bind _ _ _ (set_status_condition-IsMarked env a (tick env a laws LockOk) uj _)
          (λ r s.
            let u' = set_neutral env _ uj r.0 refl refl u s in
            Triple-when _ _ _
              (λ _.
                Triple-bind _ _ _
                  (update_status-IsStored env a laws LockOk r.0
                    (IsConsistent-of_IsUnfinished env r.0 u'))
                  (λ uj' k. Triple-pure _ (record {
                    same_name = k.same_name ∙ s.same_name;
                    unfinished = IsUnfinished-IsStored env r.0 uj' u' k;
                  })))
              (λ _. Triple-pure _ (record { same_name = s.same_name; unfinished = u' })))

    pub pause_unpause-GoesOn :
        (uj : UpgradeJob)
        → IsUnfinished env uj
        → Writes (pause_unpause_machine_config_pools env uj) (λ r. r.0 ≡ true → GoesOn uj r.1)
    unfolding pause_unpause_machine_config_pools
    pause_unpause-GoesOn uj u = Triple-bind _ _ _ (visit_specs-Carries uj false false _ u) (λ w c.
        Triple-walk uj w _ _ c (λ uj'. Triple-pure (false, uj') (λ h. cc))
          (λ uj' m p e. rw e (
            Triple-weaken (λ r. GoesOn uj r.1) (λ r. r.0 ≡ true → GoesOn uj r.1) _ (λ r g _. g)
              (report_paused-GoesOn uj m p u))))
