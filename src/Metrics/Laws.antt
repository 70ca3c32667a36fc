-- ===== src/Metrics/Laws.antt =====
-- What the metrics of a cluster say.
use mathlib.Core.List.{Memᴰ}
use openshift_upgrade_contro.Prelude.{
  ◌≡◌, refl, ◌↔◌, Bool, true, false, ◌&&◌, some, List, [], ◌∷◌, All, any_of, is_empty, Bool-cases,
  Option-cases, or_true, subst, inl, inr, arith,
}
use openshift_upgrade_contro.Prelude.Dict.{Dict}
use openshift_upgrade_contro.Api.Upstream.{ClusterVersion, MachineConfigPool}
use openshift_upgrade_contro.Api.Job.{UpgradeJob}
use openshift_upgrade_contro.Api.Hook.{UpgradeJobHook, would_execute, claim}
use openshift_upgrade_contro.Api.Hook.Laws.{would_execute-eq-claim}
use openshift_upgrade_contro.ClusterVersion.{is_version_upgrade_completed}
use openshift_upgrade_contro.HealthCheck.{machine_config_pools_updating}
use openshift_upgrade_contro.HealthCheck.Pools.{IsSettled}
use openshift_upgrade_contro.UpgradeJob.Status.{job_claimer}
use openshift_upgrade_contro.Metrics.{Env}
use openshift_upgrade_contro.Metrics.Jobs.{is_disruptive_for, job_has_matching_disruptive_hook}
use openshift_upgrade_contro.Metrics.Collect.{upgrading_names, is_upgrading}

settled_names :
    (mcps : List MachineConfigPool)
    → All (IsSettled false) mcps
    → is_empty (upgrading_names mcps) ≡ true
unfolding upgrading_names machine_config_pools_updating
settled_names [] h = refl
settled_names (mcp ∷ mcps) h = ground (arith, settled_names mcps)

names-IsSettled :
    (mcps : List MachineConfigPool)
    → is_empty (upgrading_names mcps) ≡ true
    → All (IsSettled false) mcps
unfolding upgrading_names machine_config_pools_updating
names-IsSettled [] h = tt
names-IsSettled (mcp ∷ mcps) h = (ground arith, names-IsSettled mcps (ground arith))

-- The cluster is reported as not upgrading exactly if the upgrade to the desired version is completed
-- and all machines of every pool that is not paused are updated.
pub is_upgrading_iff :
    (mcps : List MachineConfigPool) (cv : ClusterVersion)
    → (is_upgrading mcps cv ≡ false)
      ↔ ((is_version_upgrade_completed cv ≡ true) × All (IsSettled false) mcps)
unfolding is_upgrading
is_upgrading_iff mcps cv = (
  (λ h. (ground arith, names-IsSettled mcps (ground arith))),
  (λ h. let e = settled_names mcps h.1 in ground arith),
)

module _ (env : Env) (job : UpgradeJob) where
  -- The hook selects the job, disrupts the cluster, and would be claimed for the job.
  pub record IsDisruptive (hook : UpgradeJobHook) : Type 0 where
    pub matches : Dict → Bool
    pub parsed : env.as_selector (some hook.spec.selector) ≡ some matches
    pub selects : matches job.meta.labels ≡ true
    pub disruptive : hook.spec.disruptive ≡ true
    pub claimed : (claim hook (job_claimer job)).1 ≡ true

  hook_found : (hook : UpgradeJobHook) → is_disruptive_for env job hook ≡ true → IsDisruptive hook
  unfolding is_disruptive_for
  hook_found hook h = elim (Option-cases (env.as_selector (some hook.spec.selector))) [
    | inl e ↦ let h' : false ≡ true = rw e at h in cc
    | inr (m, e) ↦
        let h' : (m job.meta.labels
              && (would_execute hook (job_claimer job) && hook.spec.disruptive))
            ≡ true =
          rw e at h in
        record {
          matches = m;
          parsed = e;
          selects = ground arith;
          disruptive = ground arith;
          claimed = rw (← would_execute-eq-claim hook (job_claimer job)) (ground arith);
        }
  ]

  found_disruptive :
      (hook : UpgradeJobHook) → IsDisruptive hook → is_disruptive_for env job hook ≡ true
  unfolding is_disruptive_for
  found_disruptive hook d = rw d.parsed (
      rw d.selects (rw (would_execute-eq-claim hook (job_claimer job)) (rw d.claimed d.disruptive)))

  any_found :
      (hooks : List UpgradeJobHook)
      → any_of (is_disruptive_for env job) hooks ≡ true
      → (hook : UpgradeJobHook) × Memᴰ hook hooks × IsDisruptive hook
  any_found [] h = cc
  any_found (x ∷ xs) h = elim (Bool-cases (is_disruptive_for env job x)) [
    | inl e ↦ (x, Memᴰ.head refl, hook_found x e)
    | inr e ↦ let (k, m, d) = any_found xs (rw e at h) in (k, Memᴰ.tail m, d)
  ]

  found_any :
      (hooks : List UpgradeJobHook) (hook : UpgradeJobHook)
      → Memᴰ hook hooks
      → IsDisruptive hook
      → any_of (is_disruptive_for env job) hooks ≡ true
  found_any [] hook m d = elim m [ ]
  found_any (x ∷ xs) hook (Memᴰ.head e) d = rw (found_disruptive x (subst IsDisruptive e d)) refl
  found_any (x ∷ xs) hook (Memᴰ.tail m) d = rw (found_any xs hook m d) (or_true _)

  -- A job is reported to match disruptive hooks exactly if one of the hooks selects it, is disruptive, and
  -- would be claimed by the job.
  pub job_has_matching_disruptive_hook_iff :
      (hooks : List UpgradeJobHook)
      → (job_has_matching_disruptive_hook env job hooks ≡ true)
        ↔ ((hook : UpgradeJobHook) × Memᴰ hook hooks × IsDisruptive hook)
  unfolding job_has_matching_disruptive_hook
  job_has_matching_disruptive_hook_iff hooks = (any_found hooks, (λ f. found_any hooks f.0 f.1 f.2))
