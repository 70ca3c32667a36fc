-- ===== src/HealthCheck.antt =====
-- pkg/healthcheck/healthcheck.go, and `filterPaused` of the job's controller.
pub mod Pools
use openshift_upgrade_contro.Prelude.{
  String, ℕ, ◌==◌, Bool, true, false, ◌&&◌, List, [], ◌∷◌, str_eq, any_of, if◌then◌else◌,
}
use openshift_upgrade_contro.Api.Meta.{is_true}
use openshift_upgrade_contro.Api.Upstream.{OperatorCondition, ClusterVersion, MachineConfigPool}

unfoldable pub is_operator_degraded : ClusterVersion → Bool
is_operator_degraded cv =
    any_of (λ (c : OperatorCondition). str_eq c.type "Degraded" && is_true c.status) cv.conditions

pub record UpdatingPool : Type 0 where
  pub name : String
  pub paused : Bool
  pub total : ℕ
  pub updated : ℕ

-- What the loop appends for one pool.
abbrev pub updating_pool : MachineConfigPool → UpdatingPool
updating_pool mcp = record {
  name = mcp.meta.name;
  paused = mcp.paused;
  total = mcp.machine_count;
  updated = mcp.updated_machine_count;
}

unfoldable pub machine_config_pools_updating : List MachineConfigPool → List UpdatingPool
machine_config_pools_updating [] = []
machine_config_pools_updating (mcp ∷ mcps) =
    let rest = machine_config_pools_updating mcps in
    if mcp.machine_count == mcp.updated_machine_count then rest else updating_pool mcp ∷ rest

-- The paused pools and the active ones.
unfoldable pub filter_paused : List UpdatingPool → List UpdatingPool × List UpdatingPool
filter_paused [] = ([], [])
filter_paused (p ∷ ps) =
    let (paused, active) = filter_paused ps in
    if p.paused then (p ∷ paused, active) else (paused, p ∷ active)
