-- ===== src/HealthCheck/Pools.antt =====
-- Which pools count as updating, and how the paused ones are told apart.
use openshift_upgrade_contro.Prelude.{
  ◌≡◌, refl, ◌↔◌, ◌==◌, Bool, true, false, List, [], ◌∷◌, All, keep, is_empty, map, not, arith,
  if◌then◌else◌,
}
use openshift_upgrade_contro.Api.Upstream.{MachineConfigPool}
use openshift_upgrade_contro.HealthCheck.{
  UpdatingPool, updating_pool, machine_config_pools_updating, filter_paused,
}

-- The pools whose machine counts differ, in the order of the list.
abbrev is_updating : MachineConfigPool → Bool
is_updating mcp = not (mcp.machine_count == mcp.updated_machine_count)

machine_config_pools_updating-eq-keep :
    (mcps : List MachineConfigPool)
    → machine_config_pools_updating mcps ≡ map updating_pool (keep is_updating mcps)
unfolding machine_config_pools_updating
machine_config_pools_updating-eq-keep [] = refl
machine_config_pools_updating-eq-keep (mcp ∷ mcps) =
    ground (arith, machine_config_pools_updating-eq-keep mcps)

filter_paused-eq-keep :
    (ps : List UpdatingPool)
    → filter_paused ps ≡ (keep (λ p. p.paused) ps, keep (λ p. not p.paused) ps)
unfolding filter_paused
filter_paused-eq-keep [] = refl
filter_paused-eq-keep (p ∷ ps) = ground (arith, filter_paused-eq-keep ps)

-- Settled as far as the pools with this `paused` flag go: their machines are all updated.
abbrev pub IsSettled : Bool → MachineConfigPool → Type 0
IsSettled b mcp = mcp.paused ≡ b → mcp.machine_count ≡ mcp.updated_machine_count

abbrev pub paused_updating : List MachineConfigPool → List UpdatingPool
paused_updating mcps = (filter_paused (machine_config_pools_updating mcps)).0

abbrev pub active_updating : List MachineConfigPool → List UpdatingPool
active_updating mcps = (filter_paused (machine_config_pools_updating mcps)).1

pools_nil :
    (mcps : List MachineConfigPool) (b : Bool)
    → All (IsSettled b) mcps
    → is_empty (if b then paused_updating mcps else active_updating mcps) ≡ true
unfolding machine_config_pools_updating filter_paused
pools_nil [] true h = refl
pools_nil [] false h = refl
pools_nil (mcp ∷ mcps) true h = ground (arith, pools_nil mcps true)
pools_nil (mcp ∷ mcps) false h = ground (arith, pools_nil mcps false)

pools_of_nil :
    (mcps : List MachineConfigPool) (b : Bool)
    → is_empty (if b then paused_updating mcps else active_updating mcps) ≡ true
    → All (IsSettled b) mcps
unfolding machine_config_pools_updating filter_paused
pools_of_nil [] b h = tt
pools_of_nil (mcp ∷ mcps) true h = (ground arith, pools_of_nil mcps true (ground arith))
pools_of_nil (mcp ∷ mcps) false h = (ground arith, pools_of_nil mcps false (ground arith))

-- `machineConfigPoolsUpdating` and `filterPaused` leave no paused pool exactly if every paused pool has
-- all its machines updated (`b` is true), and no active pool exactly if every pool that is not paused
-- has (`b` is false).
pub pools_nil_iff :
    (mcps : List MachineConfigPool) (b : Bool)
    → (is_empty (if b then paused_updating mcps else active_updating mcps) ≡ true)
      ↔ All (IsSettled b) mcps
pools_nil_iff mcps b = (pools_of_nil mcps b, pools_nil mcps b)
