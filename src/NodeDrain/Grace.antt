-- ===== src/NodeDrain/Grace.antt =====
-- The nodes that are out of their grace period, and the time until the next timeout.
pub mod Laws
use openshift_upgrade_contro.Prelude.{
  Bool, true, false, ◌&&◌, ◌||◌, not, List, [], ◌∷◌, ◌++◌, is_empty, if◌then◌else◌,
}
use openshift_upgrade_contro.Prelude.Int.{pos, ltb_ℤ, eqb_ℤ}
use openshift_upgrade_contro.Api.Time.{Time, Duration, sub_time}
use openshift_upgrade_contro.Api.Duration.{add_duration, is_positive}
use openshift_upgrade_contro.Api.Upstream.{Node}
use openshift_upgrade_contro.Api.Drain.{NodeForceDrain, NodeForceDrainSpec, ObservedNodeDrain}
use openshift_upgrade_contro.Exec.{M, ◌>>=◌, pure, read_now, match_option}
use openshift_upgrade_contro.NodeDrain.{Env}
use openshift_upgrade_contro.NodeDrain.Observe.{find_last_observed_node_drain}

-- d == 0
abbrev pub is_none : Duration → Bool
is_none d = eqb_ℤ d (pos 0)

-- `if next == 0 || t < next { next = t }`
unfoldable pub sooner : Duration → Duration → Duration
sooner next t = if is_none next || ltb_ℤ t next then t else next

unfoldable pub time_until_drain : NodeForceDrainSpec → ObservedNodeDrain → Time → Duration
unfolding add_duration sub_time
time_until_drain spec ld now =
    add_duration (sub_time ld.observed_time now) spec.node_drain_grace_period

-- `timeUntilNextDrain` and `nodesOutOfGracePeriod`
pub record Timeouts : Type 0 where
  pub until_next : Duration
  pub out_of_grace : List Node

unfoldable pub add_timeout : Timeouts → Node → Duration → Timeouts
unfolding sooner
add_timeout t node until =
    if is_positive until
    then record t { until_next = sooner t.until_next until }
    else record t { out_of_grace = t.out_of_grace ++ (node ∷ []) }

module _ (env : Env) where
  -- The body of the loop.
  unfoldable pub check_node : NodeForceDrain → Timeouts → Node → M Timeouts
  check_node fd t node =
      match_option (find_last_observed_node_drain fd.last_observed_node_drain node.meta.name)
        (pure t)
        (λ ld. do
          now ← read_now env.clock
          pure (add_timeout t node (time_until_drain fd.spec ld now)))

  unfoldable pub check_nodes : NodeForceDrain → Timeouts → List Node → M Timeouts
  check_nodes fd t [] = pure t
  check_nodes fd t (node ∷ nodes) = do t' ← check_node fd t node; check_nodes fd t' nodes

  -- The duration that the reconciliation ends with; `draining` is whether a node is draining.
  unfoldable pub requeue_after : Duration → Bool → Duration → Duration → Bool → Duration
  unfolding sooner
  requeue_after until_next_drain deleted pod_grace until_force_delete draining =
      let r = until_next_drain in
      let r' = if deleted && not (is_none pod_grace) then sooner r pod_grace else r in
      let r'' = if is_positive until_force_delete then sooner r' until_force_delete else r' in
      let most = env.max_reconcile_interval in
      if draining && (is_positive most && (is_none r'' || ltb_ℤ most r'')) then most else r''
