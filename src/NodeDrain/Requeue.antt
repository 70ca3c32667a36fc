-- ===== src/NodeDrain/Requeue.antt =====
-- When a reconciliation with draining nodes is repeated, and how long a node may take.
use openshift_upgrade_contro.Prelude.{
  ◌≡◌, ◌↔◌, true, All, Option, List, [], ◌∷◌, Bool-cases, inl, inr, arith,
}
use openshift_upgrade_contro.Prelude.Int.{pos, ◌+ℤ◌, ◌≤ℤ◌, ◌<ℤ◌}
use openshift_upgrade_contro.Api.Time.{Time, Duration}
use openshift_upgrade_contro.Api.Duration.{is_positive, IsInt64, time_left_lem}
use openshift_upgrade_contro.Api.Upstream.{Node}
use openshift_upgrade_contro.Api.Drain.{NodeForceDrain, NodeForceDrainSpec, ObservedNodeDrain}
use openshift_upgrade_contro.Exec.{History, ◌>>=◌, pure, when◌then◌else◌}
use openshift_upgrade_contro.Exec.Triple.{
  Triple, Any, Holds, Holds-Any, Triple-pure, Triple-bind, Triple-option, Triple-read_now,
  Triple-return_errors,
}
use openshift_upgrade_contro.UpgradeJob.Status.{Outcome}
use openshift_upgrade_contro.NodeDrain.{Env, Selector, Query}
use openshift_upgrade_contro.NodeDrain.Grace.{
  Timeouts, sooner, add_timeout, check_node, check_nodes, time_until_drain,
}
use openshift_upgrade_contro.NodeDrain.Grace.Laws.{requeue_after-IsSoonest}
use openshift_upgrade_contro.NodeDrain.Reconcile.{drain_nodes, observe_and_drain}
use openshift_upgrade_contro.NodeDrain.Observe.Laws.{first-observed, observe_drains-eq}
use openshift_upgrade_contro.NodeDrain.Observe.Rounds.{IsRecorded, All-observed_of}

-- A node whose drain was observed by now has time left exactly as long as its grace period, which is not
-- negative, is not over; no sum overflows.
pub time_until_drain-is_positive :
    (spec : NodeForceDrainSpec) (ld : ObservedNodeDrain) (now : Time)
    → ld.observed_time ≤ℤ now
    → IsInt64 spec.node_drain_grace_period
    → pos 0 ≤ℤ spec.node_drain_grace_period
    → (is_positive (time_until_drain spec ld now) ≡ true)
      ↔ (now <ℤ ld.observed_time +ℤ spec.node_drain_grace_period)
unfolding time_until_drain
time_until_drain-is_positive spec ld now past b nonneg =
    time_left_lem ld.observed_time now spec.node_drain_grace_period past b nonneg

sooner_nonneg : (r c : Duration) → pos 0 ≤ℤ r → pos 0 <ℤ c → pos 0 ≤ℤ sooner r c
unfolding sooner
sooner_nonneg r c h p = ground arith

add_timeout_nonneg :
    (t : Timeouts) (node : Node) (until : Duration)
    → pos 0 ≤ℤ t.until_next
    → pos 0 ≤ℤ (add_timeout t node until).until_next
unfolding add_timeout
add_timeout_nonneg t node until h = elim (Bool-cases (is_positive until)) [
  | inl e ↦ rw e (sooner_nonneg t.until_next until h (ground arith))
  | inr e ↦ rw e h
]

abbrev Anywhere : History → Type 0
Anywhere h = Unit

module _ (env : Env) (fd : NodeForceDrain) where
  check_nodes_nonneg :
      (t : Timeouts) (nodes : List Node)
      → pos 0 ≤ℤ t.until_next
      → Triple Anywhere (check_nodes env fd t nodes) (λ t'. pos 0 ≤ℤ t'.until_next)
  unfolding check_nodes check_node
  check_nodes_nonneg t [] n = Triple-pure _ n
  check_nodes_nonneg t (node ∷ nodes) n =
      Triple-bind (λ t'. pos 0 ≤ℤ t'.until_next) _ _
        (Triple-option _ _ _ (λ _. Triple-pure _ n)
          (λ ld _. Triple-bind Any _ _ (Triple-read_now env.clock (λ h p. tt)) (λ now _.
            Triple-pure _ (add_timeout_nonneg t node (time_until_drain fd.spec ld now) n))))
        (λ t' n'. check_nodes_nonneg t' nodes n')

  module _ (ns_selector : Selector) (query : Option Query) where
    Anywhere-Any : {A : Type 0} (m : openshift_upgrade_contro.Exec.M A) → Triple Anywhere m Any
    Anywhere-Any m = record { at = λ h p. (tt, Holds-Any (m h).0) }

    -- The interval after which a reconciliation is repeated.
    abbrev pub IsWithin : Outcome → Type 0
    IsWithin o = (pos 0 <ℤ o.requeue_after) × (o.requeue_after ≤ℤ env.max_reconcile_interval)

    drain_nodes-IsWithin :
        (node : Node) (nodes : List Node) (h : History)
        → pos 0 ≤ℤ fd.spec.pod_force_delete_grace_period
        → pos 0 <ℤ env.max_reconcile_interval
        → Holds IsWithin (drain_nodes env fd ns_selector query (node ∷ nodes) h).0
    unfolding drain_nodes
    drain_nodes-IsWithin node nodes h g m =
        let t : Triple Anywhere (drain_nodes env fd ns_selector query (node ∷ nodes)) IsWithin =
          Triple-bind _ _ _ (check_nodes_nonneg _ (node ∷ nodes) (omega arith)) (λ t n.
            Triple-bind Any _ _ (Anywhere-Any _) (λ drained _.
              Triple-bind Any _ _ (Anywhere-Any _) (λ deleted _.
                Triple-bind Any _ _ (Triple-return_errors _) (λ _ _. Triple-pure _ (
                  (requeue_after-IsSoonest env t.until_next fd.spec.pod_force_delete_grace_period
                      deleted.0 drained.0 true n g).first.0
                    m))))) in
        (t.at h tt).1

    -- While a node is draining, a longest interval is set and the status has the present drain of every
    -- draining node, a reconciliation, from the observation of the drains on, either fails or asks to be
    -- repeated, after that interval at most, whatever the server and the clock answer; the grace period
    -- for pods is not negative.
    pub observe_and_drain-IsWithin :
        (node : Node) (nodes : List Node) (h : History)
        → All (IsRecorded env (node ∷ nodes) fd) (node ∷ nodes)
        → pos 0 ≤ℤ fd.spec.pod_force_delete_grace_period
        → pos 0 <ℤ env.max_reconcile_interval
        → Holds IsWithin (observe_and_drain env fd ns_selector query (node ∷ nodes) h).0
    unfolding observe_and_drain ◌>>=◌ when◌then◌else◌
    observe_and_drain-IsWithin node nodes h os g m =
        let none_left =
          first-observed fd.last_observed_node_drain (node ∷ nodes)
            (All-observed_of env (node ∷ nodes) fd (node ∷ nodes) os) in
        rw (observe_drains-eq env fd (node ∷ nodes) h)
          (rw none_left (drain_nodes-IsWithin node nodes h g m))
