-- ===== src/NodeDrain/Safety/Due.antt =====
-- The nodes that are out of their grace period.
use mathlib.Core.List.{Memᴰ}
use openshift_upgrade_contro.Prelude.{
  ◌≡◌, inl, inr, eq_iff, true, false, some, List, [], ◌∷◌, ◌++◌, All, Bool-cases,
}
use openshift_upgrade_contro.Api.Time.{Duration}
use openshift_upgrade_contro.Api.Duration.{is_positive}
use openshift_upgrade_contro.Api.Meta.{NamespacedName}
use openshift_upgrade_contro.Api.Upstream.{Node}
use openshift_upgrade_contro.Api.Drain.{NodeForceDrain, ObservedNodeDrain}
use openshift_upgrade_contro.Exec.{ok, History, get_force_drain, list_nodes}
use openshift_upgrade_contro.Exec.Triple.{
  Triple-pure, Triple-bind, Triple-option, Triple-read_now_shown,
}
use openshift_upgrade_contro.NodeDrain.{Env}
use openshift_upgrade_contro.NodeDrain.Observe.{
  is_draining, drain_id, find_last_observed_node_drain,
}
use openshift_upgrade_contro.NodeDrain.Observe.Laws.{is_observed}
use openshift_upgrade_contro.NodeDrain.Grace.{
  Timeouts, check_node, check_nodes, add_timeout, time_until_drain,
}
use openshift_upgrade_contro.NodeDrain.Allowed.{IsDue}
use openshift_upgrade_contro.NodeDrain.Candidates.Laws.{Keeps}

module _ (env : Env) (nn : NamespacedName) where
  abbrev pub IsShown : NodeForceDrain → Type 0
  IsShown fd = (h : History) × (env.server h (get_force_drain nn) ≡ ok fd)

  module _ (fd : NodeForceDrain) where
    abbrev pub IsNode : Node → Type 0
    IsNode node =
        (h : History) × (nodes : List Node) × (env.server h (list_nodes fd.spec.node_selector)
          ≡ ok nodes)
        × Memᴰ node nodes

    abbrev pub IsWaiting : Node → Type 0
    IsWaiting node =
        IsNode node
        × (is_draining node ≡ true)
        × (is_observed fd.last_observed_node_drain node ≡ true)

    observed_id :
        (node : Node) (ld : ObservedNodeDrain)
        → is_observed fd.last_observed_node_drain node ≡ true
        → find_last_observed_node_drain fd.last_observed_node_drain node.meta.name ≡ some ld
        → ld.last_applied_drain ≡ drain_id node
    unfolding is_observed
    observed_id node ld o e = (eq_iff ld.last_applied_drain (drain_id node)).0 (rw e at o)

    -- All that `IsDue` says but the server's answer with the drain.
    abbrev pub IsPast : Node → Type 0
    IsPast node = IsShown fd → IsDue env nn fd node

    All-append :
        (ns : List Node) (node : Node)
        → All IsPast ns
        → IsPast node
        → All IsPast (ns ++ (node ∷ []))
    All-append [] node ps p = (p, tt)
    All-append (n ∷ ns) node ps p = (ps.0, All-append ns node ps.1 p)

    add_timeout-IsPast :
        (t : Timeouts) (node : Node) (until : Duration)
        → All IsPast t.out_of_grace
        → (is_positive until ≡ false → IsPast node)
        → All IsPast (add_timeout t node until).out_of_grace
    unfolding add_timeout
    add_timeout-IsPast t node until ps p = elim (Bool-cases (is_positive until)) [
      | inl e ↦ rw e ps
      | inr e ↦ rw e (All-append t.out_of_grace node ps (p e))
    ]

    pub check_nodes-IsPast :
        (t : Timeouts) (nodes : List Node)
        → All IsPast t.out_of_grace
        → All IsWaiting nodes
        → Keeps env nn (check_nodes env fd t nodes) (λ t'. All IsPast t'.out_of_grace)
    unfolding check_nodes check_node
    check_nodes-IsPast t [] ps ws = Triple-pure _ ps
    check_nodes-IsPast t (node ∷ nodes) ps ws =
        let (listed, draining, observed) = ws.0 in
        Triple-bind (λ t'. All IsPast t'.out_of_grace) _ _
          (Triple-option _ _ _ (λ e. Triple-pure _ ps)
            (λ ld e.
              Triple-bind _ _ _ (Triple-read_now_shown env.clock (λ h p. (tt, p))) (λ now shown.
                Triple-pure _ (
                  add_timeout-IsPast t node (time_until_drain fd.spec ld now) ps (λ over s. record {
                    shown = s;
                    listed = listed;
                    draining = draining;
                    over = (ld, e, observed_id node ld observed e, shown.0, rw (← shown.1) over);
                  })))))
          (λ t' ps'. check_nodes-IsPast t' nodes ps' ws.1)

    pub AreDue-IsPast : (ns : List Node) → IsShown fd → All IsPast ns → All (IsDue env nn fd) ns
    AreDue-IsPast [] s ps = tt
    AreDue-IsPast (n ∷ ns) s ps = (ps.0 s, AreDue-IsPast ns s ps.1)
