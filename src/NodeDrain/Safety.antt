-- ===== src/NodeDrain/Safety.antt =====
-- The pods that a reconciliation deletes.
pub mod Nodes
pub mod Due
use mathlib.Core.List.{Memᴰ}
use openshift_upgrade_contro.Prelude.{
  ◌≡◌, refl, sym, ap, subst, ◌⊎◌, inl, inr, str_eq, eq_iff, Bool, true, false, not, Option, none,
  some, List, [], ◌∷◌, ◌++◌, All, All-mem, Bool-cases, Option-cases, arith, keep, find_first,
}
use openshift_upgrade_contro.Prelude.Int.{pos}
use openshift_upgrade_contro.Api.Time.{Time, Duration}
use openshift_upgrade_contro.Api.Duration.{is_positive}
use openshift_upgrade_contro.Api.Meta.{NamespacedName}
use openshift_upgrade_contro.Api.Upstream.{Node}
use openshift_upgrade_contro.Api.Drain.{NodeForceDrain, ObservedNodeDrain}
use openshift_upgrade_contro.Exec.{
  ok, err, Error, History, Request, M, Result, pure, raise, wrap, send, ◌>>=◌, get_force_drain,
  list_nodes, read_clock, update_force_drain_status, option_case, match_result, when◌then◌else◌,
}
use openshift_upgrade_contro.Exec.Triple.{
  Triple, Any, Holds, Triple-pure, Triple-raise, Triple-bind, Triple-when, Triple-option,
  Triple-result, Triple-attempt-send, Triple-context, Triple-send_shown, Triple-send-Any,
  Triple-read_now_shown, Triple-return_errors,
}
use openshift_upgrade_contro.UpgradeJob.Track.{is_not_found}
use openshift_upgrade_contro.NodeDrain.{Env, Selector, Query}
use openshift_upgrade_contro.NodeDrain.Observe.{
  is_draining, drain_id, find_last_observed_node_drain, observe_drains,
}
use openshift_upgrade_contro.NodeDrain.Observe.Laws.{
  All-observed, is_observed, first_unobserved, record_drain, with_drains, observe_drains-eq,
}
use openshift_upgrade_contro.NodeDrain.Grace.{
  Timeouts, is_none, check_node, check_nodes, add_timeout, time_until_drain,
}
use openshift_upgrade_contro.NodeDrain.Reconcile.{
  empty_drain, drain_nodes, observe_and_drain, reconcile_drain, reconcile,
}
use openshift_upgrade_contro.NodeDrain.Allowed.{IsDue, IsParsed, IsAllowed}
use openshift_upgrade_contro.NodeDrain.Candidates.Laws.{Keeps}
use openshift_upgrade_contro.NodeDrain.Safety.Nodes.{
  force_drain_nodes-Keeps, force_delete_on_nodes-Keeps,
}
use openshift_upgrade_contro.NodeDrain.Safety.Due.{
  IsShown, IsNode, IsWaiting, check_nodes-IsPast, AreDue-IsPast,
}

All-keep :
    (R : Node → Type 0) (p : Node → Bool) (xs : List Node)
    → All R xs
    → All (λ x. R x × (p x ≡ true)) (keep p xs)
All-keep R p [] rs = tt
All-keep R p (x ∷ xs) rs = elim (Bool-cases (p x)) [
  | inl e ↦ rw e ((rs.0, e), All-keep R p xs rs.1)
  | inr e ↦ rw e (All-keep R p xs rs.1)
]

module _ (env : Env) (nn : NamespacedName) where
  module _ (fd : NodeForceDrain) where
    -- A drain with a grace period is one that the server has.
    abbrev IsReal : Type 0
    IsReal =
        (is_none fd.spec.node_drain_grace_period ≡ false → IsShown env nn fd)
        × (is_none fd.spec.pod_force_delete_grace_period ≡ false → IsShown env nn fd)

    not-true : (b : Bool) → not b ≡ true → b ≡ false
    not-true b h = ground arith

    module _ (real : IsReal) (ns_selector : Selector) (query : Option Query)
        (parsed : IsParsed env fd ns_selector query) where
      drain_nodes-Keeps :
          (draining : List Node)
          → All (IsWaiting env nn fd) draining
          → Keeps env nn (drain_nodes env fd ns_selector query draining) Any
      unfolding drain_nodes
      drain_nodes-Keeps draining ws =
          Triple-bind _ _ _ (check_nodes-IsPast env nn fd _ draining tt ws) (λ t ps.
            Triple-bind Any _ _
              (Triple-when _ _ _
                (λ g.
                  let n = not-true _ g in
                  force_drain_nodes-Keeps env nn fd ns_selector query parsed t.out_of_grace n
                    (AreDue-IsPast env nn fd t.out_of_grace (real.0 n) ps))
                (λ _. Triple-pure _ tt))
              (λ drained _.
                Triple-bind Any _ _
                  (Triple-when _ _ _
                    (λ g.
                      let n = not-true _ g in
                      force_delete_on_nodes-Keeps env nn fd ns_selector query parsed (pos 0)
                        t.out_of_grace n (AreDue-IsPast env nn fd t.out_of_grace (real.1 n) ps))
                    (λ _. Triple-pure _ tt))
                  (λ deleted _.
                    Triple-bind Any _ _ (Triple-return_errors _) (λ _ _. Triple-pure _ tt))))

  -- What the observation ends with: a change, or the same object with every drain observed.
  abbrev IsObservedBy : NodeForceDrain → List Node → NodeForceDrain × Bool → Type 0
  IsObservedBy fd draining r =
      r.1 ≡ false
      → (r.0 ≡ fd) × All (λ n. is_observed fd.last_observed_node_drain n ≡ true) draining

  observe_drains-Keeps :
      (fd : NodeForceDrain) (draining : List Node)
      → Keeps env nn (observe_drains env fd false draining) (IsObservedBy fd draining)
  observe_drains-Keeps fd draining = record {
    at = λ h p.
        rw (observe_drains-eq env fd draining h)
          (elim (Option-cases (first_unobserved fd.last_observed_node_drain draining)) [
            | inl e ↦ rw e (p, (λ _. (refl, All-observed fd.last_observed_node_drain draining e)))
            | inr (n, e) ↦ rw e ((tt, p), (λ f. cc))
          ]);
  }

  All-IsWaiting :
      (fd : NodeForceDrain) (ns : List Node)
      → All (λ n. IsNode env nn fd n × (is_draining n ≡ true)) ns
      → All (λ n. is_observed fd.last_observed_node_drain n ≡ true) ns
      → All (IsWaiting env nn fd) ns
  All-IsWaiting fd [] ns os = tt
  All-IsWaiting fd (x ∷ xs) ns os = ((ns.0.0, ns.0.1, os.0), All-IsWaiting fd xs ns.1 os.1)

  observe_and_drain-Keeps :
      (fd : NodeForceDrain)
      → IsReal fd
      → (ns_selector : Selector) (query : Option Query) → IsParsed env fd ns_selector query
      → (draining : List Node) → All (λ n. IsNode env nn fd n × (is_draining n ≡ true)) draining
      → Keeps env nn (observe_and_drain env fd ns_selector query draining) Any
  unfolding observe_and_drain
  observe_and_drain-Keeps fd real ns_selector query parsed draining ns =
      Triple-bind _ _ _ (observe_drains-Keeps fd draining) (λ r q.
        Triple-when _ _ _
          (λ _.
            Triple-bind Any _ _
              (Triple-context _ _
                (Triple-send-Any env.server (update_force_drain_status _) (λ h p. (tt, p))))
              (λ _ _. Triple-pure _ tt))
          (λ f.
            let (same, os) = q f in
            subst (λ d. Keeps env nn (drain_nodes env d ns_selector query draining) Any) (sym same)
              (drain_nodes-Keeps fd real ns_selector query parsed draining
                (All-IsWaiting fd draining ns os))))

  All-nodes :
      (fd : NodeForceDrain) (h : History) (all : List Node)
      → env.server h (list_nodes fd.spec.node_selector) ≡ ok all
      → (xs : List Node) → All (λ n. Memᴰ n all) xs
      → All (IsNode env nn fd) xs
  All-nodes fd h all e [] ms = tt
  All-nodes fd h all e (x ∷ xs) ms = ((h, all, e, ms.0), All-nodes fd h all e xs ms.1)

  reconcile_drain-Keeps :
      (fd : NodeForceDrain) → IsReal fd → Keeps env nn (reconcile_drain env fd) Any
  unfolding reconcile_drain
  reconcile_drain-Keeps fd real =
      Triple-option _ _ _ (λ _. Triple-raise _)
        (λ sel _.
          Triple-bind _ _ _
            (Triple-context _ _ (Triple-send_shown env.server (list_nodes _) (λ h p. (tt, p))))
            (λ nodes shown.
              let ns =
                All-keep (IsNode env nn fd) is_draining nodes
                  (All-nodes fd shown.0 nodes shown.1 nodes (All-mem nodes nodes (λ a m. m))) in
              Triple-option _ _ _ (λ _. Triple-raise _)
                (λ ns_selector es.
                  Triple-when _ _ _
                    (λ eq.
                      observe_and_drain-Keeps fd real ns_selector none
                        (record { selector = es; query_of = eq }) _ ns)
                    (λ _.
                      Triple-option _ _ _ (λ _. Triple-raise _)
                        (λ q eq.
                          observe_and_drain-Keeps fd real ns_selector (some q)
                            (record { selector = es; query_of = eq }) _ ns)))))

  shown-IsReal : (fd : NodeForceDrain) → IsShown env nn fd → IsReal fd
  shown-IsReal fd s = ((λ _. s), (λ _. s))

  found-IsReal :
      (r : Result NodeForceDrain)
      → ((h : History) × (env.server h (get_force_drain nn) ≡ r))
      → Keeps env nn
          (match_result r
            (λ e.
              when is_not_found e
              then pure empty_drain
              else raise (wrap "failed to get NodeForceDrain" e))
            pure)
          IsReal
  unfolding match_result
  found-IsReal (ok fd) shown = Triple-pure fd (shown-IsReal fd shown)
  found-IsReal (err e) shown =
      Triple-when _ _ _ (λ _. Triple-pure _ ((λ f. cc), (λ f. cc))) (λ _. Triple-raise _)

  -- Whatever the server and the clock answer, after requests that delete only pods that may be deleted,
  -- a reconciliation deletes only such pods. The pod is on a node that the drain selects and that is
  -- draining; the drain of the node was observed, and the grace period since then is over. The server
  -- listed the pod on the node; its namespace and the query of the drain select it; its controller is
  -- not the node and not a daemon set that exists. A plain deletion is of a pod that is not being
  -- deleted yet, and is made only with a grace period for nodes. One with a grace period of one second
  -- is of a pod that is being deleted, and is made only with a grace period for pods and once that is
  -- over: no time is left by the deletion timestamp less the pod's own grace period plus the one for
  -- pods, in the arithmetic of the code. The pod's own grace period need not be over.
  pub reconcile-IsAllowed :
      (h : History) → All (IsAllowed env nn) h → All (IsAllowed env nn) (reconcile env nn h).1
  unfolding reconcile
  reconcile-IsAllowed h p =
      let t : Keeps env nn (reconcile env nn) Any =
        Triple-bind _ _ _ (Triple-attempt-send env.server (get_force_drain _) (λ h p. (tt, p)))
          (λ r shown. Triple-bind _ _ _ (found-IsReal r shown) (λ fd real.
            Triple-option _ _ _ (λ _. reconcile_drain-Keeps fd real) (λ _ _. Triple-pure _ tt))) in
      (t.at h p).0
