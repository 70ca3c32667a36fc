-- ===== src/NodeDrain/Safety/Nodes.antt =====
-- The pods that are deleted on one node, in `forceDrainNode` and `forceDeletePodsOnNode`.
use openshift_upgrade_contro.Prelude.{
  ℕ, ◌≡◌, refl, String, false, Option, none, some, List, [], ◌∷◌, All,
}
use openshift_upgrade_contro.Prelude.Int.{pos}
use openshift_upgrade_contro.Api.Time.{Duration}
use openshift_upgrade_contro.Api.Meta.{NamespacedName}
use openshift_upgrade_contro.Api.Upstream.{Node, Pod}
use openshift_upgrade_contro.Api.Drain.{NodeForceDrain}
use openshift_upgrade_contro.Exec.{Error, M, record_event, increment_counter, delete_pod}
use openshift_upgrade_contro.Exec.Triple.{
  Any, Triple-pure, Triple-bind, Triple-when, Triple-option, Triple-result, Triple-attempt,
  Triple-send-Any, Triple-read_now_shown,
}
use openshift_upgrade_contro.NodeDrain.{Env, Selector, Query}
use openshift_upgrade_contro.NodeDrain.Grace.{is_none}
use openshift_upgrade_contro.NodeDrain.Delete.{
  delete_counted, drain_pod, drain_pods, terminate_pod, terminate_pods, with_candidates,
  force_drain_node, force_delete_pods_on_node,
}
use openshift_upgrade_contro.NodeDrain.Reconcile.{
  force_drain_nodes, force_delete_on_nodes, next_force_delete,
}
use openshift_upgrade_contro.NodeDrain.Allowed.{
  IsListed, IsCandidate, IsDue, IsParsed, IsTimely, MayDelete,
}
use openshift_upgrade_contro.NodeDrain.Candidates.Laws.{Keeps, pods-IsCandidate}

module _ (env : Env) (nn : NamespacedName) (fd : NodeForceDrain) (ns_selector : Selector)
    (query : Option Query) (parsed : IsParsed env fd ns_selector query) where
  abbrev IsSubject : Node → Pod → Type 0
  IsSubject node pod = IsListed env node pod × IsCandidate env ns_selector query pod

  module _ (node : Node) (due : IsDue env nn fd node) where
    delete_counted-Keeps :
        (event counter : String) (pod : Pod) (grace : Option ℕ)
        → IsSubject node pod
        → IsTimely env fd pod grace
        → Keeps env nn (delete_counted env fd.meta.name node event counter pod grace) Any
    unfolding delete_counted
    delete_counted-Keeps event counter pod grace s timely =
        let may : MayDelete env nn pod grace = record {
          drain = fd;
          node = node;
          due = due;
          ns_selector = ns_selector;
          query = query;
          parsed = parsed;
          on_node = s.0;
          candidate = s.1;
          timely = timely;
        } in
        Triple-bind _ _ _
          (Triple-attempt _ (Triple-send-Any env.server (record_event event) (λ h p. (tt, p))))
          (λ _ _.
            Triple-bind _ _ _
              (Triple-attempt _
                (Triple-send-Any env.server (increment_counter counter _) (λ h p. (tt, p))))
              (λ _ _.
                Triple-bind _ _ _
                  (Triple-attempt _
                    (Triple-send-Any env.server (delete_pod pod grace) (λ h p. (may, p))))
                  (λ r _. Triple-pure _ tt)))

    drain_pods-Keeps :
        (pods : List Pod)
        → is_none fd.spec.node_drain_grace_period ≡ false
        → All (IsSubject node) pods
        → Keeps env nn (drain_pods env fd.meta.name node pods) Any
    unfolding drain_pods drain_pod
    drain_pods-Keeps [] g ps = Triple-pure _ tt
    drain_pods-Keeps (pod ∷ pods) g ps =
        Triple-bind Any _ _
          (Triple-option pod.meta.deletion_timestamp _ _
            (λ e.
              Triple-bind Any _ _ (delete_counted-Keeps _ _ pod none ps.0 (g, e))
                (λ es _. Triple-pure _ tt))
            (λ t e. Triple-pure _ tt))
          (λ r _. Triple-bind Any _ _ (drain_pods-Keeps pods g ps.1) (λ more _. Triple-pure _ tt))

    terminate_pods-Keeps :
        (next : Duration) (pods : List Pod)
        → is_none fd.spec.pod_force_delete_grace_period ≡ false
        → All (IsSubject node) pods
        → Keeps env nn
            (terminate_pods env fd.meta.name node fd.spec.pod_force_delete_grace_period next pods)
            Any
    unfolding terminate_pods terminate_pod
    terminate_pods-Keeps next [] g ps = Triple-pure _ tt
    terminate_pods-Keeps next (pod ∷ pods) g ps =
        Triple-bind Any _ _
          (Triple-option pod.meta.deletion_timestamp _ _ (λ e. Triple-pure _ tt)
            (λ t e.
              Triple-bind _ _ _ (Triple-read_now_shown env.clock (λ h p. (tt, p))) (λ now shown.
                Triple-when _ _ _ (λ _. Triple-pure _ tt)
                  (λ over.
                    Triple-bind Any _ _
                      (delete_counted-Keeps _ _ pod (some 1) ps.0
                        (refl, g, t, e, shown.0, rw (← shown.1) over))
                      (λ es _. Triple-pure _ tt)))))
          (λ r _.
            Triple-bind Any _ _ (terminate_pods-Keeps r.0 pods g ps.1) (λ more _. Triple-pure _ tt))

    with_candidates-Keeps :
        {A : Type 0} (none_done : A) (f : List Pod → M (A × List Error))
        → ((pods : List Pod) → All (IsSubject node) pods → Keeps env nn (f pods) Any)
        → Keeps env nn (with_candidates env fd.meta.name node ns_selector query none_done f) Any
    unfolding with_candidates
    with_candidates-Keeps none_done f k =
        Triple-bind _ _ _ (Triple-attempt _ (pods-IsCandidate env nn ns_selector query node))
          (λ r q.
            Triple-result (All (IsSubject node)) r _ _ q (λ e. Triple-pure _ tt)
              (λ pods ps. Triple-bind Any _ _ (k pods ps) (λ d _. Triple-pure _ tt)))

  pub force_drain_nodes-Keeps :
      (nodes : List Node)
      → is_none fd.spec.node_drain_grace_period ≡ false
      → All (IsDue env nn fd) nodes
      → Keeps env nn (force_drain_nodes env fd ns_selector query nodes) Any
  unfolding force_drain_nodes force_drain_node
  force_drain_nodes-Keeps [] g ds = Triple-pure _ tt
  force_drain_nodes-Keeps (node ∷ nodes) g ds =
      Triple-bind Any _ _
        (with_candidates-Keeps node ds.0 _ _ (λ pods ps. drain_pods-Keeps node ds.0 pods g ps))
        (λ r _.
          Triple-bind Any _ _ (force_drain_nodes-Keeps nodes g ds.1) (λ more _. Triple-pure _ tt))

  pub force_delete_on_nodes-Keeps :
      (next : Duration) (nodes : List Node)
      → is_none fd.spec.pod_force_delete_grace_period ≡ false
      → All (IsDue env nn fd) nodes
      → Keeps env nn (force_delete_on_nodes env fd ns_selector query next nodes) Any
  unfolding force_delete_on_nodes force_delete_pods_on_node
  force_delete_on_nodes-Keeps next [] g ds = Triple-pure _ tt
  force_delete_on_nodes-Keeps next (node ∷ nodes) g ds =
      Triple-bind Any _ _
        (with_candidates-Keeps node ds.0 _ _
          (λ pods ps. terminate_pods-Keeps node ds.0 (pos 0) pods g ps))
        (λ r _.
          Triple-bind Any _ _
            (force_delete_on_nodes-Keeps (next_force_delete next r.0 r.1) nodes g ds.1)
            (λ more _. Triple-pure _ tt))
