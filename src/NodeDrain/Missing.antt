-- ===== src/NodeDrain/Missing.antt =====
-- What a reconciliation does for an object that is gone.
use openshift_upgrade_contro.Prelude.{◌≡◌, refl, none, some, List, [], ◌∷◌, keep, inl, inr}
use openshift_upgrade_contro.Api.Meta.{NamespacedName}
use openshift_upgrade_contro.Api.Upstream.{Node}
use openshift_upgrade_contro.Exec.{
  ok, err, not_found, History, Result-cases, ◌>>=◌, pure, attempt, context, send, get_force_drain,
  list_nodes, read_clock, update_force_drain_status, match_option, match_result, when◌then◌else◌,
}
use openshift_upgrade_contro.NodeDrain.{Env, Selector}
use openshift_upgrade_contro.NodeDrain.Observe.{is_draining, find_last_observed_node_drain}
use openshift_upgrade_contro.Api.Drain.{NodeForceDrain}
use openshift_upgrade_contro.NodeDrain.Observe.Laws.{
  is_observed, first_unobserved, record_drain, with_drains, observe_drains-eq,
}
use openshift_upgrade_contro.NodeDrain.Reconcile.{
  empty_drain, empty_selector, observe_and_drain, reconcile_drain, reconcile,
}

-- An unobserved node is found at once in an empty status.
first_unobserved-nil :
    (node : Node) (rest : List Node) → first_unobserved [] (node ∷ rest) ≡ some node
unfolding first_unobserved is_observed find_last_observed_node_drain
first_unobserved-nil node rest = refl

module _ (env : Env) (nn : NamespacedName) (h : History) where
  abbrev after_list : History
  after_list = list_nodes empty_selector ∷ get_force_drain nn ∷ h

  -- The status of an object without a name, with the drain of a node.
  abbrev pub nameless : Node → NodeForceDrain
  nameless node = with_drains empty_drain (record_drain [] node (env.clock after_list))

  observe_and_drain_missing :
      (s : Selector) (node : Node) (rest : List Node)
      → (observe_and_drain env empty_drain s none (node ∷ rest) after_list).1
        ≡ update_force_drain_status (nameless node) ∷ read_clock ∷ after_list
  unfolding observe_and_drain ◌>>=◌ send when◌then◌else◌ pure context
  observe_and_drain_missing s node rest =
      rw (observe_drains-eq env empty_drain (node ∷ rest) after_list) (
        rw (first_unobserved-nil node rest)
          (elim (Result-cases
            (env.server (read_clock ∷ after_list) (update_force_drain_status (nameless node)))) [
              | inl (e, q) ↦ rw q refl
              | inr (a, q) ↦ rw q refl
            ]))

  -- When the object is gone, the reconciliation goes on with an empty one, whose selector takes every node:
  -- as soon as a node drains, it writes the status of an object without a name, with the first
  -- draining node in it, and ends.
  pub reconcile_missing :
      (s : Selector) (nodes : List Node) (node : Node) (rest : List Node)
      → env.server h (get_force_drain nn) ≡ err not_found
      → env.as_selector empty_selector ≡ some s
      → env.server (get_force_drain nn ∷ h) (list_nodes empty_selector) ≡ ok nodes
      → keep is_draining nodes ≡ node ∷ rest
      → ((nameless node).meta.name ≡ "")
        × ((reconcile env nn h).1
            ≡ update_force_drain_status (nameless node) ∷ read_clock ∷ after_list)
  unfolding reconcile reconcile_drain ◌>>=◌ attempt send match_result match_option when◌then◌else◌
      pure context
  reconcile_missing s nodes node rest gone sel listed draining =
      (refl, rw gone (rw sel (rw listed (rw draining (observe_and_drain_missing s node rest)))))
