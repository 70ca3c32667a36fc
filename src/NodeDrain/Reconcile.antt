-- ===== src/NodeDrain/Reconcile.antt =====
-- `Reconcile` of the node force drain controller, and the mapper from nodes.
use openshift_upgrade_contro.Prelude.{
  String, ◌<>◌, str_eq, Bool, true, false, ◌||◌, not, Option, none, some, List, [], ◌∷◌, ◌++◌, keep,
  is_empty, if◌then◌else◌,
}
use openshift_upgrade_contro.Prelude.Int.{pos}
use openshift_upgrade_contro.Api.Time.{Duration, zero_time}
use openshift_upgrade_contro.Api.Duration.{is_positive}
use openshift_upgrade_contro.Api.Meta.{NamespacedName, LabelSelector}
use openshift_upgrade_contro.Api.Upstream.{Node}
use openshift_upgrade_contro.Api.Drain.{NodeForceDrain}
use openshift_upgrade_contro.Exec.{
  Error, failure, wrap, M, ◌>>=◌, ◌>>◌, pure, raise, attempt, context, send, get_force_drain,
  list_force_drains, list_nodes, update_force_drain_status, option_case, result_case, combine,
  return_errors, match_option, match_result, when◌then◌else◌,
}
use openshift_upgrade_contro.UpgradeJob.Status.{Outcome, no_requeue}
use openshift_upgrade_contro.UpgradeJob.Track.{is_not_found}
use openshift_upgrade_contro.NodeDrain.{Env, Selector, Query}
use openshift_upgrade_contro.NodeDrain.Observe.{is_draining, observe_drains}
use openshift_upgrade_contro.NodeDrain.Grace.{is_none, sooner, check_nodes, requeue_after}
use openshift_upgrade_contro.NodeDrain.Delete.{force_drain_node, force_delete_pods_on_node}

abbrev pub empty_selector : LabelSelector
empty_selector = record { match_labels = []; match_expressions = [] }

-- The zero value, which stands in for an object that is not found.
abbrev pub empty_drain : NodeForceDrain
empty_drain = record {
  meta = record {
    name = "";
    namespace = "";
    uid = "";
    labels = [];
    annotations = [];
    creation_timestamp = zero_time;
    deletion_timestamp = none;
    finalizers = [];
    controller = none;
  };
  spec = record {
    node_selector = empty_selector;
    namespace_selector = empty_selector;
    pod_jq_selector = "";
    node_drain_grace_period = pos 0;
    pod_force_delete_grace_period = pos 0;
  };
  last_observed_node_drain = [];
}

-- An error of a node, with the words of the loop before it.
unfoldable pub node_errors : String → Node → Option Error → List Error
node_errors what node e = option_case e [] (λ e'. wrap (what <> node.meta.name) e' ∷ [])

abbrev pub known_errors : Option Error → List Error
known_errors e = option_case e [] (λ e'. e' ∷ [])

-- `if err != nil { … } else if t > 0 && (next == 0 || t < next) { next = t }`
unfoldable pub next_force_delete : Duration → Duration → Option Error → Duration
unfolding sooner
next_force_delete next t none = if is_positive t then sooner next t else next
next_force_delete next t (some e) = next

module _ (env : Env) where
  module _ (fd : NodeForceDrain) (ns_selector : Selector) (query : Option Query) where
    unfoldable pub force_drain_nodes : List Node → M (Bool × List Error)
    force_drain_nodes [] = pure (false, [])
    force_drain_nodes (node ∷ nodes) = do
      r ← force_drain_node env fd.meta.name node ns_selector query
      more ← force_drain_nodes nodes
      pure (r.0 || more.0, node_errors "failed to force drain node " node r.1 ++ more.1)

    unfoldable pub force_delete_on_nodes : Duration → List Node → M (Duration × List Error)
    force_delete_on_nodes next [] = pure (next, [])
    force_delete_on_nodes next (node ∷ nodes) = do
      r ←
          force_delete_pods_on_node env fd.meta.name node ns_selector query
            fd.spec.pod_force_delete_grace_period
      more ← force_delete_on_nodes (next_force_delete next r.0 r.1) nodes
      pure (more.0, node_errors "failed to force delete pods on node " node r.1 ++ more.1)

    -- From the search for nodes out of their grace period to the end.
    unfoldable pub drain_nodes : List Node → M Outcome
    drain_nodes draining = do
      t ← check_nodes env fd (record { until_next = pos 0; out_of_grace = [] }) draining
      drained ←
          when not (is_none fd.spec.node_drain_grace_period)
          then force_drain_nodes t.out_of_grace
          else pure (false, [])
      deleted ←
          when not (is_none fd.spec.pod_force_delete_grace_period)
          then force_delete_on_nodes (pos 0) t.out_of_grace
          else pure (pos 0, [])
      return_errors (known_errors (combine drained.1) ++ known_errors (combine deleted.1))
      pure (record {
        requeue = false;
        requeue_after =
            requeue_after env t.until_next drained.0 fd.spec.pod_force_delete_grace_period deleted.0
              (not (is_empty draining));
      })

  -- From the observation of new drains; `r.0` is the object as the observation leaves it.
  unfoldable pub observe_and_drain :
      NodeForceDrain → Selector → Option Query → List Node → M Outcome
  observe_and_drain fd ns_selector query draining = do
    r ← observe_drains env fd false draining
    when r.1
        then (do
          context "failed to update LastObservedNodeDrain status"
              (send env.server (update_force_drain_status r.0))
          pure no_requeue)
        else drain_nodes r.0 ns_selector query draining

  -- The parts of the specification that are parsed, and the nodes.
  unfoldable pub reconcile_drain : NodeForceDrain → M Outcome
  reconcile_drain fd =
      match_option (env.as_selector fd.spec.node_selector)
        (raise (failure "failed to parse NodeSelector"))
        (λ _. do
          nodes ←
              context "failed to list nodes" (send env.server (list_nodes fd.spec.node_selector))
          match_option (env.as_selector fd.spec.namespace_selector)
              (raise (failure "failed to parse NamespaceSelector"))
              (λ ns_selector.
                when str_eq fd.spec.pod_jq_selector ""
                then observe_and_drain fd ns_selector none (keep is_draining nodes)
                else match_option (env.parse_query fd.spec.pod_jq_selector)
                    (raise (failure "failed to parse PodJQSelector"))
                    (λ q. observe_and_drain fd ns_selector (some q) (keep is_draining nodes))))

  unfoldable pub reconcile : NamespacedName → M Outcome
  reconcile nn = do
    r ← attempt (send env.server (get_force_drain nn))
    fd ←
        match_result r
          (λ e.
            when is_not_found e
            then pure empty_drain
            else raise (wrap "failed to get NodeForceDrain" e))
          pure
    match_option fd.meta.deletion_timestamp (reconcile_drain fd) (λ _. pure no_requeue)

  -- The requests that an event on a node enqueues.
  unfoldable pub selects_node : Node → NodeForceDrain → Bool
  selects_node node fd =
      option_case (env.as_selector fd.spec.node_selector) false
        (λ (s : Selector). s.matches node.meta.labels)

  unfoldable pub request_of : NodeForceDrain → NamespacedName
  request_of fd = record { namespace = fd.meta.namespace; name = fd.meta.name }

  unfoldable pub node_to_node_force_drain_mapper : Node → M (List NamespacedName)
  node_to_node_force_drain_mapper node = do
    r ← attempt (send env.server list_force_drains)
    pure (
        result_case r (λ _. [])
          (λ fds. openshift_upgrade_contro.Prelude.map request_of (keep (selects_node node) fds)))
