-- ===== src/Tests/Drains.antt =====
-- The theorems on the node force drain controller, at a cluster with two draining nodes.
use openshift_upgrade_contro.Prelude.{
  ◌≡◌, refl, ◌↔◌, String, true, false, none, some, List, [], ◌∷◌, All, arith, keep,
}
use openshift_upgrade_contro.Prelude.Int.{pos, ◌<ℤ◌, ◌+ℤ◌}
use openshift_upgrade_contro.Prelude.Dict.{read}
use openshift_upgrade_contro.Json.{null}
use openshift_upgrade_contro.Api.Meta.{NamespacedName}
use openshift_upgrade_contro.Api.Duration.{is_positive}
use openshift_upgrade_contro.Api.Upstream.{Node, Pod}
use openshift_upgrade_contro.Api.Drain.{NodeForceDrain, ObservedNodeDrain}
use openshift_upgrade_contro.Exec.{
  ok, err, not_found, Server, get_force_drain, list_nodes, list_pods, update_force_drain_status,
  read_clock,
}
use openshift_upgrade_contro.Exec.Triple.{Holds}
use openshift_upgrade_contro.NodeDrain.{Env, Selector, boolean}
use openshift_upgrade_contro.NodeDrain.Observe.{
  desired_drainer, last_applied_drainer, is_draining, observe_drains, find_last_observed_node_drain,
}
use openshift_upgrade_contro.Prelude.Dict.{read}
use openshift_upgrade_contro.NodeDrain.Observe.Rounds.{
  IsRecorded, after_rounds, observe_drains_ends,
}
use openshift_upgrade_contro.NodeDrain.Grace.{time_until_drain, requeue_after}
use openshift_upgrade_contro.NodeDrain.Grace.Laws.{IsSoonest, timeouts_of, requeue_after-IsSoonest}
use openshift_upgrade_contro.NodeDrain.Requeue.{
  IsWithin, observe_and_drain-IsWithin, time_until_drain-is_positive,
}
use openshift_upgrade_contro.NodeDrain.Reconcile.{empty_selector, observe_and_drain, reconcile}
use openshift_upgrade_contro.NodeDrain.Allowed.{IsAllowed}
use openshift_upgrade_contro.NodeDrain.Safety.{reconcile-IsAllowed}
use openshift_upgrade_contro.NodeDrain.Missing.{nameless, reconcile_missing}
use openshift_upgrade_contro.Tests.Fixtures.{server, meta_of, any_selector}

abbrev node_of : String → Node
node_of name = record {
  meta = record (meta_of "" name) {
    annotations = (desired_drainer, "drain-2") ∷ (last_applied_drainer, "uncordon-1") ∷ [];
  };
}

abbrev nodes : List Node
nodes = node_of "worker-1" ∷ node_of "worker-2" ∷ []

abbrev observation_of : String → ObservedNodeDrain
observation_of name = record {
  node_name = name;
  last_applied_drain = "uncordon-1";
  observed_time = pos 10;
}

abbrev drain : NodeForceDrain
drain = record {
  meta = meta_of "appuio" "drain";
  spec = record {
    node_selector = any_selector;
    namespace_selector = any_selector;
    pod_jq_selector = "";
    node_drain_grace_period = pos 30;
    pod_force_delete_grace_period = pos 5;
  };
  last_observed_node_drain = observation_of "worker-1" ∷ observation_of "worker-2" ∷ [];
}

abbrev unobserved : NodeForceDrain
unobserved = record drain { last_observed_node_drain = [] }

-- One pod that is not being deleted, and one whose grace period is over.
abbrev pods : List Pod
pods =
    record { meta = meta_of "app" "web"; deletion_grace_period_seconds = none; content = null }
    ∷ record {
      meta = record (meta_of "app" "stuck") { deletion_timestamp = some (pos 20) };
      deletion_grace_period_seconds = some (pos 0);
      content = null;
    }
    ∷ []

abbrev drain_server : Server
drain_server h (get_force_drain _) = ok drain
drain_server h (list_nodes _) = ok nodes
drain_server h (list_pods _) = ok pods
drain_server h r = server h r

abbrev every : Selector
every = record { matches = λ d. true; is_empty = true }

abbrev env_of : Server → Env
env_of s = record {
  server = s;
  clock = λ h. pos 50;
  max_reconcile_interval = pos 60;
  as_selector = λ l. some every;
  parse_query = λ q. some (λ h j. boolean true ∷ []);
  marshal_pod = λ p. ok "{}";
  unmarshal = λ s. ok null;
}

abbrev drain_env : Env
drain_env = env_of drain_server

-- The object is gone, but the nodes drain.
abbrev gone_server : Server
gone_server h (get_force_drain _) = err not_found
gone_server h (list_nodes _) = ok nodes
gone_server h r = server h r

abbrev key : NamespacedName
key = record { namespace = "appuio"; name = "drain" }

reconcile-IsAllowed_example : All (IsAllowed drain_env key) (reconcile drain_env key []).1
reconcile-IsAllowed_example = reconcile-IsAllowed drain_env key [] tt

abbrev rounds : NodeForceDrain
rounds = after_rounds drain_env nodes unobserved ([] ∷ (read_clock ∷ []) ∷ [])

observe_drains_ends_example :
    All (IsRecorded drain_env nodes rounds) nodes
    × (observe_drains drain_env rounds false nodes [] ≡ (ok (rounds, false), []))
observe_drains_ends_example =
    observe_drains_ends drain_env nodes unobserved ([] ∷ (read_clock ∷ []) ∷ [])
      (((refl, refl), tt), (tt, tt)) (omega arith) []

drain-IsRecorded : All (IsRecorded drain_env nodes drain) nodes
unfolding find_last_observed_node_drain read
drain-IsRecorded =
    ((observation_of "worker-1", refl, refl), ((observation_of "worker-2", refl, refl), tt))

observe_and_drain-IsWithin_example :
    Holds
      (IsWithin drain_env drain every none)
      (observe_and_drain drain_env drain every none nodes []).0
observe_and_drain-IsWithin_example =
    observe_and_drain-IsWithin drain_env drain every none (node_of "worker-1")
      (node_of "worker-2" ∷ []) [] drain-IsRecorded (omega arith) (omega arith)

requeue_after-IsSoonest_example :
    IsSoonest
      (requeue_after drain_env (pos 20) true (pos 5) (pos 7) true)
      (timeouts_of drain_env (pos 20) true (pos 5) (pos 7) true)
requeue_after-IsSoonest_example =
    requeue_after-IsSoonest drain_env (pos 20) (pos 5) (pos 7) true true (omega arith) (omega arith)

time_until_drain-is_positive_example :
    (is_positive (time_until_drain drain.spec (observation_of "worker-1") (pos 50)) ≡ true)
    ↔ (pos 50 <ℤ pos 10 +ℤ pos 30)
time_until_drain-is_positive_example =
    time_until_drain-is_positive drain.spec (observation_of "worker-1") (pos 50) (omega arith)
      (record { above = omega arith; below = omega arith }) (omega arith)

draining_nodes : keep is_draining nodes ≡ node_of "worker-1" ∷ node_of "worker-2" ∷ []
unfolding is_draining read
draining_nodes = refl

reconcile_missing_example :
    ((nameless (env_of gone_server) key [] (node_of "worker-1")).meta.name ≡ "")
    × ((reconcile (env_of gone_server) key []).1
        ≡ update_force_drain_status (nameless (env_of gone_server) key [] (node_of "worker-1"))
          ∷ read_clock
          ∷ list_nodes empty_selector
          ∷ get_force_drain key
          ∷ [])
reconcile_missing_example =
    reconcile_missing (env_of gone_server) key [] every nodes (node_of "worker-1")
      (node_of "worker-2" ∷ []) refl refl refl draining_nodes
