-- ===== src/NodeDrain/Allowed.antt =====
-- When a pod may be deleted, in terms of what the server answered and the clock showed.
use mathlib.Core.List.{Memᴰ}
use openshift_upgrade_contro.Prelude.{
  ℕ, String, str_eq, ◌≡◌, ◌⊎◌, Bool, true, false, Option, none, some, List, ◌∷◌,
}
use openshift_upgrade_contro.Json.{Json}
use openshift_upgrade_contro.Api.Time.{Time}
use openshift_upgrade_contro.Api.Duration.{is_positive}
use openshift_upgrade_contro.Api.Meta.{NamespacedName, ObjectMeta, OwnerReference}
use openshift_upgrade_contro.Api.Upstream.{Node, Pod}
use openshift_upgrade_contro.Api.Drain.{NodeForceDrain, ObservedNodeDrain}
use openshift_upgrade_contro.Exec.{
  ok, err, not_found, History, Request, get_force_drain, list_nodes, list_pods, get_namespace,
  get_daemon_set, delete_pod,
}
use openshift_upgrade_contro.NodeDrain.{Env, Selector, Query, Output, boolean, other}
use openshift_upgrade_contro.NodeDrain.Observe.{
  is_draining, drain_id, find_last_observed_node_drain,
}
use openshift_upgrade_contro.NodeDrain.Grace.{is_none, time_until_drain}
use openshift_upgrade_contro.NodeDrain.Candidates.{pod_is_static, is_daemon_set, controller_name}
use openshift_upgrade_contro.NodeDrain.Delete.{time_until_force_delete}

-- A query yields `true` before it halts or fails.
pub data YieldsTrue : List Output → Type 0 where
  now : (os : List Output) → YieldsTrue (boolean true ∷ os)
  after_boolean : (b : Bool) (os : List Output) → YieldsTrue os → YieldsTrue (boolean b ∷ os)
  after_other : (os : List Output) → YieldsTrue os → YieldsTrue (other ∷ os)

module _ (env : Env) where
  -- The server listed the pod on the node, and it passes every test.
  pub record IsListed (node : Node) (pod : Pod) : Type 0 where
    pub at : History
    pub pods : List Pod
    pub answer : env.server at (list_pods node.meta.name) ≡ ok pods
    pub member : Memᴰ pod pods

  abbrev pub InNamespace : Selector → Pod → Type 0
  InNamespace ns_selector pod =
      (ns_selector.is_empty ≡ true)
      ⊎ ((h : History) × (m : ObjectMeta) × (env.server h (get_namespace pod.meta.namespace) ≡ ok m)
          × (ns_selector.matches m.labels ≡ true))

  abbrev pub QuerySelects : Query → Pod → Type 0
  QuerySelects q pod =
      (h : History) × (bytes : String) × (raw : Json) × (env.marshal_pod pod ≡ ok bytes)
      × (env.unmarshal bytes ≡ ok raw)
      × YieldsTrue (q h raw)

  abbrev pub IsSelected : Option Query → Pod → Type 0
  IsSelected none pod = Unit
  IsSelected (some q) pod = QuerySelects q pod

  -- A controller that is a daemon set is gone.
  abbrev pub IsOrphaned : Pod → Type 0
  IsOrphaned pod =
      (ref : OwnerReference)
      → pod.meta.controller ≡ some ref
      → is_daemon_set ref ≡ true
      → (h : History) × (env.server h (get_daemon_set (controller_name pod ref)) ≡ err not_found)

  pub record IsCandidate (ns_selector : Selector) (query : Option Query) (pod : Pod) : Type 0 where
    pub in_namespace : InNamespace ns_selector pod
    pub selected : IsSelected query pod
    pub orphaned : IsOrphaned pod
    pub not_static : pod_is_static pod ≡ false

  -- The node is draining, its drain was observed, and its grace period is over.
  pub record IsDue (nn : NamespacedName) (drain : NodeForceDrain) (node : Node) : Type 0 where
    pub shown : (h : History) × (env.server h (get_force_drain nn) ≡ ok drain)
    pub listed :
        (h : History) × (nodes : List Node) × (env.server h (list_nodes drain.spec.node_selector)
          ≡ ok nodes)
        × Memᴰ node nodes
    pub draining : is_draining node ≡ true
    pub over :
        (ld : ObservedNodeDrain) × (find_last_observed_node_drain drain.last_observed_node_drain
            node.meta.name
          ≡ some ld)
        × (ld.last_applied_drain ≡ drain_id node)
        × (h : History) × (is_positive (time_until_drain drain.spec ld (env.clock h)) ≡ false)

  -- The namespace selector and the query of the drain.
  abbrev pub IsQuery : String → Option Query → Type 0
  IsQuery s none = str_eq s "" ≡ true
  IsQuery s (some q) = env.parse_query s ≡ some q

  pub record IsParsed (drain : NodeForceDrain) (ns_selector : Selector) (query : Option Query)
      : Type 0 where
    pub selector : env.as_selector drain.spec.namespace_selector ≡ some ns_selector
    pub query_of : IsQuery drain.spec.pod_jq_selector query

  -- A plain deletion is of a pod that is not being deleted. One with a grace period of one second is of a
  -- pod that is being deleted, and the grace period of the drain has passed since its deletion was asked
  -- for: the deletion timestamp lies the pod's own grace period after that, so the code takes that off
  -- again. The pod's own grace period may still be running.
  abbrev pub IsTimely : NodeForceDrain → Pod → Option ℕ → Type 0
  IsTimely drain pod none =
      (is_none drain.spec.node_drain_grace_period ≡ false) × (pod.meta.deletion_timestamp ≡ none)
  IsTimely drain pod (some s) =
      (s ≡ 1)
      × (is_none drain.spec.pod_force_delete_grace_period ≡ false)
      × (at : Time) × (pod.meta.deletion_timestamp ≡ some at)
      × (h : History) × (is_positive
            (time_until_force_delete drain.spec.pod_force_delete_grace_period pod at (env.clock h))
          ≡ false)

  pub record MayDelete (nn : NamespacedName) (pod : Pod) (grace : Option ℕ) : Type 0 where
    pub drain : NodeForceDrain
    pub node : Node
    pub due : IsDue nn drain node
    pub ns_selector : Selector
    pub query : Option Query
    pub parsed : IsParsed drain ns_selector query
    pub on_node : IsListed node pod
    pub candidate : IsCandidate ns_selector query pod
    pub timely : IsTimely drain pod grace

  -- A request that deletes a pod only if it may be deleted.
  abbrev pub IsAllowed : NamespacedName → Request → Type 0
  IsAllowed nn (delete_pod pod grace) = MayDelete nn pod grace
  IsAllowed nn _ = Unit
