-- ===== src/NodeDrain/Observe.antt =====
-- The status: when a drain of a node was first observed.
pub mod Laws
pub mod Rounds
use openshift_upgrade_contro.Prelude.{
  String, str_eq, Bool, true, false, not, Option, none, some, List, [], ◌∷◌, ◌++◌, find_first,
  if◌then◌else◌,
}
use openshift_upgrade_contro.Prelude.Dict.{read}
use openshift_upgrade_contro.Api.Time.{Time}
use openshift_upgrade_contro.Api.Upstream.{Node}
use openshift_upgrade_contro.Api.Drain.{NodeForceDrain, ObservedNodeDrain}
use openshift_upgrade_contro.Exec.{M, ◌>>=◌, pure, read_now, when◌then◌else◌, match_option}
use openshift_upgrade_contro.NodeDrain.{Env}

-- DesiredDrainerAnnotationKey
abbrev pub desired_drainer : String
desired_drainer = "machineconfiguration.openshift.io/desiredDrain"

-- LastAppliedDrainerAnnotationKey
abbrev pub last_applied_drainer : String
last_applied_drainer = "machineconfiguration.openshift.io/lastAppliedDrain"

-- node.Annotations[LastAppliedDrainerAnnotationKey]
abbrev pub drain_id : Node → String
drain_id node = read last_applied_drainer node.meta.annotations

unfoldable pub is_draining : Node → Bool
is_draining node = not (str_eq (read desired_drainer node.meta.annotations) (drain_id node))

unfoldable pub find_last_observed_node_drain :
    List ObservedNodeDrain → String → Option ObservedNodeDrain
find_last_observed_node_drain drains name =
    find_first (λ (o : ObservedNodeDrain). str_eq o.node_name name) drains

-- The first entry of the node gets the drain and its time.
unfoldable pub renew_observation :
    String → String → Time → List ObservedNodeDrain → List ObservedNodeDrain
renew_observation name id now [] = []
renew_observation name id now (o ∷ os) =
    if str_eq o.node_name name
    then record o { last_applied_drain = id; observed_time = now } ∷ os
    else o ∷ renew_observation name id now os

-- A new entry at the end.
unfoldable pub add_observation :
    String → String → Time → List ObservedNodeDrain → List ObservedNodeDrain
add_observation name id now os =
    os ++ (record { node_name = name; last_applied_drain = id; observed_time = now } ∷ [])

module _ (env : Env) where
  -- The object after the call, and whether it changed.
  unfoldable pub set_last_observed_node_drain :
      NodeForceDrain → String → String → M (NodeForceDrain × Bool)
  set_last_observed_node_drain fd name id =
      match_option (find_last_observed_node_drain fd.last_observed_node_drain name)
        (do
          now ← read_now env.clock
          pure (
            record fd {
              last_observed_node_drain = add_observation name id now fd.last_observed_node_drain;
            },
            true,
          ))
        (λ o. when str_eq o.last_applied_drain id then pure (fd, false) else (do
          now ← read_now env.clock
          pure (
            record fd {
              last_observed_node_drain = renew_observation name id now fd.last_observed_node_drain;
            },
            true,
          )))

  -- The loop with `statusChanged`. Once it is set, `||` calls the method for no further node.
  unfoldable pub observe_drains : NodeForceDrain → Bool → List Node → M (NodeForceDrain × Bool)
  observe_drains fd changed [] = pure (fd, changed)
  observe_drains fd changed (node ∷ nodes) = do
    r ←
        when changed
        then pure (fd, true)
        else set_last_observed_node_drain fd node.meta.name (drain_id node)
    observe_drains r.0 r.1 nodes
