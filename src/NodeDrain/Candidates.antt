-- ===== src/NodeDrain/Candidates.antt =====
-- `getDeletionCandidatePodsForNode` and the tests that it makes.

pub mod Matches
pub mod Laws
use openshift_upgrade_contro.Prelude.{
  String, ◌<>◌, str_eq, Bool, true, false, ◌&&◌, not, Option, none, some, List, [], ◌∷◌,
  if◌then◌else◌,
}
use openshift_upgrade_contro.Api.Meta.{OwnerReference, NamespacedName}
use openshift_upgrade_contro.Api.Upstream.{Node, Pod}
use openshift_upgrade_contro.Exec.{
  M, ◌>>=◌, pure, raise, lift, attempt, context, send, wrap, list_pods, get_namespace,
  get_daemon_set, option_case, match_option, match_result, when◌then◌else◌,
}
use openshift_upgrade_contro.UpgradeJob.Track.{is_not_found}
use openshift_upgrade_contro.NodeDrain.{Env, Selector, Query, run_query, any_match}

-- The controller is the node itself.
unfoldable pub pod_is_static : Pod → Bool
pod_is_static pod =
    option_case pod.meta.controller false
      (λ (ref : OwnerReference). str_eq ref.api_version "v1" && str_eq ref.kind "Node")

abbrev pub is_daemon_set : OwnerReference → Bool
is_daemon_set ref = str_eq ref.api_version "apps/v1" && str_eq ref.kind "DaemonSet"

abbrev pub controller_name : Pod → OwnerReference → NamespacedName
controller_name pod ref = record { namespace = pod.meta.namespace; name = ref.name }

module _ (env : Env) where
  unfoldable pub pod_is_in_matching_namespace : Selector → Pod → M Bool
  pod_is_in_matching_namespace ns_selector pod = when ns_selector.is_empty then pure true else (do
    ns ←
        context ("failed to get namespace for pod " <> pod.meta.name)
          (send env.server (get_namespace pod.meta.namespace))
    pure (ns_selector.matches ns.labels))

  unfoldable pub pod_jq_query_matches : Query → Pod → M Bool
  pod_jq_query_matches query pod = do
    bytes ← context "failed to convert pod to raw JSON (marshal)" (lift (env.marshal_pod pod))
    raw ← context "failed to convert pod to raw JSON (unmarshal)" (lift (env.unmarshal bytes))
    outputs ← run_query query raw
    pure (any_match false outputs)

  unfoldable pub pod_is_controlled_by_existing_daemon_set : Pod → M Bool
  pod_is_controlled_by_existing_daemon_set pod =
      match_option pod.meta.controller (pure false) (λ ref.
        when not (is_daemon_set ref) then pure false else (do
          r ← attempt (send env.server (get_daemon_set (controller_name pod ref)))
          match_result r
              (λ e.
                when is_not_found e
                then pure false
                else raise (wrap ("failed to get DaemonSet " <> ref.name) e))
              (λ _. pure true)))

  -- A test whose error counts as no.
  unfoldable pub passes : M Bool → M Bool
  passes m = do r ← attempt m; match_result r (λ _. pure false) pure

  -- The body of the loop: whether the pod is kept.
  unfoldable pub is_candidate : Selector → Option Query → Pod → M Bool
  is_candidate ns_selector query pod = do
    in_namespace ← passes (pod_is_in_matching_namespace ns_selector pod)
    when not in_namespace then pure false else (do
      selected ← match_option query (pure true) (λ q. passes (pod_jq_query_matches q pod))
      when not selected then pure false else (do
        unmanaged ←
            passes (do managed ← pod_is_controlled_by_existing_daemon_set pod; pure (not managed))
        pure (unmanaged && not (pod_is_static pod))))

  unfoldable pub filter_pods : Selector → Option Query → List Pod → M (List Pod)
  filter_pods ns_selector query [] = pure []
  filter_pods ns_selector query (pod ∷ pods) = do
    ok_pod ← is_candidate ns_selector query pod
    rest ← filter_pods ns_selector query pods
    pure (if ok_pod then pod ∷ rest else rest)

  unfoldable pub get_deletion_candidate_pods_for_node :
      Selector → Option Query → Node → M (List Pod)
  get_deletion_candidate_pods_for_node ns_selector query node = do
    pods ←
        context ("failed to list pods on node " <> node.meta.name)
          (send env.server (list_pods node.meta.name))
    filter_pods ns_selector query pods
