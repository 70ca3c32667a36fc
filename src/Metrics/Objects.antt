-- ===== src/Metrics/Objects.antt =====
-- The methods `Describe` and `Collect` of controllers/clusterversion_collector.go,
-- controllers/node_collector.go and controllers/machine_collector.go.
use openshift_upgrade_contro.Prelude.{String, str_eq, Option, List, [], ◌∷◌, map, if◌then◌else◌}
use openshift_upgrade_contro.Prelude.Int.{pos}
use openshift_upgrade_contro.Api.Meta.{NamespacedName, OwnerReference}
use openshift_upgrade_contro.Api.Upstream.{Node, Machine, Capabilities}
use openshift_upgrade_contro.Api.Managed.{ClusterVersionSpec, StatusOverlay}
use openshift_upgrade_contro.Exec.{
  wrap, M, ◌>>=◌, pure, attempt, send, list_all_nodes, list_machines, get_managed_version,
  option_case, result_case,
}
use openshift_upgrade_contro.UpgradeConfig.Select.{unix}
use openshift_upgrade_contro.NodeDrain.Observe.{is_draining}
use openshift_upgrade_contro.Metrics.{
  Env, Desc, node_draining_desc, cv_info_desc, cv_overlay_desc, machine_info_desc, whole, Metric,
  gauge, invalid_metric, bool_to_float,
}
use openshift_upgrade_contro.Metrics.Collect.{all_invalid}

abbrev pub describe_cluster_version : List Desc
describe_cluster_version = cv_info_desc ∷ cv_overlay_desc ∷ []

abbrev pub describe_nodes : List Desc
describe_nodes = node_draining_desc ∷ []

abbrev pub describe_machines : List Desc
describe_machines = machine_info_desc ∷ []

abbrev pub capability_set : Option Capabilities → String
capability_set c = option_case c "" (λ (x : Capabilities). x.baseline_capability_set)

unfoldable pub extract_cv_fields : ClusterVersionSpec → List String
extract_cv_fields cvs =
    capability_set cvs.settings.capabilities
    ∷ cvs.settings.channel
    ∷ cvs.settings.cluster_id
    ∷ cvs.settings.upstream
    ∷ []

abbrev pub no_overlays : List StatusOverlay
no_overlays = []

abbrev pub machine_set_name : Machine → String
machine_set_name machine =
    option_case machine.meta.controller ""
      (λ (ref : OwnerReference). if str_eq ref.kind "MachineSet" then ref.name else "")

-- ptr.Deref with an empty text
abbrev pub deref_text : Option String → String
deref_text t = option_case t "" (λ x. x)

unfoldable pub machine_metric : Machine → Metric
machine_metric machine = gauge machine_info_desc (whole (pos 1)) (
    machine.meta.name
    ∷ machine_set_name machine
    ∷ deref_text machine.node_ref
    ∷ deref_text machine.provider_id
    ∷ deref_text machine.phase
    ∷ [])

module _ (env : Env) where
  unfoldable pub overlay_metric : String → StatusOverlay → Metric
  unfolding unix extract_cv_fields
  overlay_metric name o =
      gauge cv_overlay_desc (whole (unix o.from))
        (name ∷ env.format_time o.from ∷ extract_cv_fields o.preview)

  -- Collect of the ClusterVersionCollector
  unfoldable pub collect_cluster_version : M (List Metric)
  collect_cluster_version = do
    let key : NamespacedName = record { namespace = env.managed_namespace; name = env.managed_name }
    r ← attempt (send env.server (get_managed_version key))
    pure (
        result_case r
          (λ e.
            all_invalid (cv_info_desc ∷ cv_overlay_desc ∷ [])
              (wrap "failed to get managedupgrade.ClusterVersion" e))
          (λ cv.
            gauge cv_info_desc (whole (pos 1)) (cv.meta.name ∷ extract_cv_fields cv.status.current)
            ∷ map (overlay_metric cv.meta.name)
                (option_case cv.status.overlays no_overlays (λ os. os))))

  -- Collect of the NodeCollector
  unfoldable pub collect_nodes : M (List Metric)
  collect_nodes = do
    r ← attempt (send env.server list_all_nodes)
    pure (
        result_case r (λ e. invalid_metric node_draining_desc (wrap "failed list to nodes" e) ∷ [])
          (map (λ (node : Node).
            gauge node_draining_desc (bool_to_float (is_draining node)) (node.meta.name ∷ []))))

  -- Collect of the MachineCollector
  unfoldable pub collect_machines : M (List Metric)
  unfolding machine_metric
  collect_machines = do
    r ← attempt (send env.server (list_machines env.machine_namespace))
    pure (
        result_case r
          (λ e. invalid_metric machine_info_desc (wrap "failed list to machines" e) ∷ [])
          (map machine_metric))
