-- ===== src/Tests/Others.antt =====
-- The theorems on suspension windows, the webhook and the metrics at concrete inputs.
use mathlib.Core.List.{Memᴰ}
use openshift_upgrade_contro.Prelude.{
  ◌≡◌, ◌↔◌, true, false, none, some, List, [], ◌∷◌, All, if◌then◌else◌,
}
use openshift_upgrade_contro.Prelude.Int.{pos}
use openshift_upgrade_contro.Api.Meta.{NamespacedName}
use openshift_upgrade_contro.Api.Upstream.{MachineConfigPool}
use openshift_upgrade_contro.Api.Hook.{UpgradeJobHook, start, no_claim}
use openshift_upgrade_contro.Api.Window.{UpgradeSuspensionWindow}
use openshift_upgrade_contro.ClusterVersion.{is_version_upgrade_completed}
use openshift_upgrade_contro.Exec.{
  ok, err, invalid, Server, get_window, list_selected_jobs, dry_run_job, list_all_pools,
  list_all_upgrade_jobs, list_all_hooks, list_all_nodes, list_machines,
}
use openshift_upgrade_contro.HealthCheck.Pools.{IsSettled}
use openshift_upgrade_contro.WindowStatus
use openshift_upgrade_contro.WindowStatus.Laws.{WritesStatus, reconcile-WritesStatus}
use openshift_upgrade_contro.HookWebhook
use openshift_upgrade_contro.HookWebhook.{
  template_job, validate_create, validate_update, validate_delete,
}
use openshift_upgrade_contro.HookWebhook.Laws.{answer, verdict, validate_all}
use openshift_upgrade_contro.Metrics
use openshift_upgrade_contro.Metrics.Jobs.{job_has_matching_disruptive_hook}
use openshift_upgrade_contro.Metrics.Collect.{
  is_upgrading, collect_information, describe_information,
}
use openshift_upgrade_contro.Metrics.Objects.{
  collect_cluster_version, collect_nodes, collect_machines, describe_cluster_version,
  describe_nodes, describe_machines,
}
use openshift_upgrade_contro.Metrics.Described.{IsDescribed, collect-IsDescribed}
use openshift_upgrade_contro.Exec.Triple.{Holds}
use openshift_upgrade_contro.Metrics.Laws.{
  IsDisruptive, is_upgrading_iff, job_has_matching_disruptive_hook_iff,
}
use openshift_upgrade_contro.Tests.Fixtures.{
  server, apimeta, meta_of, any_selector, job_of, upgrade, cluster_version,
}

abbrev window : UpgradeSuspensionWindow
window = record {
  meta = meta_of "appuio" "holidays";
  start = pos 5;
  end = pos 20;
  reason = "";
  config_selector = some any_selector;
  job_selector = some any_selector;
  matching_configs = [];
  matching_jobs = [];
}

abbrev window_server : Server
window_server h (get_window _) = ok window
window_server h (list_selected_jobs _) = ok (job_of upgrade ∷ [])
window_server h r = server h r

abbrev window_env : WindowStatus.Env
window_env = record { server = window_server; can_parse = λ s. true }

abbrev holidays : NamespacedName
holidays = record { namespace = "appuio"; name = "holidays" }

reconcile-WritesStatus_example :
    All (WritesStatus window_env holidays) (WindowStatus.reconcile window_env holidays []).1
reconcile-WritesStatus_example = reconcile-WritesStatus window_env holidays [] tt

abbrev hook : UpgradeJobHook
hook = record {
  meta = meta_of "appuio" "notify";
  spec = record {
    events = start ∷ [];
    run = "Next";
    failure_policy = "";
    disruptive = true;
    pod_failure_policy_skips_upgrade = false;
    selector = any_selector;
    template = record { labels = []; annotations = []; init_containers = []; containers = [] };
  };
  claimed_by = no_claim;
}

-- A job without containers is refused.
abbrev strict_server : Server
strict_server h (dry_run_job _ _) = err (
    invalid "invalid" (
      record { type = "FieldValueRequired"; message = "Required"; field = "spec.containers" } ∷ []))
strict_server h r = server h r

abbrev webhook_env : HookWebhook.Env
webhook_env = record { server = strict_server; deep_equal = λ s t. false; error_text = λ e. "" }

validate_all_example :
    (validate_create webhook_env hook [] ≡ (
      verdict webhook_env hook [] (answer webhook_env hook []),
      dry_run_job hook.meta.name (template_job hook) ∷ [],
    ))
    × (validate_update webhook_env hook hook [] ≡ (
        if false then (ok tt, []) else (
          verdict webhook_env hook [] (answer webhook_env hook []),
          dry_run_job hook.meta.name (template_job hook) ∷ [],
        )))
    × (validate_delete webhook_env hook [] ≡ (ok tt, []))
validate_all_example = validate_all webhook_env hook [] hook

abbrev pools : List MachineConfigPool
pools =
    record {
      meta = meta_of "" "worker";
      paused = true;
      machine_count = 3;
      updated_machine_count = 1;
    }
    ∷ []

is_upgrading_iff_example :
    (is_upgrading pools cluster_version ≡ false)
    ↔ ((is_version_upgrade_completed cluster_version ≡ true) × All (IsSettled false) pools)
is_upgrading_iff_example = is_upgrading_iff pools cluster_version

-- There are pools, a job with a hook, a node and a machine.
abbrev metrics_server : Server
metrics_server h list_all_pools = ok pools
metrics_server h list_all_upgrade_jobs = ok (job_of upgrade ∷ [])
metrics_server h list_all_hooks = ok (hook ∷ [])
metrics_server h list_all_nodes = ok (record { meta = meta_of "" "node" } ∷ [])
metrics_server h (list_machines namespace) = ok (
    record {
      meta = meta_of namespace "machine";
      node_ref = some "node";
      provider_id = none;
      phase = some "Running";
    }
    ∷ [])
metrics_server h r = server h r

abbrev metrics_env : Metrics.Env
metrics_env = record {
  server = metrics_server;
  upstream_name = "version";
  managed_name = "version";
  managed_namespace = "appuio";
  machine_namespace = "openshift-machine-api";
  apimeta = apimeta;
  as_selector = λ s. some (λ d. true);
  format_time = λ t. "";
}

job_has_matching_disruptive_hook_iff_example :
    (job_has_matching_disruptive_hook metrics_env (job_of upgrade) (hook ∷ []) ≡ true)
    ↔ ((h : UpgradeJobHook) × Memᴰ h (hook ∷ []) × IsDisruptive metrics_env (job_of upgrade) h)
job_has_matching_disruptive_hook_iff_example =
    job_has_matching_disruptive_hook_iff metrics_env (job_of upgrade) (hook ∷ [])

collect-IsDescribed_example :
    Holds (All (IsDescribed describe_information)) (collect_information metrics_env []).0
    × Holds (All (IsDescribed describe_cluster_version)) (collect_cluster_version metrics_env []).0
    × Holds (All (IsDescribed describe_nodes)) (collect_nodes metrics_env []).0
    × Holds (All (IsDescribed describe_machines)) (collect_machines metrics_env []).0
collect-IsDescribed_example = collect-IsDescribed metrics_env []
