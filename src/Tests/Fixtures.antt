-- ===== src/Tests/Fixtures.antt =====
-- A cluster with one job that has started, and libraries that keep the laws that are assumed of them.
use openshift_upgrade_contro.Prelude.{
  String, str_eq, eq_iff, ◌≡◌, refl, true, false, Option, none, some, List, [], ◌∷◌, ap, Bool-cases,
  inl, inr, arith, if◌then◌else◌,
}
use openshift_upgrade_contro.Prelude.Int.{pos}
use openshift_upgrade_contro.Api.Meta.{
  Condition, status_true, is_true, ObjectMeta, NamespacedName, LabelSelector,
}
use openshift_upgrade_contro.Api.Upstream.{ClusterVersion, ClusterVersionSettings}
use openshift_upgrade_contro.Api.Job.{UpgradeJob, condition_started}
use openshift_upgrade_contro.Json.{end}
use openshift_upgrade_contro.Exec.{
  ok, err, not_found, Server, option_case, get_upgrade_job, get_upgrade_config, get_cluster_version,
  list_hooks, list_jobs, list_upgrade_jobs, list_windows, list_all_pools, list_pools,
  update_upgrade_job_status, update_upgrade_config_status, update_hook_status,
  update_cluster_version, update_pool, get_force_drain, list_force_drains, list_nodes,
  list_all_nodes, list_machines, list_pods, get_namespace, get_daemon_set, get_managed_version,
  get_window, list_selected_configs, list_selected_jobs, list_all_windows, list_all_configs,
  list_all_upgrade_jobs, list_all_hooks, update_force_drain_status, update_managed_version_status,
  update_window_status,
}
use openshift_upgrade_contro.UpgradeJob.Env.{Env, Apimeta, ApimetaLaws, merged}
use openshift_upgrade_contro.UpgradeJob.Consistent.{
  IsConsistent, IsUnfinished, ServerLaws, state_of,
}

-- The newest condition of a type stands before the older ones.
abbrev find_condition_of : String → List Condition → Option Condition
find_condition_of t [] = none
find_condition_of t (c ∷ cs) =
    let rest = find_condition_of t cs in if str_eq c.type t then some c else rest

abbrev pub apimeta : Apimeta
apimeta = record {
  set_status_condition = λ c cs. (merged c (find_condition_of c.type cs) ∷ cs, true);
  find_status_condition = find_condition_of;
  is_status_condition_true =
      λ t cs. option_case (find_condition_of t cs) false (λ c. is_true c.status);
}

merged_type : (c : Condition) (o : Option Condition) → (merged c o).type ≡ c.type
merged_type c none = refl
merged_type c (some d) = ground arith

find_condition_of-set :
    (t : String) (c : Condition) (cs : List Condition)
    → find_condition_of t (merged c (find_condition_of c.type cs) ∷ cs) ≡ (
        if str_eq c.type t
        then some (merged c (find_condition_of t cs))
        else find_condition_of t cs)
find_condition_of-set t c cs =
    rw (merged_type c (find_condition_of c.type cs)) (elim (Bool-cases (str_eq c.type t)) [
      | inl h ↦
          rw h
            (ap (λ (x : String). some (merged c (find_condition_of x cs))) ((eq_iff c.type t).0 h))
      | inr h ↦ rw h refl
    ])

pub apimeta-ApimetaLaws : ApimetaLaws apimeta
apimeta-ApimetaLaws = record {
  find-set = find_condition_of-set;
  set_unchanged = λ c cs h. cc;
  is_true-eq-find = λ t cs. refl;
}

abbrev pub meta_of : String → String → ObjectMeta
meta_of namespace name = record {
  name = name;
  namespace = namespace;
  uid = "1";
  labels = [];
  annotations = [];
  creation_timestamp = pos 0;
  deletion_timestamp = none;
  finalizers = [];
  controller = none;
}

abbrev pub any_selector : LabelSelector
any_selector = record { match_labels = []; match_expressions = [] }

abbrev pub started : Condition
started = record {
  type = condition_started;
  status = status_true;
  last_transition_time = pos 10;
  reason = "Started";
  message = "";
}

abbrev pub job_of : NamespacedName → UpgradeJob
job_of nn = record {
  api_version = "managedupgrade.appuio.io/v1beta1";
  kind = "UpgradeJob";
  meta = meta_of nn.namespace nn.name;
  spec = record {
    start_after = pos 10;
    start_before = pos 100;
    desired_version = some (record {
      architecture = "";
      version = "4.11.23";
      image = "quay.io/release";
      force = false;
    });
    desired_version_check_availability = none;
    config = record {
      upgrade_timeout = pos 1000;
      pre_upgrade_health_checks = record {
        timeout = pos 30;
        skip_degraded_operators_check = false;
      };
      post_upgrade_health_checks = record {
        timeout = pos 30;
        skip_degraded_operators_check = false;
      };
      machine_config_pools =
          record {
            match_labels = none;
            delay_upgrade = record { delay_min = pos 20; delay_max = pos 500 };
          }
          ∷ [];
      pause_machine_config_pools_on_failure = record { enabled = true; selector = any_selector };
    };
  };
  conditions = started ∷ [];
  hook_job_tracker = [];
}

abbrev pub settings_of : String → ClusterVersionSettings
settings_of channel = record {
  cluster_id = "1";
  upstream = "";
  channel = channel;
  capabilities = none;
  signature_stores = none;
  overrides = none;
}

abbrev pub cluster_version : ClusterVersion
cluster_version = record {
  meta = meta_of "" "version";
  desired_update = none;
  settings = settings_of "stable-4.11";
  history = [];
  available_updates = [];
  conditions = [];
}

-- Every read finds a job of the name, and every update is stored.
abbrev pub server : Server
server h (get_upgrade_job nn) = ok (job_of nn)
server h (get_upgrade_config nn) = err not_found
server h (get_cluster_version name) = ok cluster_version
server h (list_hooks _) = ok []
server h (list_jobs _ _) = ok []
server h (list_upgrade_jobs _) = ok []
server h (list_windows _) = ok []
server h list_all_pools = ok []
server h (list_pools _) = ok []
server h (update_upgrade_job_status uj) = ok uj
server h (update_upgrade_config_status uc) = ok uc
server h (update_hook_status u) = ok u
server h (update_cluster_version v) = ok v
server h (update_pool p) = ok p
server h (get_force_drain _) = err not_found
server h list_force_drains = ok []
server h (list_nodes _) = ok []
server h list_all_nodes = ok []
server h (list_machines _) = ok []
server h (list_pods _) = ok []
server h (get_namespace _) = err not_found
server h (get_daemon_set _) = err not_found
server h (get_managed_version _) = err not_found
server h (get_window _) = err not_found
server h (list_selected_configs _) = ok []
server h (list_selected_jobs _) = ok []
server h list_all_windows = ok []
server h list_all_configs = ok []
server h list_all_upgrade_jobs = ok []
server h list_all_hooks = ok []
server h (update_force_drain_status fd) = ok fd
server h (update_managed_version_status v) = ok v
server h (update_window_status w) = ok w
server h _ = ok tt

abbrev pub env : Env
env = record {
  server = server;
  clock = λ h. pos 50;
  cluster_version_name = "version";
  apimeta = apimeta;
  as_selector = λ s. some (λ d. true);
  remove_finalizer = λ f fs. ([], true);
  set_controller_reference = λ uj m. ok m;
  marshal_job = λ uj. ok "{}";
  unmarshal_map = λ s. ok end;
  marshal = λ j. some "";
  format_time = λ t. "";
  format_duration = λ d. "";
  quote = λ s. s;
  to_lower = λ s. s;
  sha256_hex = λ s. "0123456789";
}

pub server-ServerLaws : ServerLaws env
server-ServerLaws = record {
  job_found = λ nn h. (refl, refl);
  status_stored = λ uj h. record { same_name = refl; same_spec = refl; same_state = λ t. refl };
  version_stored = λ v h. refl;
}

pub job_of-IsConsistent : (nn : NamespacedName) → IsConsistent env (job_of nn)
unfolding state_of
job_of-IsConsistent nn = record { exclusive = refl; staged = λ h. cc }

pub job_of-IsUnfinished : (nn : NamespacedName) → IsUnfinished env (job_of nn)
unfolding state_of
job_of-IsUnfinished nn = record { not_succeeded = refl; not_failed = refl }

abbrev pub upgrade : NamespacedName
upgrade = record { namespace = "appuio"; name = "upgrade-4-11-23" }
