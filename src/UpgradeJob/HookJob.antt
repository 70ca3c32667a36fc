-- ===== src/UpgradeJob/HookJob.antt =====
-- The batch job of a hook: its name, its labels, its state, and when one is created.
pub mod Laws
pub mod Named
use Prim.Native.String.{len, slice}
use openshift_upgrade_contro.Prelude.{
  String, ◌<>◌, str_eq, ltb, Bool, ◌&&◌, ◌||◌, Option, none, List, [], ◌∷◌, ◌++◌, map, keep, any_of,
  find_first, is_empty, if◌then◌else◌,
}
use openshift_upgrade_contro.Prelude.Dict.{Dict, Map, insert, copy}
use openshift_upgrade_contro.Prelude.Text.{join}
use openshift_upgrade_contro.Api.Time.{zero_time}
use openshift_upgrade_contro.Api.Meta.{is_true}
use openshift_upgrade_contro.Api.Upstream.{Job, JobCondition}
use openshift_upgrade_contro.Api.Job.{
  UpgradeJob, HookJobTracker, TrackerStatus, complete, failed, active,
}
use openshift_upgrade_contro.Api.Hook.{UpgradeEvent, event_name, UpgradeJobHook}
use openshift_upgrade_contro.Exec.{
  M, ◌>>=◌, ◌>>◌, pure, lift, context, send, list_jobs, create_job, option_case, when◌then◌else◌,
  Result, ok, err,
}
use openshift_upgrade_contro.Json.{str, bool, Fields, end, field}
use openshift_upgrade_contro.UpgradeJob.Env.{Env}
use openshift_upgrade_contro.UpgradeJob.Environment.{hook_environment, add_env}

-- UpgradeJobHookJobTrackerFinalizer
abbrev pub tracker_finalizer : String
tracker_finalizer = "upgradejobs.managedupgrade.appuio.io/hook-job-tracker"

abbrev pub label_hook : String
label_hook = "upgradejobs.managedupgrade.appuio.io/upgradejobhook"

abbrev pub label_upgrade_job : String
label_upgrade_job = "upgradejobs.managedupgrade.appuio.io/upgradejobk"

abbrev pub label_event : String
label_event = "upgradejobs.managedupgrade.appuio.io/event"

abbrev pub label_tracking_key : String
label_tracking_key = "upgradejobs.managedupgrade.appuio.io/tracking-key"

abbrev pub no_tracking_key : String
no_tracking_key = ""

-- eventInfoWithReason and eventInfoUnpause
abbrev pub event_info_with_reason : String → Map String
event_info_with_reason reason = ("reason", reason) ∷ []

abbrev pub event_info_unpause : String → String → Map String
event_info_unpause reason pool = ("pool", pool) ∷ ("reason", reason) ∷ []

-- The lower-case name, cut to 52 bytes and ten digits of its digest if it is longer than 63 bytes.
unfoldable pub job_name : (String → String) → (String → String) → List String → String
job_name to_lower sha256_hex elems =
    let name = to_lower (join "-" elems) in
    if ltb 63 (len name) then slice name 0 52 <> ("-" <> slice (sha256_hex name) 0 10) else name

unfoldable pub job_labels : String → String → UpgradeEvent → String → Dict
job_labels name hook event key =
    (label_hook, hook)
    ∷ (label_upgrade_job, name)
    ∷ (label_event, event_name event)
    ∷ (label_tracking_key, key)
    ∷ []

abbrev pub is_complete_or_failed : JobCondition → Bool
is_complete_or_failed c = (str_eq c.type "Complete" || str_eq c.type "Failed") && is_true c.status

unfoldable pub is_job_finished : Job → Bool
is_job_finished j = any_of is_complete_or_failed j.conditions

unfoldable pub job_failed_condition : Job → Option JobCondition
job_failed_condition j =
    find_first (λ (c : JobCondition). str_eq c.type "Failed" && is_true c.status) j.conditions

-- The status, the message and the reason.
unfoldable pub hook_status_from_job : Job → TrackerStatus × String × String
unfolding is_job_finished job_failed_condition
hook_status_from_job j =
    if is_job_finished j
    then option_case (job_failed_condition j) (complete, "", "")
        (λ c. (failed, c.message, c.reason))
    else (active, "", "")

unfoldable pub find_tracked_hook_job : String → String → String → UpgradeJob → List HookJobTracker
find_tracked_hook_job hook event key uj =
    keep
      (λ h.
        str_eq h.upgrade_job_hook_name hook
        && (str_eq h.hook_event event && str_eq h.tracking_key key))
      uj.hook_job_tracker

-- The tracker of a listed job.
unfoldable pub tracker_of : String → String → String → Job → HookJobTracker
unfolding hook_status_from_job
tracker_of hook event key j =
    let (st, msg, rsn) = hook_status_from_job j in
    record {
      hook_event = event;
      tracking_key = key;
      upgrade_job_hook_name = hook;
      status = st;
      message = msg;
      reason = rsn;
    }

abbrev text_fields : Map String → Fields
text_fields [] = end
text_fields ((k, v) ∷ m) = field k (str v) (text_fields m)

-- The job that is sent to the server, before it has a controller.
unfoldable pub hook_job :
    Env → UpgradeJobHook → UpgradeJob → UpgradeEvent → String → Map String → Bool → Fields → Job
unfolding job_name job_labels insert copy hook_environment add_env
hook_job env hook uj event key info disruptive job_json =
    let tmpl = hook.spec.template in
    let envs =
      hook_environment env.marshal (text_fields (insert "name" (event_name event) info)) job_json
        (field "matchesDisruptiveHooks" (bool disruptive) end) in
    record {
      meta = record {
        name =
            job_name env.to_lower env.sha256_hex
              (uj.meta.name ∷ hook.meta.name ∷ event_name event ∷ "hook" ∷ []);
        namespace = uj.meta.namespace;
        uid = "";
        labels = copy (copy [] tmpl.labels) (job_labels uj.meta.name hook.meta.name event key);
        annotations = tmpl.annotations;
        creation_timestamp = zero_time;
        deletion_timestamp = none;
        finalizers = tracker_finalizer ∷ [];
        controller = none;
      };
      init_containers = add_env envs tmpl.init_containers;
      containers = add_env envs tmpl.containers;
      conditions = [];
    }

module _ (env : Env) where
  unfoldable pub normalize_as_json : UpgradeJob → Result Fields
  normalize_as_json uj = elim (env.marshal_job uj) [ err e ↦ err e | ok b ↦ env.unmarshal_map b ]

  unfoldable pub create_hook_job :
      UpgradeJobHook → UpgradeJob → UpgradeEvent → String → Map String → Bool → M (Unit {0})
  create_hook_job hook uj event key info disruptive = do
    job_json ← context "failed to normalize upgrade job" (lift (normalize_as_json uj))
    let job = hook_job env hook uj event key info disruptive job_json
    meta ←
        context "failed to set controller reference"
          (lift (env.set_controller_reference uj job.meta))
    context "failed to create hook job" (send env.server (create_job (record job { meta = meta })))

  -- The trackers of the hook's jobs for the event. A job is created only when there is none.
  unfoldable pub job_for_upgrade_job_and_hook :
      UpgradeJob
      → UpgradeJobHook
      → UpgradeEvent
      → String
      → Map String
      → Bool
      → M (List HookJobTracker)
  job_for_upgrade_job_and_hook uj hook event key info disruptive = do
    jobs ←
        send env.server
          (list_jobs uj.meta.namespace (job_labels uj.meta.name hook.meta.name event key))
    let trackers =
        find_tracked_hook_job hook.meta.name (event_name event) key uj
        ++ map (tracker_of hook.meta.name (event_name event) key) jobs
    when is_empty trackers
        then (do
          create_hook_job hook uj event key info disruptive
          pure (
              record {
                hook_event = event_name event;
                tracking_key = key;
                upgrade_job_hook_name = hook.meta.name;
                status = active;
                message = "";
                reason = "";
              }
              ∷ []))
        else pure trackers
