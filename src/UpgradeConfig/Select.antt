-- ===== src/UpgradeConfig/Select.antt =====
-- The jobs of a config: `filterControlledJobs`, `latestScheduledJob` and the job that is created.
pub mod Laws
use Prim.Native.Char.{Char, code}
use openshift_upgrade_contro.Prelude.{
  ℕ, ◌/◌, ◌==◌, String, ◌<>◌, Bool, Option, none, some, List, [], ◌∷◌, keep, if◌then◌else◌,
}
use openshift_upgrade_contro.Prelude.Int.{ℤ, pos, negsuc, ◌-ℤ◌}
use openshift_upgrade_contro.Api.Time.{Time, add_time, after, zero_time}
use openshift_upgrade_contro.Api.Meta.{ObjectMeta}
use openshift_upgrade_contro.Api.Upstream.{Update, Release}
use openshift_upgrade_contro.Api.Job.{UpgradeJob, UpgradeJobSpec}
use openshift_upgrade_contro.Api.Config.{UpgradeConfig}
use openshift_upgrade_contro.Exec.{
  M, ◌>>=◌, ◌>>◌, pure, context, lift, send, list_upgrade_jobs, create_upgrade_job, option_case,
}
use openshift_upgrade_contro.UpgradeJob.Environment.{itoa}
use openshift_upgrade_contro.UpgradeConfig.{Env}

-- The loop of `latestScheduledJob`, with the latest job so far.
unfoldable pub latest_loop : Option UpgradeJob → List UpgradeJob → Option UpgradeJob
latest_loop latest [] = latest
latest_loop none (job ∷ jobs) = latest_loop (some job) jobs
latest_loop (some l) (job ∷ jobs) =
    latest_loop (some (if after job.spec.start_after l.spec.start_after then job else l)) jobs

unfoldable pub latest_scheduled_job : List UpgradeJob → Option UpgradeJob
unfolding latest_loop
latest_scheduled_job jobs = latest_loop none jobs

-- Time.Unix: whole seconds, rounded down, from the first instant of 1970.
unfoldable pub unix : Time → ℤ
unfolding ◌-ℤ◌
unix (pos n) = pos (n / 1000000000) -ℤ pos 62135596800
unix (negsuc n) = negsuc (n / 1000000000) -ℤ pos 62135596800

-- strconv.FormatInt to base 10
unfoldable pub format_int : ℤ → String
unfolding itoa
format_int (pos n) = itoa n
format_int (negsuc n) = "-" <> itoa (Prim.Native.Nat.suc n)

-- strings.ReplaceAll(s, ".", "-")
unfoldable pub replace_dots : String → String
replace_dots String.[] = String.[]
replace_dots (String.◌∷◌ c s) = String.◌∷◌ (if code c == b'.' then "-" else c) (replace_dots s)

abbrev pub desired_of : Release → Update
desired_of r = record {
  architecture = "";
  version = r.version;
  image = r.image;
  force = Bool.false;
}

unfoldable pub version_name : Option Release → String
unfolding replace_dots
version_name none = "noop-"
version_name (some r) = replace_dots r.version <> "-"

-- The job for a run of the schedule.
unfoldable pub new_job : UpgradeConfig → Option Release → Time → UpgradeJob
unfolding unix format_int version_name add_time
new_job uc latest_update next_run = record {
  api_version = "";
  kind = "";
  meta = record {
    name = uc.meta.name <> ("-" <> (version_name latest_update <> format_int (unix next_run)));
    namespace = uc.meta.namespace;
    uid = "";
    labels = uc.spec.job_template.labels;
    annotations = uc.spec.job_template.annotations;
    creation_timestamp = zero_time;
    deletion_timestamp = none;
    finalizers = [];
    controller = none;
  };
  spec = record {
    start_after = next_run;
    start_before = add_time next_run uc.spec.max_upgrade_start_delay;
    desired_version = option_case latest_update none (λ r. some (desired_of r));
    desired_version_check_availability = none;
    config = uc.spec.job_template.config;
  };
  conditions = [];
  hook_job_tracker = [];
}

module _ (env : Env) where
  unfoldable pub filter_controlled_jobs : UpgradeConfig → List UpgradeJob → List UpgradeJob
  filter_controlled_jobs uc jobs =
      keep (λ (job : UpgradeJob). env.is_controlled_by job.meta uc.meta) jobs

  unfoldable pub get_controlled_jobs : UpgradeConfig → M (List UpgradeJob)
  get_controlled_jobs uc = do
    jobs ← send env.server (list_upgrade_jobs uc.meta.namespace)
    pure (filter_controlled_jobs uc jobs)

  unfoldable pub create_job : UpgradeConfig → Option Release → Time → M (Unit {0})
  create_job uc latest_update next_run = do
    let job = new_job uc latest_update next_run
    m ←
        context "could not set controller reference"
          (lift (env.set_controller_reference uc job.meta))
    context "could not create job" (send env.server (create_upgrade_job (record job { meta = m })))
