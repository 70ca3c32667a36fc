-- ===== src/Tests/Configs.antt =====
-- The theorems on upgrade configs, schedules and cluster versions at concrete inputs.
use mathlib.Core.List.{Memᴰ, Perm}
use openshift_upgrade_contro.Prelude.{
  ◌≡◌, ◌⊎◌, ◌↔◌, refl, true, false, Option, none, some, List, [], ◌∷◌, ◌++◌, All, arith, take, keep,
  String,
}
use openshift_upgrade_contro.Prelude.Int.{ℤ, pos, ◌+ℤ◌}
use openshift_upgrade_contro.Api.Time.{Time}
use openshift_upgrade_contro.Api.Upstream.{ClusterVersion, Release}
use openshift_upgrade_contro.Api.Job.{UpgradeJob, condition_succeeded}
use openshift_upgrade_contro.Api.Meta.{Condition, status_true}
use openshift_upgrade_contro.Api.Config.{UpgradeConfig, get_successful_jobs_history_limit}
use openshift_upgrade_contro.ClusterVersion.{is_later, latest_available_update}
use openshift_upgrade_contro.ClusterVersion.Latest.{IsLatest, latest_available_update_is_max}
use openshift_upgrade_contro.Prelude.Sort.Laws.{IsStrictWeak}
use openshift_upgrade_contro.Exec.{ok}
use openshift_upgrade_contro.Schedule.{Schedule, next, next_n, max_runs}
use openshift_upgrade_contro.Schedule.Next.{Found, next-FirstMatch}
use openshift_upgrade_contro.Schedule.NextN.{IsChain, EndsWith, next_n-IsChain}
use openshift_upgrade_contro.UpgradeConfig.{Env}
use openshift_upgrade_contro.UpgradeConfig.Select.{latest_scheduled_job}
use openshift_upgrade_contro.UpgradeConfig.Select.Laws.{StartsBy, latest_scheduled_job-is_max}
use openshift_upgrade_contro.UpgradeConfig.Window.{in_window, find_next_run, max_attempts}
use openshift_upgrade_contro.UpgradeConfig.Window.Laws.{FoundOpen, find_next_run-FoundOpen}
use openshift_upgrade_contro.UpgradeConfig.Cleanup.{successful_jobs, jobs_to_delete, delete_jobs}
use openshift_upgrade_contro.UpgradeConfig.Cleanup.Laws.{
  StartsAfter, deletions, jobs_to_delete-StartsAfter, delete_jobs-deletions,
}
use openshift_upgrade_contro.UpgradeConfig.Reconcile.{schedule_job}
use openshift_upgrade_contro.UpgradeConfig.Reconcile.Scheduled.{CreatesScheduled}
use openshift_upgrade_contro.UpgradeConfig.Reconcile.Laws.{schedule_job-CreatesScheduled}
use openshift_upgrade_contro.Tests.Fixtures.{
  server, apimeta, meta_of, job_of, upgrade, cluster_version,
}

-- A run every hundred nanoseconds, all of them in week 2.
abbrev hourly : Schedule
hourly = record { cron_next = λ t. t +ℤ pos 100; iso_week_of = λ t. 2; iso_week = "@even" }

abbrev config_env : Env
config_env = record {
  server = server;
  clock = λ h. pos 150;
  cluster_version_name = "version";
  apimeta = apimeta;
  as_selector = λ s. some (λ d. true);
  is_controlled_by = λ m n. true;
  set_controller_reference = λ uc m. ok m;
  semver_compare = λ v w. pos 0;
  local = "Local";
  load_location = λ s. ok s;
  parse_standard = λ s. ok (λ zone t. t +ℤ pos 100);
  iso_week_of = λ zone t. 2;
}

abbrev config_of : Option ℤ → UpgradeConfig
config_of limit = record {
  meta = meta_of "appuio" "config";
  spec = record {
    schedule = record { cron = "0 22 * * 3"; iso_week = "@even"; location = ""; suspend = false };
    pin_version_window = pos 60;
    max_scheduling_delay = pos 20;
    max_upgrade_start_delay = pos 30;
    successful_jobs_history_limit = limit;
    job_template = record { labels = []; annotations = []; config = (job_of upgrade).spec.config };
  };
  last_scheduled_upgrade = none;
  next_possible_schedules = [];
}

abbrev succeeded : Condition
succeeded = record {
  type = condition_succeeded;
  status = status_true;
  last_transition_time = pos 60;
  reason = "Succeeded";
  message = "";
}

abbrev done_at : Time → UpgradeJob
done_at t = record (job_of upgrade) {
  spec = record (job_of upgrade).spec { start_after = t };
  conditions = succeeded ∷ [];
}

abbrev done_jobs : List UpgradeJob
done_jobs = done_at (pos 20) ∷ done_at (pos 40) ∷ done_at (pos 30) ∷ []

schedule_job-CreatesScheduled_example :
    All
      (CreatesScheduled (config_of none) hourly config_env)
      (schedule_job config_env (config_of none) hourly []).1
schedule_job-CreatesScheduled_example =
    schedule_job-CreatesScheduled (config_of none) hourly config_env [] tt

find_next_run-FoundOpen_example :
    (find_next_run hourly (config_of none).spec (pos 150) max_attempts (pos 0)
      ≡ ok (in_window (pos 200)))
    ↔ FoundOpen hourly (config_of none).spec (pos 150) max_attempts (pos 0) (pos 200)
find_next_run-FoundOpen_example =
    find_next_run-FoundOpen hourly (config_of none).spec (pos 150) (pos 0) (pos 200)

next-FirstMatch_example :
    (next hourly (pos 0) ≡ ok (pos 100)) ↔ Found hourly max_runs (pos 0 +ℤ pos 100) (pos 100)
next-FirstMatch_example = next-FirstMatch hourly (pos 0) (pos 100)

next_n-IsChain_example :
    IsChain hourly (pos 0) (next_n hourly (pos 0) 10).0
    × EndsWith hourly (pos 0) 10 (next_n hourly (pos 0) 10)
next_n-IsChain_example = next_n-IsChain hourly (pos 0) 10

jobs_to_delete-StartsAfter_example :
    Perm
      (take 2 (successful_jobs config_env done_jobs)
        ++ jobs_to_delete config_env (config_of (some (pos 2))) done_jobs)
      (keep
        (λ (job : UpgradeJob). apimeta.is_status_condition_true condition_succeeded job.conditions)
        done_jobs)
    × StartsAfter
        (take 2 (successful_jobs config_env done_jobs))
        (jobs_to_delete config_env (config_of (some (pos 2))) done_jobs)
unfolding get_successful_jobs_history_limit
jobs_to_delete-StartsAfter_example =
    jobs_to_delete-StartsAfter config_env (config_of (some (pos 2))) done_jobs 2 refl (omega arith)

delete_jobs-deletions_example :
    (delete_jobs config_env done_jobs []).1 ≡ deletions config_env done_jobs []
delete_jobs-deletions_example = delete_jobs-deletions config_env done_jobs []

latest_scheduled_job-is_max_example :
    ((done_jobs ≡ []) × (latest_scheduled_job done_jobs ≡ none))
    ⊎ ((l : UpgradeJob) × (latest_scheduled_job done_jobs ≡ some l)
        × Memᴰ l done_jobs
        × All (StartsBy l) done_jobs)
latest_scheduled_job-is_max_example = latest_scheduled_job-is_max done_jobs

-- All versions compare as equal.
abbrev no_order : String → String → ℤ
no_order v w = pos 0

abbrev release : Release
release = record { version = "4.11.23"; image = "quay.io/release" }

abbrev available : ClusterVersion
available = record cluster_version { available_updates = release ∷ [] }

no_order-IsStrictWeak : IsStrictWeak (is_later no_order)
no_order-IsStrictWeak = record { asym = λ a b h. refl; not_trans = λ a b c h k. refl }

latest_available_update_is_max_example :
    IsLatest no_order no_order-IsStrictWeak
      (release ∷ [])
      (latest_available_update no_order available)
latest_available_update_is_max_example =
    latest_available_update_is_max no_order no_order-IsStrictWeak available
