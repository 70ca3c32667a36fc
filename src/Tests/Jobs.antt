-- ===== src/Tests/Jobs.antt =====
-- The theorems on upgrade jobs at concrete inputs.
use openshift_upgrade_contro.Prelude.{
  String, ◌<>◌, ◌≢◌, none, ap, str_eq, ◌≡◌, ◌↔◌, refl, true, false, some, [], ◌∷◌, All, is_empty,
}
use openshift_upgrade_contro.Prelude.Int.{pos}
use openshift_upgrade_contro.Api.Upstream.{ClusterVersion, Job, MachineConfigPool}
use openshift_upgrade_contro.Api.Job.{
  condition_post_health_check_done, UpgradeJob, HookJobTracker, complete,
}
use openshift_upgrade_contro.Api.Hook.{
  UpgradeJobHook, Claimer, claim, get_run, build_claim_reference, no_claim, ClaimReference,
  eqb_claim, run_next, start,
}
use openshift_upgrade_contro.Api.Hook.Laws.{claim_exclusive}
use openshift_upgrade_contro.Exec.{ok, read_clock}
use openshift_upgrade_contro.Exec.Triple.{Any}
use openshift_upgrade_contro.HealthCheck.Pools.{IsSettled, paused_updating, pools_nil_iff}
use openshift_upgrade_contro.UpgradeJob.Status.{Outcome, lock_val}
use openshift_upgrade_contro.UpgradeJob.Lock.{
  lock_of, with_lock, without_lock, try_lock_cluster_version, cleanup_lock,
  upgrade_job_name_from_locked_cluster_version,
}
use openshift_upgrade_contro.UpgradeJob.Lock.Laws.{upgrade_job_name-with_lock}
use openshift_upgrade_contro.UpgradeJob.Started.{reconcile_started_job}
use openshift_upgrade_contro.UpgradeJob.Reconcile.{reconcile}
use openshift_upgrade_contro.UpgradeJob.Consistent.{Legal}
use openshift_upgrade_contro.UpgradeJob.Lock.Owner.{try_lock_cluster_version-eq, cleanup_lock-eq}
use openshift_upgrade_contro.Exec.{err, failure, update_cluster_version, get_cluster_version}
use openshift_upgrade_contro.UpgradeJob.HookJob.Laws.{
  listing, known, run, CreatesOne, job_for_upgrade_job_and_hook-CreatesOne,
}
use openshift_upgrade_contro.UpgradeJob.Hooks.{execute_hooks}
use openshift_upgrade_contro.UpgradeJob.Health.{run_health_check}
use openshift_upgrade_contro.UpgradeJob.Consistent.Hooks.{IsKept}
use openshift_upgrade_contro.UpgradeJob.Consistent.Health.{IsVerdict}
use openshift_upgrade_contro.Exec.Triple.{Holds}
use openshift_upgrade_contro.UpgradeJob.Safety.{
  execute_hooks-Keeps, run_health_check-IsVerdict, IsLockedBy, reconcile_all, reconcile-IsSafe,
  reconcile_all-IsSafe, reconcile_started_job-IsLocked,
}
use openshift_upgrade_contro.UpgradeJob.Track.{
  track_jobs, current_and_completed, has_tracker, tracker_of_job,
}
use openshift_upgrade_contro.UpgradeJob.Track.Laws.{
  UpdatesFinished, HasCompleted, track_jobs-UpdatesFinished, current_and_completed-HasCompleted,
}
use openshift_upgrade_contro.UpgradeJob.Requeue.{next_timed_reconcile, possible_times}
use openshift_upgrade_contro.UpgradeJob.Requeue.Laws.{IsFirst, next_timed_reconcile-IsFirst}
use openshift_upgrade_contro.Tests.Fixtures.{
  env, apimeta-ApimetaLaws, server-ServerLaws, job_of, job_of-IsConsistent, job_of-IsUnfinished,
  upgrade, cluster_version, meta_of, any_selector,
}

reconcile-IsSafe_example :
    Legal env (IsLockedBy "appuio/upgrade-4-11-23") (reconcile env upgrade []).1
reconcile-IsSafe_example =
    reconcile-IsSafe env apimeta-ApimetaLaws server-ServerLaws upgrade
      (λ n h p. job_of-IsConsistent n) [] tt

reconcile_all-IsSafe_example :
    Legal env (Any {A = ClusterVersion}) (reconcile_all env (upgrade ∷ upgrade ∷ []) [])
reconcile_all-IsSafe_example =
    reconcile_all-IsSafe env apimeta-ApimetaLaws server-ServerLaws (λ n h p. job_of-IsConsistent n)
      (upgrade ∷ upgrade ∷ [])

reconcile_started_job-IsLocked_example :
    Legal env
      (λ v. lock_of v ≡ some (lock_val (job_of upgrade)))
      (reconcile_started_job env (job_of upgrade) []).1
reconcile_started_job-IsLocked_example =
    reconcile_started_job-IsLocked env apimeta-ApimetaLaws server-ServerLaws (job_of upgrade)
      (job_of-IsUnfinished upgrade) [] tt

track_jobs-UpdatesFinished_example : All UpdatesFinished (track_jobs env (job_of upgrade) []).1
track_jobs-UpdatesFinished_example = track_jobs-UpdatesFinished env (job_of upgrade) [] tt

abbrev completed_tracker : HookJobTracker
completed_tracker = record {
  hook_event = "Start";
  tracking_key = "";
  upgrade_job_hook_name = "notify";
  status = complete;
  message = "";
  reason = "";
}

abbrev tracked_job : UpgradeJob
tracked_job = record (job_of upgrade) { hook_job_tracker = completed_tracker ∷ [] }

abbrev running_job : Job
running_job = record {
  meta = meta_of "appuio" "upgrade-4-11-23-notify-start-hook";
  init_containers = [];
  containers = [];
  conditions = [];
}

current_and_completed-HasCompleted_example :
    All
      (λ j.
        has_tracker (tracker_of_job j) (current_and_completed tracked_job (running_job ∷ []))
        ≡ true)
      (running_job ∷ [])
    × HasCompleted (completed_tracker ∷ []) (current_and_completed tracked_job (running_job ∷ []))
current_and_completed-HasCompleted_example =
    current_and_completed-HasCompleted tracked_job (running_job ∷ [])

next_timed_reconcile-IsFirst_example :
    (o : Outcome) × (next_timed_reconcile env (job_of upgrade) [] ≡ (ok o, read_clock ∷ []))
    × IsFirst (pos 50) (possible_times (job_of upgrade)) o
next_timed_reconcile-IsFirst_example = next_timed_reconcile-IsFirst env (job_of upgrade) []

abbrev locked : ClusterVersion
locked = with_lock cluster_version "appuio/upgrade-4-11-23"

upgrade_job_name-with_lock_example :
    upgrade_job_name_from_locked_cluster_version locked ≡ some upgrade
upgrade_job_name-with_lock_example =
    upgrade_job_name-with_lock cluster_version upgrade
      (refl, (refl, (refl, (refl, (refl, (refl, tt))))))
      (
        refl,
        (
          refl,
          (
            refl,
            (
              refl,
              (
                refl,
                (refl, (refl, (refl, (refl, (refl, (refl, (refl, (refl, (refl, (refl, tt)))))))))),
              ),
            ),
          ),
        ),
      )

abbrev hook : UpgradeJobHook
hook = record {
  meta = meta_of "appuio" "notify";
  spec = record {
    events = start ∷ [];
    run = run_next;
    failure_policy = "";
    disruptive = false;
    pod_failure_policy_skips_upgrade = false;
    selector = any_selector;
    template = record { labels = []; annotations = []; init_containers = []; containers = [] };
  };
  claimed_by = no_claim;
}

abbrev claimer : String → Claimer
claimer uid = record {
  api_version = "managedupgrade.appuio.io/v1beta1";
  kind = "UpgradeJob";
  name = "upgrade";
  uid = uid;
}

claim_exclusive_example :
    let u' = (claim hook (claimer "1")).0 in
    (u'.claimed_by ≡ build_claim_reference (claimer "1"))
    × (claim u' (claimer "1") ≡ (u', true, false))
    × (claim u' (claimer "2") ≡ (u', false, false))
unfolding claim get_run build_claim_reference eqb_claim
claim_exclusive_example =
    claim_exclusive hook (claimer "1") (claimer "2") refl refl
      (λ e. absurd (ap (λ (r : ClaimReference). str_eq r.uid "1") e))
      (λ e. absurd (ap (λ (r : ClaimReference). str_eq r.uid "1") e))
  where
    absurd : true ≡ false → ⊥
    absurd h = cc

abbrev pool : MachineConfigPool
pool = record {
  meta = meta_of "" "worker";
  paused = true;
  machine_count = 3;
  updated_machine_count = 3;
}

pools_nil_iff_example :
    (is_empty (paused_updating (pool ∷ [])) ≡ true) ↔ All (IsSettled true) (pool ∷ [])
pools_nil_iff_example = pools_nil_iff (pool ∷ []) true

execute_hooks-Keeps_example :
    Holds
      (IsKept env (job_of upgrade))
      (execute_hooks env (job_of upgrade) start "" [] (pos 0) []).0
execute_hooks-Keeps_example =
    execute_hooks-Keeps env apimeta-ApimetaLaws server-ServerLaws (job_of upgrade) start "" []
      (pos 0) [] tt

run_health_check-IsVerdict_example :
    Holds
      (IsVerdict env cluster_version
        (job_of upgrade).spec.config.post_upgrade_health_checks
        condition_post_health_check_done
        (job_of upgrade))
      (run_health_check env
        (job_of upgrade)
        cluster_version
        (job_of upgrade).spec.config.post_upgrade_health_checks
        condition_post_health_check_done
        "PostHealthCheckFailed"
        []).0
run_health_check-IsVerdict_example =
    run_health_check-IsVerdict env apimeta-ApimetaLaws server-ServerLaws (job_of upgrade)
      cluster_version (job_of upgrade).spec.config.post_upgrade_health_checks
      condition_post_health_check_done "PostHealthCheckFailed" (job_of-IsUnfinished upgrade) refl
      refl [] tt

job_for_upgrade_job_and_hook-CreatesOne_example :
    (is_empty (known env (job_of upgrade) hook start "" []) ≡ false
      → run env (job_of upgrade) hook start "" [] true [] ≡ (
        ok (known env (job_of upgrade) hook start "" []),
        listing env (job_of upgrade) hook start "" ∷ [],
      ))
    × (is_empty (known env (job_of upgrade) hook start "" []) ≡ true
        → CreatesOne env
            (job_of upgrade)
            hook
            start
            ""
            []
            true
            (listing env (job_of upgrade) hook start "" ∷ [])
            (run env (job_of upgrade) hook start "" [] true []).1)
job_for_upgrade_job_and_hook-CreatesOne_example =
    job_for_upgrade_job_and_hook-CreatesOne env (job_of upgrade) hook start "" [] true [] [] refl

try_lock_cluster_version-eq_example :
    (lock_of cluster_version ≡ none
      → (try_lock_cluster_version env cluster_version "appuio/upgrade" []).1
        ≡ update_cluster_version (with_lock cluster_version "appuio/upgrade") ∷ [])
    × (lock_of cluster_version ≡ some "appuio/upgrade"
        → try_lock_cluster_version env cluster_version "appuio/upgrade" []
          ≡ (ok cluster_version, []))
    × ((l : String)
        → lock_of cluster_version ≡ some l
        → l ≢ "appuio/upgrade"
        → try_lock_cluster_version env cluster_version "appuio/upgrade" []
          ≡ (err (failure ("cluster version is locked by " <> l)), []))
try_lock_cluster_version-eq_example =
    try_lock_cluster_version-eq env cluster_version "appuio/upgrade" []

cleanup_lock-eq_example :
    (lock_of cluster_version ≡ some (lock_val (job_of upgrade))
      → (cleanup_lock env (job_of upgrade) []).1
        ≡ update_cluster_version (without_lock cluster_version)
          ∷ get_cluster_version "version"
          ∷ [])
    × (lock_of cluster_version ≢ some (lock_val (job_of upgrade))
        → cleanup_lock env (job_of upgrade) [] ≡ (ok tt, get_cluster_version "version" ∷ []))
cleanup_lock-eq_example = cleanup_lock-eq env (job_of upgrade) cluster_version [] refl

abbrev worker : String
worker = "worker"

abbrev infra : String
infra = "infra"
