-- ===== src/UpgradeJob/Track.antt =====
-- `trackHookJobs` and `cleanupHookJobTrackingFinalizers`: what is known of the hook jobs is kept in
-- the status of the upgrade job before their finalizers go. The sets of the source are lists without
-- repetition; the order of trackers with equal sort keys, which Go leaves open, is that of the list.
pub mod Laws
use openshift_upgrade_contro.Prelude.{
  String, ◌<>◌, str_eq, Bool, true, false, ◌&&◌, not, Option, none, some, List, [], ◌∷◌, ◌++◌, map,
  any_of, if◌then◌else◌,
}
use openshift_upgrade_contro.Prelude.Dict.{read}
use openshift_upgrade_contro.Prelude.Text.{string_lt}
use openshift_upgrade_contro.Prelude.Sort.{sort_by}
use openshift_upgrade_contro.Api.Meta.{NamespacedName, ObjectMeta}
use openshift_upgrade_contro.Api.Upstream.{Job}
use openshift_upgrade_contro.Api.Job.{
  UpgradeJob, HookJobTracker, TrackerStatus, complete, failed, active,
}
use openshift_upgrade_contro.Exec.{
  Error, not_found, Result, ok, err, M, ◌>>=◌, ◌>>◌, pure, raise, attempt, send, get_upgrade_job,
  list_jobs, update_job, result_case, return_errors, match_result, when◌then◌else◌,
}
use openshift_upgrade_contro.UpgradeJob.Env.{Env}
use openshift_upgrade_contro.UpgradeJob.Status.{update_status}
use openshift_upgrade_contro.UpgradeJob.HookJob.{
  tracker_finalizer, label_hook, label_upgrade_job, label_event, label_tracking_key,
  is_job_finished, tracker_of,
}

abbrev pub is_not_found : Error → Bool
is_not_found not_found = true
is_not_found _ = false

abbrev pub eqb_tracker_status : TrackerStatus → TrackerStatus → Bool
eqb_tracker_status complete complete = true
eqb_tracker_status failed failed = true
eqb_tracker_status active active = true
eqb_tracker_status _ _ = false

abbrev pub is_active : TrackerStatus → Bool
is_active active = true
is_active _ = false

-- Go's `==` on the struct, by which the sets compare.
unfoldable pub eqb_tracker : HookJobTracker → HookJobTracker → Bool
eqb_tracker a b =
    str_eq a.hook_event b.hook_event
    && (str_eq a.tracking_key b.tracking_key
        && (str_eq a.upgrade_job_hook_name b.upgrade_job_hook_name
            && (eqb_tracker_status a.status b.status
                && (str_eq a.message b.message && str_eq a.reason b.reason))))

unfoldable pub has_tracker : HookJobTracker → List HookJobTracker → Bool
has_tracker t ts = any_of (eqb_tracker t) ts

-- Insert of a set.
unfoldable pub add_tracker : HookJobTracker → List HookJobTracker → List HookJobTracker
add_tracker t ts = if has_tracker t ts then ts else t ∷ ts

-- sets.New
unfoldable pub tracker_set : List HookJobTracker → List HookJobTracker
unfolding add_tracker
tracker_set [] = []
tracker_set (t ∷ ts) = add_tracker t (tracker_set ts)

-- The loop that adds the jobs that were completed and may be gone.
unfoldable pub add_completed : List HookJobTracker → List HookJobTracker → List HookJobTracker
unfolding add_tracker
add_completed [] set = set
add_completed (s ∷ ss) set =
    add_completed ss (if not (is_active s.status) then add_tracker s set else set)

unfoldable pub subset_of : List HookJobTracker → List HookJobTracker → Bool
subset_of [] ts = true
subset_of (s ∷ ss) ts = has_tracker s ts && subset_of ss ts

-- Equal
unfoldable pub equal_sets : List HookJobTracker → List HookJobTracker → Bool
unfolding subset_of
equal_sets ss ts = subset_of ss ts && subset_of ts ss

abbrev pub sort_key : HookJobTracker → String
sort_key t = t.upgrade_job_hook_name <> (t.hook_event <> t.tracking_key)

-- The tracker of a job by its labels.
unfoldable pub tracker_of_job : Job → HookJobTracker
tracker_of_job j =
    let l = j.meta.labels in
    tracker_of (read label_hook l) (read label_event l) (read label_tracking_key l) j

unfoldable pub current_and_completed : UpgradeJob → List Job → List HookJobTracker
unfolding tracker_set add_completed
current_and_completed uj jobs =
    add_completed uj.hook_job_tracker (tracker_set (map tracker_of_job jobs))

module _ (env : Env) where
  -- The finalizer is removed from one job, when it is there; the result is the error of the update.
  unfoldable pub drop_finalizer : Job → M (List Error)
  drop_finalizer j =
      let r = env.remove_finalizer tracker_finalizer j.meta.finalizers in
      when r.1
      then (do
        u ←
            attempt (
              send env.server (update_job (record j { meta = record j.meta { finalizers = r.0 } })))
        pure (result_case u (λ e. e ∷ []) (λ _. [])))
      else pure []

  -- The loop over the jobs; `all` is set when the upgrade job is gone, and unfinished jobs are
  -- treated too.
  unfoldable pub drop_finalizers : Bool → List Job → M (List Error)
  drop_finalizers all [] = pure []
  drop_finalizers all (j ∷ js) =
      let rest = drop_finalizers all js in
      when not all && not (is_job_finished j)
      then rest
      else (do es ← drop_finalizer j; more ← rest; pure (es ++ more))

  unfoldable pub cleanup_hook_job_tracking_finalizers : NamespacedName → M (Unit {0})
  cleanup_hook_job_tracking_finalizers nn = do
    jobs ← send env.server (list_jobs nn.namespace ((label_upgrade_job, nn.name) ∷ []))
    es ← drop_finalizers true jobs
    return_errors es

  unfoldable pub track_jobs : UpgradeJob → M (Unit {0})
  track_jobs uj = do
    jobs ← send env.server (list_jobs uj.meta.namespace ((label_upgrade_job, uj.meta.name) ∷ []))
    let now_known = current_and_completed uj jobs
    when equal_sets (tracker_set uj.hook_job_tracker) now_known
        then pure uj
        else update_status env (record uj {
          hook_job_tracker = sort_by (λ a b. string_lt (sort_key a) (sort_key b)) now_known;
        })
    es ← drop_finalizers false jobs
    return_errors es

  unfoldable pub track_hook_jobs : NamespacedName → M (Unit {0})
  track_hook_jobs nn = do
    r ← attempt (send env.server (get_upgrade_job nn))
    match_result r
        (λ e. when is_not_found e then cleanup_hook_job_tracking_finalizers nn else raise e)
        track_jobs
