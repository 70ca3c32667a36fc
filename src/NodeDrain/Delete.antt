-- ===== src/NodeDrain/Delete.antt =====
-- `forceDrainNode` and `forceDeletePodsOnNode`.
use openshift_upgrade_contro.Prelude.{
  ℕ, String, ◌<>◌, Bool, true, false, ◌||◌, Option, none, some, List, [], ◌∷◌, ◌++◌, if◌then◌else◌,
}
use openshift_upgrade_contro.Prelude.Int.{ℤ, pos}
use openshift_upgrade_contro.Api.Time.{Time, Duration, sub_time}
use openshift_upgrade_contro.Api.Duration.{add_duration, sub_duration, seconds, is_positive}
use openshift_upgrade_contro.Api.Upstream.{Node, Pod}
use openshift_upgrade_contro.Exec.{
  Error, wrap, M, ◌>>=◌, ◌>>◌, pure, attempt, send, read_now, delete_pod, record_event,
  increment_counter, option_case, combine, match_option, match_result, when◌then◌else◌,
}
use openshift_upgrade_contro.UpgradeJob.Reconcile.{error_list}
use openshift_upgrade_contro.NodeDrain.{Env, Selector, Query}
use openshift_upgrade_contro.NodeDrain.Grace.{sooner}
use openshift_upgrade_contro.NodeDrain.Candidates.{get_deletion_candidate_pods_for_node}

-- The labels of the counters.
abbrev pub pod_labels : String → Node → Pod → List String
pod_labels drain node pod =
    drain ∷ node.meta.name ∷ pod.meta.namespace ∷ pod.meta.name ∷ pod.meta.uid ∷ []

-- `ptr.Deref(pod.ObjectMeta.DeletionGracePeriodSeconds, 0)`
abbrev pub grace_seconds : Pod → ℤ
grace_seconds pod = option_case pod.deletion_grace_period_seconds (pos 0) (λ n. n)

-- `at` is the deletion timestamp, which includes the grace period of the pod.
unfoldable pub time_until_force_delete : Duration → Pod → Time → Time → Duration
unfolding add_duration sub_duration seconds sub_time
time_until_force_delete grace pod at now =
    add_duration (sub_duration (sub_time at now) (seconds (grace_seconds pod))) grace

module _ (env : Env) (drain : String) (node : Node) where
  -- An event, a count and the deletion itself.
  unfoldable pub delete_counted : String → String → Pod → Option ℕ → M (List Error)
  delete_counted event counter pod grace = do
    attempt (send env.server (record_event event))
    attempt (send env.server (increment_counter counter (pod_labels drain node pod)))
    r ← attempt (send env.server (delete_pod pod grace))
    pure (error_list r)

  -- The body of the loop of forceDrainNode: whether a deletion was attempted, and its errors.
  unfoldable pub drain_pod : Pod → M (Bool × List Error)
  drain_pod pod =
      match_option pod.meta.deletion_timestamp
        (do
          es ← delete_counted "NodeDrainDeletePod" "pod_deletions_total" pod none
          pure (true, es))
        (λ _. pure (false, []))

  unfoldable pub drain_pods : List Pod → M (Bool × List Error)
  drain_pods [] = pure (false, [])
  drain_pods (pod ∷ pods) = do
    r ← drain_pod pod
    more ← drain_pods pods
    pure (r.0 || more.0, r.1 ++ more.1)

  -- The body of the loop of forceDeletePodsOnNode, with `timeUntilNextForceDelete`.
  unfoldable pub terminate_pod : Duration → Duration → Pod → M (Duration × List Error)
  terminate_pod grace next pod = match_option pod.meta.deletion_timestamp (pure (next, [])) (λ at.
      do
        now ← read_now env.clock
        let until = time_until_force_delete grace pod at now
        when is_positive until then pure (sooner next until, []) else (do
          es ← delete_counted "NodeDrainForcingPodTermination" "pod_terminations_total" pod (some 1)
          pure (next, es)))

  unfoldable pub terminate_pods : Duration → Duration → List Pod → M (Duration × List Error)
  terminate_pods grace next [] = pure (next, [])
  terminate_pods grace next (pod ∷ pods) = do
    r ← terminate_pod grace next pod
    more ← terminate_pods grace r.0 pods
    pure (more.0, r.1 ++ more.1)

  module _ (ns_selector : Selector) (query : Option Query) where
    -- The candidates, or the error of their listing.
    unfoldable pub with_candidates :
        {A : Type 0} → A → (List Pod → M (A × List Error)) → M (A × Option Error)
    with_candidates none_done f = do
      r ← attempt (get_deletion_candidate_pods_for_node env ns_selector query node)
      match_result r
          (λ e. pure (
            none_done,
            some (wrap ("failed to get deletion candidate pods for node " <> node.meta.name) e),
          ))
          (λ pods. do d ← f pods; pure (d.0, combine d.1))

    unfoldable pub force_drain_node : M (Bool × Option Error)
    force_drain_node = with_candidates false drain_pods

    unfoldable pub force_delete_pods_on_node : Duration → M (Duration × Option Error)
    force_delete_pods_on_node grace = with_candidates (pos 0) (terminate_pods grace (pos 0))
