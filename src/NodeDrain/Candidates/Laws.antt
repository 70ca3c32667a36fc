-- ===== src/NodeDrain/Candidates/Laws.antt =====
-- The pods that `getDeletionCandidatePodsForNode` keeps, and the tests that they pass.
use mathlib.Core.List.{Memᴰ}
use openshift_upgrade_contro.Prelude.{
  ◌≡◌, refl, sym, ap, ◌∙◌, subst, ◌<>◌, inl, inr, Bool, true, false, not, Option, none, some, List,
  [], ◌∷◌, All, arith, if◌then◌else◌,
}
use openshift_upgrade_contro.Api.Meta.{NamespacedName, ObjectMeta, OwnerReference}
use openshift_upgrade_contro.Api.Upstream.{Node, Pod}
use openshift_upgrade_contro.Exec.{
  ok, err, not_found, Error, Result, History, M, pure, raise, wrap, match_result, match_option,
  when◌then◌else◌, list_pods, get_namespace, get_daemon_set,
}
use openshift_upgrade_contro.Exec.Triple.{
  Triple, Triple-pure, Triple-raise, Triple-bind, Triple-when, Triple-option, Triple-result,
  Triple-attempt, Triple-context, Triple-lift, Triple-send_shown, Holds-shown, Triple-attempt-send,
}
use openshift_upgrade_contro.UpgradeJob.Track.{is_not_found}
use openshift_upgrade_contro.NodeDrain.{Env, Selector, Query, run_query}
use openshift_upgrade_contro.NodeDrain.Candidates.Matches.{any_match-YieldsTrue}
use openshift_upgrade_contro.NodeDrain.Candidates.{
  is_daemon_set, controller_name, pod_is_in_matching_namespace, pod_jq_query_matches,
  pod_is_controlled_by_existing_daemon_set, passes, is_candidate, filter_pods,
  get_deletion_candidate_pods_for_node,
}
use openshift_upgrade_contro.NodeDrain.Allowed.{
  IsListed, InNamespace, QuerySelects, IsSelected, IsOrphaned, IsCandidate, IsAllowed,
}

is_not_found_eq : (e : Error) → is_not_found e ≡ true → e ≡ not_found
is_not_found_eq not_found h = refl
is_not_found_eq e h = ground arith

module _ (env : Env) (nn : NamespacedName) where
  abbrev pub Keeps : {A : Type 0} → M A → (A → Type 0) → Type 0
  Keeps m Q = Triple (All (IsAllowed env nn)) m Q

  Keeps-passes :
      (C : Type 0) (m : M Bool)
      → Keeps m (λ b. b ≡ true → C)
      → Keeps (passes env m) (λ b. b ≡ true → C)
  unfolding passes
  Keeps-passes C m t = Triple-bind _ _ _ (Triple-attempt _ t) (λ r q.
      Triple-result (λ b. b ≡ true → C) r _ _ q (λ e. Triple-pure _ (λ h. cc))
        (λ b k. Triple-pure _ k))

  module _ (pod : Pod) where
    pod_is_in_matching_namespace-InNamespace :
        (ns_selector : Selector)
        → Keeps
            (pod_is_in_matching_namespace env ns_selector pod)
            (λ b. b ≡ true → InNamespace env ns_selector pod)
    unfolding pod_is_in_matching_namespace
    pod_is_in_matching_namespace-InNamespace ns_selector =
        Triple-when _ _ _ (λ e. Triple-pure _ (λ _. inl e))
          (λ _.
            Triple-bind _ _ _
              (Triple-context _ _ (Triple-send_shown env.server (get_namespace _) (λ h p. (tt, p))))
              (λ m shown. Triple-pure _ (λ e. inr (shown.0, m, shown.1, e))))

    Triple-run_query :
        (q : Query) (raw : openshift_upgrade_contro.Json.Json)
        → Keeps (run_query q raw) (λ os. (h : History) × (q h raw ≡ os))
    unfolding run_query
    Triple-run_query q raw = record { at = λ h p. (p, (h, refl)) }

    pod_jq_query_matches-QuerySelects :
        (q : Query)
        → Keeps (pod_jq_query_matches env q pod) (λ b. b ≡ true → QuerySelects env q pod)
    unfolding pod_jq_query_matches
    pod_jq_query_matches-QuerySelects q =
        Triple-bind _ _ _ (Triple-context _ _ (Triple-lift _ (Holds-shown _))) (λ bytes eb.
          Triple-bind _ _ _ (Triple-context _ _ (Triple-lift _ (Holds-shown _))) (λ raw er.
            Triple-bind _ _ _ (Triple-run_query q raw) (λ os shown. Triple-pure _ (λ e. (
              shown.0,
              bytes,
              raw,
              eb,
              er,
              (any_match-YieldsTrue (q shown.0 raw)).0 (rw (← shown.1) at e),
            )))))

    no_controller-IsOrphaned : pod.meta.controller ≡ none → IsOrphaned env pod
    no_controller-IsOrphaned e ref s d = cc

    other_controller-IsOrphaned :
        (o : OwnerReference)
        → pod.meta.controller ≡ some o
        → not (is_daemon_set o) ≡ true
        → IsOrphaned env pod
    other_controller-IsOrphaned o e n ref s d =
        let q : ref ≡ o = cc in
        let d' : is_daemon_set o ≡ true =
          subst (λ (x : OwnerReference). is_daemon_set x ≡ true) q d in
        let f : false ≡ true = ap not (sym d') ∙ n in cc

    missing-IsOrphaned :
        (o : OwnerReference) (h : History)
        → pod.meta.controller ≡ some o
        → env.server h (get_daemon_set (controller_name pod o)) ≡ err not_found
        → IsOrphaned env pod
    missing-IsOrphaned o h e a ref s d =
        let q : o ≡ ref = cc in
        (
          h,
          subst
              (λ (x : OwnerReference).
                env.server h (get_daemon_set (controller_name pod x)) ≡ err not_found)
              q a,
        )

    managed-IsOrphaned :
        (o : OwnerReference) (r : Result ObjectMeta) (h : History)
        → pod.meta.controller ≡ some o
        → env.server h (get_daemon_set (controller_name pod o)) ≡ r
        → Keeps
            (match_result r
              (λ e.
                when is_not_found e
                then pure false
                else raise (wrap ("failed to get DaemonSet " <> o.name) e))
              (λ _. pure true))
            (λ b. b ≡ false → IsOrphaned env pod)
    unfolding match_result
    managed-IsOrphaned o (ok m) h e a = Triple-pure _ (λ f. cc)
    managed-IsOrphaned o (err x) h e a =
        Triple-when _ _ _
          (λ n. Triple-pure _ (λ _. missing-IsOrphaned o h e (
            subst (λ (y : Error). env.server h (get_daemon_set (controller_name pod o)) ≡ err y)
              (is_not_found_eq x n) a)))
          (λ _. Triple-raise _)

    pod_is_controlled-IsOrphaned :
        Keeps
          (pod_is_controlled_by_existing_daemon_set env pod)
          (λ b. b ≡ false → IsOrphaned env pod)
    unfolding pod_is_controlled_by_existing_daemon_set
    pod_is_controlled-IsOrphaned =
        Triple-option pod.meta.controller _ _ (λ e. Triple-pure _ (λ _. no_controller-IsOrphaned e))
          (λ o e.
            Triple-when _ _ _ (λ n. Triple-pure _ (λ _. other_controller-IsOrphaned o e n))
              (λ _.
                Triple-bind _ _ _
                  (Triple-attempt-send env.server (get_daemon_set _) (λ h p. (tt, p)))
                  (λ r shown. managed-IsOrphaned o r shown.0 e shown.1)))

    chosen-IsSelected :
        (query : Option Query)
        → Keeps
            (match_option query (pure true) (λ q. passes env (pod_jq_query_matches env q pod)))
            (λ b. b ≡ true → IsSelected env query pod)
    unfolding match_option
    chosen-IsSelected none = Triple-pure _ (λ _. tt)
    chosen-IsSelected (some q) = Keeps-passes _ _ (pod_jq_query_matches-QuerySelects q)

    is_candidate-IsCandidate :
        (ns_selector : Selector) (query : Option Query)
        → Keeps
            (is_candidate env ns_selector query pod)
            (λ b. b ≡ true → IsCandidate env ns_selector query pod)
    unfolding is_candidate
    is_candidate-IsCandidate ns_selector query =
        Triple-bind _ _ _ (Keeps-passes _ _ (pod_is_in_matching_namespace-InNamespace ns_selector))
          (λ b1 k1.
            Triple-when _ _ _ (λ _. Triple-pure _ (λ h. cc))
              (λ n1. Triple-bind _ _ _ (chosen-IsSelected query) (λ b2 k2.
                Triple-when _ _ _ (λ _. Triple-pure _ (λ h. cc))
                  (λ n2.
                    Triple-bind (λ b. b ≡ true → IsOrphaned env pod) _ _
                      (Keeps-passes _ _ (
                        Triple-bind _ _ _ pod_is_controlled-IsOrphaned
                          (λ b k. Triple-pure _ (λ e. k (ground arith)))))
                      (λ b3 k3. Triple-pure _ (λ e. record {
                        in_namespace = k1 (ground arith);
                        selected = k2 (ground arith);
                        orphaned = k3 (ground arith);
                        not_static = ground arith;
                      }))))))

  module _ (ns_selector : Selector) (query : Option Query) (R : Pod → Type 0) where
    abbrev Kept : Pod → Type 0
    Kept pod = R pod × IsCandidate env ns_selector query pod

    All-Kept :
        (b : Bool) (pod : Pod) (rest : List Pod)
        → R pod
        → (b ≡ true → IsCandidate env ns_selector query pod)
        → All Kept rest
        → All Kept (if b then pod ∷ rest else rest)
    All-Kept true pod rest r c ps = ((r, c refl), ps)
    All-Kept false pod rest r c ps = ps

    filter_pods-IsCandidate :
        (pods : List Pod) → All R pods → Keeps (filter_pods env ns_selector query pods) (All Kept)
    unfolding filter_pods
    filter_pods-IsCandidate [] ps = Triple-pure _ tt
    filter_pods-IsCandidate (pod ∷ pods) ps =
        Triple-bind _ _ _ (is_candidate-IsCandidate pod ns_selector query) (λ b k.
          Triple-bind _ _ _ (filter_pods-IsCandidate pods ps.1)
            (λ rest ks. Triple-pure _ (All-Kept b pod rest ps.0 k ks)))

  -- The candidates of a node.
  pub pods-IsCandidate :
      (ns_selector : Selector) (query : Option Query) (node : Node)
      → Keeps
          (get_deletion_candidate_pods_for_node env ns_selector query node)
          (All (λ pod. IsListed env node pod × IsCandidate env ns_selector query pod))
  unfolding get_deletion_candidate_pods_for_node
  pods-IsCandidate ns_selector query node =
      Triple-bind _ _ _
        (Triple-context _ _ (Triple-send_shown env.server (list_pods _) (λ h p. (tt, p))))
        (λ pods shown.
          filter_pods-IsCandidate ns_selector query (IsListed env node) pods
            (All-listed shown.0 pods shown.1 pods (λ a m. m)))
    where
      All-listed :
          (h : History) (all : List Pod)
          → env.server h (list_pods node.meta.name) ≡ ok all
          → (xs : List Pod) → ((a : Pod) → Memᴰ a xs → Memᴰ a all)
          → All (IsListed env node) xs
      All-listed h all e [] k = tt
      All-listed h all e (x ∷ xs) k = (
        record { at = h; pods = all; answer = e; member = k x (Memᴰ.head refl) },
        All-listed h all e xs (λ a m. k a (Memᴰ.tail m)),
      )
