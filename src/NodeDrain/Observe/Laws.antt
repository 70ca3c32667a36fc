-- ===== src/NodeDrain/Observe/Laws.antt =====
-- One reconciliation that observes drains, in `observe_drains` and `set_last_observed_node_drain`.
use openshift_upgrade_contro.Prelude.{
  ◌≡◌, refl, str_eq, Bool, true, false, not, Option, none, some, All, List, [], ◌∷◌, find_first,
  if◌then◌else◌, Bool-cases, Option-cases, inl, inr,
}
use openshift_upgrade_contro.Api.Time.{Time}
use openshift_upgrade_contro.Api.Upstream.{Node}
use openshift_upgrade_contro.Api.Drain.{NodeForceDrain, ObservedNodeDrain}
use openshift_upgrade_contro.Exec.{
  ok, History, read_clock, ◌>>=◌, pure, read_now, when◌then◌else◌, match_option, option_case,
}
use openshift_upgrade_contro.NodeDrain.{Env}
use openshift_upgrade_contro.NodeDrain.Observe.{
  drain_id, find_last_observed_node_drain, renew_observation, add_observation,
  set_last_observed_node_drain, observe_drains,
}

-- The status has the drain that the node has now.
unfoldable pub is_observed : List ObservedNodeDrain → Node → Bool
is_observed os node =
    option_case (find_last_observed_node_drain os node.meta.name) false
      (λ (o : ObservedNodeDrain). str_eq o.last_applied_drain (drain_id node))

-- The drain of a node is recorded, as a new entry or in the one of the node.
unfoldable pub record_drain : List ObservedNodeDrain → Node → Time → List ObservedNodeDrain
record_drain os node now =
    option_case (find_last_observed_node_drain os node.meta.name)
      (add_observation node.meta.name (drain_id node) now os)
      (λ _. renew_observation node.meta.name (drain_id node) now os)

-- The first node whose drain is not in the status.
unfoldable pub first_unobserved : List ObservedNodeDrain → List Node → Option Node
first_unobserved os nodes = find_first (λ (n : Node). not (is_observed os n)) nodes

-- Without a first node that is not observed all are.
pub All-observed :
    (os : List ObservedNodeDrain) (ns : List Node)
    → first_unobserved os ns ≡ none
    → All (λ n. is_observed os n ≡ true) ns
unfolding first_unobserved
All-observed os [] e = tt
All-observed os (n ∷ ns) e = elim (Bool-cases (is_observed os n)) [
  | inl b ↦ (b, All-observed os ns (rw b at e))
  | inr b ↦ let e' : some n ≡ none = rw b at e in cc
]

pub first-observed :
    (os : List ObservedNodeDrain) (ns : List Node)
    → All (λ n. is_observed os n ≡ true) ns
    → first_unobserved os ns ≡ none
unfolding first_unobserved
first-observed os [] ps = refl
first-observed os (n ∷ ns) ps = rw ps.0 (first-observed os ns ps.1)

abbrev pub with_drains : NodeForceDrain → List ObservedNodeDrain → NodeForceDrain
with_drains fd os = record fd { last_observed_node_drain = os }

module _ (env : Env) where
  observe_drains_changed :
      (fd : NodeForceDrain) (nodes : List Node) (h : History)
      → observe_drains env fd true nodes h ≡ (ok (fd, true), h)
  unfolding observe_drains when◌then◌else◌ pure ◌>>=◌
  observe_drains_changed fd [] h = refl
  observe_drains_changed fd (node ∷ nodes) h = observe_drains_changed fd nodes h

  set_last_observed-eq :
      (fd : NodeForceDrain) (node : Node) (h : History)
      → set_last_observed_node_drain env fd node.meta.name (drain_id node) h ≡ (
          if is_observed fd.last_observed_node_drain node then (ok (fd, false), h) else (
            ok (with_drains fd (record_drain fd.last_observed_node_drain node (env.clock h)), true),
            read_clock ∷ h,
          ))
  unfolding set_last_observed_node_drain is_observed record_drain match_option when◌then◌else◌ pure
      ◌>>=◌ read_now
  set_last_observed-eq fd node h =
      elim (Option-cases
        (find_last_observed_node_drain fd.last_observed_node_drain node.meta.name)) [
          | inl e ↦ rw e refl
          | inr (o, e) ↦ rw e (elim (Bool-cases (str_eq o.last_applied_drain (drain_id node))) [
            | inl b ↦ rw b refl
            | inr b ↦ rw b refl
          ])
        ]

  -- The loop records the drain of the first node that is not observed yet, with the time that the clock
  -- shows then, and no other; without such a node the object stays and no clock is read.
  pub observe_drains-eq :
      (fd : NodeForceDrain) (nodes : List Node) (h : History)
      → observe_drains env fd false nodes h
        ≡ option_case
            (first_unobserved fd.last_observed_node_drain nodes)
            (ok (fd, false), h)
            (λ node. (
              ok (
                with_drains fd (record_drain fd.last_observed_node_drain node (env.clock h)),
                true,
              ),
              read_clock ∷ h,
            ))
  unfolding observe_drains first_unobserved when◌then◌else◌ ◌>>=◌
  observe_drains-eq fd [] h = unfold pure in refl
  observe_drains-eq fd (node ∷ nodes) h =
      rw (set_last_observed-eq fd node h)
        (elim (Bool-cases (is_observed fd.last_observed_node_drain node)) [
          | inl e ↦ rw e (observe_drains-eq fd nodes h)
          | inr e ↦ rw e (
              observe_drains_changed
                (with_drains fd (record_drain fd.last_observed_node_drain node (env.clock h))) nodes
                (read_clock ∷ h))
        ])
