-- ===== src/NodeDrain/Observe/Rounds.antt =====
-- Repeated reconciliations that observe drains.
use openshift_upgrade_contro.Prelude.{
  ℕ, suc, ◌-◌, ◌≤◌, ◌≡◌, refl, subst, String, str_eq, eq_iff, eq_refl, Bool, true, false, not, none,
  some, List, [], ◌∷◌, find_first, length, All, if◌then◌else◌, Bool-cases, Option-cases, inl, inr,
  arith,
}
use openshift_upgrade_contro.Api.Time.{Time}
use openshift_upgrade_contro.Api.Upstream.{Node}
use openshift_upgrade_contro.Api.Drain.{NodeForceDrain, ObservedNodeDrain}
use openshift_upgrade_contro.Exec.{ok, History, result_case}
use openshift_upgrade_contro.NodeDrain.{Env}
use openshift_upgrade_contro.NodeDrain.Observe.{
  drain_id, find_last_observed_node_drain, renew_observation, add_observation, observe_drains,
}
use openshift_upgrade_contro.NodeDrain.Observe.Laws.{
  is_observed, record_drain, first_unobserved, observe_drains-eq, All-observed,
}

abbrev has_name : String → ObservedNodeDrain → Bool
has_name name o = str_eq o.node_name name

abbrev new_observation : String → String → Time → ObservedNodeDrain
new_observation name id now = record {
  node_name = name;
  last_applied_drain = id;
  observed_time = now;
}

find-add_self :
    (name id : String) (now : Time) (os : List ObservedNodeDrain)
    → find_first (has_name name) os ≡ none
    → find_first (has_name name) (add_observation name id now os)
      ≡ some (new_observation name id now)
unfolding add_observation
find-add_self name id now [] e = rw (eq_refl name) refl
find-add_self name id now (o ∷ os) e = elim (Bool-cases (str_eq o.node_name name)) [
  | inl b ↦ let e' : some o ≡ none = rw b at e in cc
  | inr b ↦ rw b (find-add_self name id now os (rw b at e))
]

find-add_other :
    (name id other : String) (now : Time) (os : List ObservedNodeDrain)
    → str_eq name other ≡ false
    → find_first (has_name other) (add_observation name id now os) ≡ find_first (has_name other) os
unfolding add_observation
find-add_other name id other now [] e = rw e refl
find-add_other name id other now (o ∷ os) e = rw (find-add_other name id other now os e) refl

find-renew_self :
    (name id : String) (now : Time) (os : List ObservedNodeDrain) (o : ObservedNodeDrain)
    → find_first (has_name name) os ≡ some o
    → find_first (has_name name) (renew_observation name id now os)
      ≡ some (record o { last_applied_drain = id; observed_time = now })
unfolding renew_observation
find-renew_self name id now [] o e = cc
find-renew_self name id now (x ∷ os) o e = elim (Bool-cases (str_eq x.node_name name)) [
  | inl b ↦
      let e' : some x ≡ some o = rw b at e in
      let q : x ≡ o = cc in rw (b, find_first) (rw b (rw q refl))
  | inr b ↦ rw (b, find_first) (rw b (find-renew_self name id now os o (rw b at e)))
]

find-renew_other :
    (name id other : String) (now : Time) (os : List ObservedNodeDrain)
    → str_eq name other ≡ false
    → find_first (has_name other) (renew_observation name id now os)
      ≡ find_first (has_name other) os
unfolding renew_observation
find-renew_other name id other now [] e = refl
find-renew_other name id other now (x ∷ os) e = elim (Bool-cases (str_eq x.node_name name)) [
  | inl b ↦ rw b (rw ((eq_iff x.node_name name).0 b) (rw e refl))
  | inr b ↦ rw b (rw (find-renew_other name id other now os e) refl)
]

is_observed-record_self :
    (os : List ObservedNodeDrain) (n : Node) (now : Time)
    → is_observed (record_drain os n now) n ≡ true
unfolding is_observed record_drain find_last_observed_node_drain
is_observed-record_self os n now = elim (Option-cases (find_first (has_name n.meta.name) os)) [
  | inl e ↦ rw e (rw (find-add_self n.meta.name (drain_id n) now os e) (eq_refl (drain_id n)))
  | inr (o, e) ↦
      rw e (rw (find-renew_self n.meta.name (drain_id n) now os o e) (eq_refl (drain_id n)))
]

is_observed-record_other :
    (os : List ObservedNodeDrain) (n m : Node) (now : Time)
    → str_eq n.meta.name m.meta.name ≡ false
    → is_observed (record_drain os n now) m ≡ is_observed os m
unfolding is_observed record_drain find_last_observed_node_drain
is_observed-record_other os n m now d = elim (Option-cases (find_first (has_name n.meta.name) os)) [
  | inl e ↦ rw e (rw (find-add_other n.meta.name (drain_id n) m.meta.name now os d) refl)
  | inr (o, e) ↦ rw e (rw (find-renew_other n.meta.name (drain_id n) m.meta.name now os d) refl)
]

-- No two nodes have the same name.
abbrev pub HaveNames : List Node → Type 0
HaveNames [] = Unit
HaveNames (n ∷ ns) =
    All
      (λ (m : Node).
        (str_eq n.meta.name m.meta.name ≡ false) × (str_eq m.meta.name n.meta.name ≡ false))
      ns
    × HaveNames ns

count_unobserved : List ObservedNodeDrain → List Node → ℕ
count_unobserved os [] = 0
count_unobserved os (n ∷ ns) =
    if is_observed os n then count_unobserved os ns else suc (count_unobserved os ns)

count_le : (os : List ObservedNodeDrain) (ns : List Node) → count_unobserved os ns ≤ length ns
unfolding count_unobserved
count_le os [] = omega arith
count_le os (n ∷ ns) = ground (arith, count_le os ns)

count-first :
    (os : List ObservedNodeDrain) (ns : List Node)
    → count_unobserved os ns ≡ 0
    → first_unobserved os ns ≡ none
unfolding count_unobserved first_unobserved
count-first os [] e = refl
count-first os (n ∷ ns) e = elim (Bool-cases (is_observed os n)) [
  | inl b ↦ rw b (count-first os ns (rw b at e))
  | inr b ↦ let e' : suc (count_unobserved os ns) ≡ 0 = rw b at e in absurd (omega arith)
]

first-count :
    (os : List ObservedNodeDrain) (ns : List Node)
    → first_unobserved os ns ≡ none
    → count_unobserved os ns ≡ 0
unfolding count_unobserved first_unobserved
first-count os [] e = refl
first-count os (n ∷ ns) e = elim (Bool-cases (is_observed os n)) [
  | inl b ↦ rw b (first-count os ns (rw b at e))
  | inr b ↦ let e' : some n ≡ none = rw b at e in cc
]

-- What holds of all holds of the first.
All-find_first :
    (P : Node → Type 0) (p : Node → Bool) (ns : List Node) (n : Node)
    → All P ns
    → find_first p ns ≡ some n
    → P n
All-find_first P p [] n ps e = cc
All-find_first P p (m ∷ ns) n ps e = elim (Bool-cases (p m)) [
  | inl b ↦ let e' : some m ≡ some n = rw b at e in let q : m ≡ n = cc in subst P q ps.0
  | inr b ↦ All-find_first P p ns n ps.1 (rw b at e)
]

count_others :
    (os : List ObservedNodeDrain) (n : Node) (now : Time) (ns : List Node)
    → All
        (λ (m : Node).
          (str_eq n.meta.name m.meta.name ≡ false) × (str_eq m.meta.name n.meta.name ≡ false))
        ns
    → count_unobserved (record_drain os n now) ns ≡ count_unobserved os ns
unfolding count_unobserved
count_others os n now [] ps = refl
count_others os n now (m ∷ ns) ps =
    rw (is_observed-record_other os n m now ps.0.0) (rw (count_others os n now ns ps.1) refl)

count-record :
    (os : List ObservedNodeDrain) (n : Node) (now : Time) (ns : List Node)
    → HaveNames ns
    → first_unobserved os ns ≡ some n
    → suc (count_unobserved (record_drain os n now) ns) ≡ count_unobserved os ns
unfolding count_unobserved first_unobserved
count-record os n now [] d e = cc
count-record os n now (m ∷ ns) d e = elim (Bool-cases (is_observed os m)) [
  | inl b ↦
      let e' : find_first (λ (x : Node). not (is_observed os x)) ns ≡ some n = rw b at e in
      let o = All-find_first _ (λ (x : Node). not (is_observed os x)) ns n d.0 e' in
      rw (is_observed-record_other os n m now o.1) (rw b (count-record os n now ns d.1 e'))
  | inr b ↦
      let e' : some m ≡ some n = rw b at e in
      let q : m ≡ n = cc in
      subst
        (λ x.
          suc (count_unobserved (record_drain os x now) (m ∷ ns)) ≡ count_unobserved os (m ∷ ns))
        q (rw (is_observed-record_self os m now) (rw b (rw (count_others os m now ns d.0) refl)))
]

module _ (env : Env) (nodes : List Node) where
  -- The status that one observation leaves, which the server stores.
  abbrev pub after_round : NodeForceDrain → History → NodeForceDrain
  after_round fd h = result_case (observe_drains env fd false nodes h).0 (λ _. fd) (λ r. r.0)

  -- One observation from each history; what is sent between them is arbitrary.
  unfoldable pub after_rounds : NodeForceDrain → List History → NodeForceDrain
  after_rounds fd [] = fd
  after_rounds fd (h ∷ hs) = after_rounds (after_round fd h) hs

  count_round :
      (fd : NodeForceDrain) (h : History)
      → HaveNames nodes
      → count_unobserved (after_round fd h).last_observed_node_drain nodes
        ≤ count_unobserved fd.last_observed_node_drain nodes - 1
  count_round fd h d =
      let os = fd.last_observed_node_drain in
      rw (observe_drains-eq env fd nodes h) (elim (Option-cases (first_unobserved os nodes)) [
        | inl e ↦ rw e (omega (arith, first-count os nodes e))
        | inr (n, e) ↦ rw e (omega (arith, count-record os n (env.clock h) nodes d e))
      ])

  count_rounds :
      (fd : NodeForceDrain) (hs : List History)
      → HaveNames nodes
      → count_unobserved fd.last_observed_node_drain nodes ≤ length hs
      → count_unobserved (after_rounds fd hs).last_observed_node_drain nodes ≡ 0
  unfolding after_rounds
  count_rounds fd [] d le = omega arith
  count_rounds fd (h ∷ hs) d le =
      count_rounds (after_round fd h) hs d (omega (arith, count_round fd h d))

  -- The status has an entry of the node, and the first of them is of the drain that the node has now.
  abbrev pub IsRecorded : NodeForceDrain → Node → Type 0
  IsRecorded fd n =
      (o : ObservedNodeDrain) × (find_last_observed_node_drain fd.last_observed_node_drain
          n.meta.name
        ≡ some o)
      × (o.last_applied_drain ≡ drain_id n)

  recorded_lem :
      (fd : NodeForceDrain) (n : Node)
      → is_observed fd.last_observed_node_drain n ≡ true
      → IsRecorded fd n
  unfolding is_observed
  recorded_lem fd n e =
      elim (Option-cases (find_last_observed_node_drain fd.last_observed_node_drain n.meta.name)) [
        | inl q ↦ let e' : false ≡ true = rw q at e in cc
        | inr (o, q) ↦ (o, q, (eq_iff o.last_applied_drain (drain_id n)).0 (rw q at e))
      ]

  All-IsRecorded :
      (fd : NodeForceDrain) (ns : List Node)
      → All (λ n. is_observed fd.last_observed_node_drain n ≡ true) ns
      → All (IsRecorded fd) ns
  All-IsRecorded fd [] ps = tt
  All-IsRecorded fd (n ∷ ns) ps = (recorded_lem fd n ps.0, All-IsRecorded fd ns ps.1)

  observed_of :
      (fd : NodeForceDrain) (n : Node)
      → IsRecorded fd n
      → is_observed fd.last_observed_node_drain n ≡ true
  unfolding is_observed
  observed_of fd n (o, q, e) = rw q ((eq_iff o.last_applied_drain (drain_id n)).1 e)

  pub All-observed_of :
      (fd : NodeForceDrain) (ns : List Node)
      → All (IsRecorded fd) ns
      → All (λ n. is_observed fd.last_observed_node_drain n ≡ true) ns
  All-observed_of fd [] ps = tt
  All-observed_of fd (n ∷ ns) ps = (observed_of fd n ps.0, All-observed_of fd ns ps.1)

  -- Where no two draining nodes have the same name, after as many reconciliations as nodes are draining,
  -- which store what they observe, the status has the present drain of every draining node, and the
  -- next observation changes nothing and reads no clock, so that the reconciliation goes on to drain.
  pub observe_drains_ends :
      (fd : NodeForceDrain) (hs : List History)
      → HaveNames nodes
      → length nodes ≤ length hs
      → (h : History)
      → All (IsRecorded (after_rounds fd hs)) nodes
        × (observe_drains env (after_rounds fd hs) false nodes h
            ≡ (ok (after_rounds fd hs, false), h))
  observe_drains_ends fd hs d le h =
      let fd' = after_rounds fd hs in
      let c =
        count_rounds fd hs d (omega (arith, count_le fd.last_observed_node_drain nodes, le)) in
      let e = count-first fd'.last_observed_node_drain nodes c in
      (
        All-IsRecorded fd' nodes (All-observed fd'.last_observed_node_drain nodes e),
        rw (observe_drains-eq env fd' nodes h) (rw e refl),
      )
