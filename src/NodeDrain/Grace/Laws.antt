-- ===== src/NodeDrain/Grace/Laws.antt =====
-- The timeouts and the time of the next reconciliation.
use mathlib.Core.List.{Memᴰ}
use openshift_upgrade_contro.Prelude.{
  ◌≡◌, refl, Bool, true, false, ◌&&◌, ◌||◌, not, ◌⊎◌, inl, inr, List, [], ◌∷◌, All, Bool-cases,
  arith, if◌then◌else◌,
}
use openshift_upgrade_contro.Prelude.Int.{pos, ◌≤ℤ◌, ◌<ℤ◌, ltb_ℤ}
use openshift_upgrade_contro.Api.Time.{Duration}
use openshift_upgrade_contro.Api.Duration.{is_positive}
use openshift_upgrade_contro.NodeDrain.{Env}
use openshift_upgrade_contro.NodeDrain.Grace.{is_none, sooner, requeue_after}

-- `r` comes before every timeout that is set, and is one of them or 0.
pub record IsSoonest (r : Duration) (timeouts : List Duration) : Type 0 where
  pub nonneg : pos 0 ≤ℤ r
  pub first : All (λ c. pos 0 <ℤ c → (pos 0 <ℤ r) × (r ≤ℤ c)) timeouts
  pub known : (r ≡ pos 0) ⊎ Memᴰ r timeouts

abbrev IsSooner : Duration → Duration → Duration → Type 0
IsSooner r c s = ((s ≡ r) ⊎ (s ≡ c)) × (pos 0 <ℤ s) × (s ≤ℤ c) × (pos 0 <ℤ r → s ≤ℤ r)

none→le : (r : Duration) → is_none r ≡ true → pos 0 <ℤ r → r <ℤ r
none→le r z p = ground arith

sooner-IsSooner : (r c : Duration) → pos 0 ≤ℤ r → pos 0 <ℤ c → IsSooner r c (sooner r c)
unfolding sooner
sooner-IsSooner r c nr pc = elim (Bool-cases (is_none r)) [
  | inl z ↦ rw z (inr refl, pc, omega arith, λ p. let q = none→le r z p in absurd (omega arith))
  | inr z ↦ elim (Bool-cases (ltb_ℤ c r)) [
    | inl l ↦ rw (z, l) (inr refl, pc, ground arith, λ p. ground arith)
    | inr l ↦ rw (z, l) (inl refl, ground arith, ground arith, λ p. ground arith)
  ]
]

module _ (r c : Duration) (cs : List Duration) where
  weaken_first :
      (s : Duration) (ds : List Duration)
      → pos 0 <ℤ s
      → (pos 0 <ℤ r → s ≤ℤ r)
      → All (λ d. pos 0 <ℤ d → (pos 0 <ℤ r) × (r ≤ℤ d)) ds
      → All (λ d. pos 0 <ℤ d → (pos 0 <ℤ s) × (s ≤ℤ d)) ds
  weaken_first s [] p le ps = tt
  weaken_first s (d ∷ ds) p le ps =
      ((λ h. let (a, b) = ps.0 h in let q = le a in (p, omega arith)), weaken_first s ds p le ps.1)

  -- A timeout that is set.
  sooner-IsSoonest : IsSoonest r cs → pos 0 <ℤ c → IsSoonest (sooner r c) (c ∷ cs)
  sooner-IsSoonest i pc =
      let (eq, p, le, keeps) = sooner-IsSooner r c i.nonneg pc in
      record {
        nonneg = omega arith;
        first = ((λ h. (p, le)), weaken_first (sooner r c) cs p keeps i.first);
        known = elim eq [
          | inl e ↦ elim i.known [ inl z ↦ inl (cc) | inr m ↦ inr (rw e (Memᴰ.tail m)) ]
          | inr e ↦ inr (Memᴰ.head e)
        ];
      }

  -- A timeout that is not set.
  unset-IsSoonest : IsSoonest r cs → c ≤ℤ pos 0 → IsSoonest r (c ∷ cs)
  unset-IsSoonest i nc = record {
    nonneg = i.nonneg;
    first = ((λ h. absurd (omega arith)), i.first);
    known = elim i.known [ inl z ↦ inl z | inr m ↦ inr (Memᴰ.tail m) ];
  }

positive_eq : (g : Duration) → pos 0 ≤ℤ g → not (is_none g) ≡ is_positive g
positive_eq g h = ground arith

most_eq :
    (r most : Duration) (b : Bool)
    → (if b && (is_positive most && (is_none r || ltb_ℤ most r)) then most else r)
      ≡ (if b && is_positive most then sooner r most else r)
unfolding sooner
most_eq r most true = ground arith
most_eq r most false = refl

add_if-IsSoonest :
    (b : Bool) (r c : Duration) (cs : List Duration)
    → IsSoonest r cs
    → IsSoonest (if b && is_positive c then sooner r c else r) ((if b then c else pos 0) ∷ cs)
add_if-IsSoonest false r c cs i = unset-IsSoonest r (pos 0) cs i (omega arith)
add_if-IsSoonest true r c cs i = elim (Bool-cases (is_positive c)) [
  | inl p ↦ rw p (sooner-IsSoonest r c cs i (ground arith))
  | inr n ↦ rw n (unset-IsSoonest r c cs i (ground arith))
]

module _ (env : Env) where
  -- The timeouts of a reconciliation, 0 where one does not apply.
  abbrev pub timeouts_of : Duration → Bool → Duration → Duration → Bool → List Duration
  timeouts_of until deleted pod_grace force draining =
      (if draining then env.max_reconcile_interval else pos 0)
      ∷ force
      ∷ (if deleted then pod_grace else pos 0)
      ∷ until
      ∷ []

  -- The reconciliation asks to be repeated at the soonest of its timeouts: the end of a node's grace
  -- period, the pod grace period if a pod was deleted, the end of a pod's grace period and, if a node is
  -- draining, the longest interval. It asks for nothing if none of them is set. No grace period is
  -- negative.
  pub requeue_after-IsSoonest :
      (until pod_grace force : Duration) (deleted draining : Bool)
      → pos 0 ≤ℤ until
      → pos 0 ≤ℤ pod_grace
      → IsSoonest
          (requeue_after env until deleted pod_grace force draining)
          (timeouts_of until deleted pod_grace force draining)
  unfolding requeue_after
  requeue_after-IsSoonest until pod_grace force deleted draining nu ng =
      let r' = if deleted && is_positive pod_grace then sooner until pod_grace else until in
      let r'' = if is_positive force then sooner r' force else r' in
      let i : IsSoonest until (until ∷ []) = record {
        nonneg = nu;
        first = ((λ h. (h, omega arith)), tt);
        known = inr (Memᴰ.head refl);
      } in
      let i' = add_if-IsSoonest deleted until pod_grace (until ∷ []) i in
      let i'' = add_if-IsSoonest true r' force _ i' in
      rw (positive_eq pod_grace ng) (
        rw (most_eq r'' env.max_reconcile_interval draining)
          (add_if-IsSoonest draining r'' env.max_reconcile_interval _ i''))
