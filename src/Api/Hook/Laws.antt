-- ===== src/Api/Hook/Laws.antt =====
-- What claiming promises: a hook that runs for the next job only is held by one job.
use openshift_upgrade_contro.Prelude.{true, false, ◌≡◌, ◌↔◌, ◌≢◌, arith, eq_iff}
use openshift_upgrade_contro.Api.Hook.{
  run_next, get_run, ClaimReference, no_claim, eqb_claim, UpgradeJobHook, Claimer,
  build_claim_reference, claim, would_execute,
}

pub eqb_claim_iff : (a b : ClaimReference) → (eqb_claim a b ≡ true) ↔ (a ≡ b)
unfolding eqb_claim
eqb_claim_iff a b = (
  λ h. ground (
    arith,
    eq_iff a.api_version b.api_version,
    eq_iff a.kind b.kind,
    eq_iff a.name b.name,
    eq_iff a.uid b.uid,
  ),
  λ h. ground (
    arith,
    eq_iff a.api_version b.api_version,
    eq_iff a.kind b.kind,
    eq_iff a.name b.name,
    eq_iff a.uid b.uid,
  ),
)

-- `WouldExecute` foretells the first result of `Claim`.
pub would_execute-eq-claim : (u : UpgradeJobHook) (c : Claimer) → would_execute u c ≡ (claim u c).1
unfolding would_execute claim
would_execute-eq-claim u c = ground arith

-- A hook with `run: Next` that a job has claimed: the claim names the job, the same job may claim it
-- again, which changes nothing, and a job with another reference is refused and changes nothing.
pub claim_exclusive :
    (u : UpgradeJobHook) (c d : Claimer)
    → get_run u.spec ≡ run_next
    → (claim u c).1 ≡ true
    → build_claim_reference c ≢ no_claim
    → build_claim_reference c ≢ build_claim_reference d
    → let u' = (claim u c).0 in
      (u'.claimed_by ≡ build_claim_reference c)
      × (claim u' c ≡ (u', true, false))
      × (claim u' d ≡ (u', false, false))
unfolding claim
claim_exclusive u c d next claimed real other =
    let a = eqb_claim_iff u.claimed_by (build_claim_reference c) in
    let b = eqb_claim_iff u.claimed_by no_claim in
    let e = eqb_claim_iff (build_claim_reference c) (build_claim_reference d) in
    let f = eqb_claim_iff u.claimed_by (build_claim_reference d) in
    let g = eqb_claim_iff (build_claim_reference c) no_claim in
    let i = eqb_claim_iff (build_claim_reference c) (build_claim_reference c) in
    let n = eq_iff (get_run u.spec) run_next in (ground arith, ground arith, ground arith)
