-- ===== src/UpgradeConfig/Select/Laws.antt =====
-- The latest job of a config.
use mathlib.Core.List.{Memᴰ}
use openshift_upgrade_contro.Prelude.{
  ◌≡◌, refl, ◌⊎◌, inl, inr, Bool-cases, none, some, List, [], ◌∷◌, All, arith,
}
use openshift_upgrade_contro.Prelude.Int.{◌≤ℤ◌, ltb_ℤ→le, ltb_ℤ→lt, ◌<ℤ◌}
use openshift_upgrade_contro.Api.Time.{after}
use openshift_upgrade_contro.Api.Job.{UpgradeJob}
use openshift_upgrade_contro.UpgradeConfig.Select.{latest_loop, latest_scheduled_job}

abbrev pub StartsBy : UpgradeJob → UpgradeJob → Type 0
StartsBy l j = j.spec.start_after ≤ℤ l.spec.start_after

-- `l` is the latest of `jobs` and one more.
abbrev Latest : UpgradeJob → List UpgradeJob → UpgradeJob → Type 0
Latest k jobs l = ((l ≡ k) ⊎ Memᴰ l jobs) × StartsBy l k × All (StartsBy l) jobs

le_refl : (j : UpgradeJob) → StartsBy j j
le_refl j = omega arith

starts_trans :
    (l j k : UpgradeJob) → k.spec.start_after <ℤ j.spec.start_after → StartsBy l j → StartsBy l k
starts_trans l j k lt b = omega arith

starts_le :
    (l k j : UpgradeJob) → j.spec.start_after ≤ℤ k.spec.start_after → StartsBy l k → StartsBy l j
starts_le l k j le b = omega arith

mem_cons : (l j : UpgradeJob) (jobs : List UpgradeJob) → (l ≡ j) ⊎ Memᴰ l jobs → Memᴰ l (j ∷ jobs)
mem_cons l j jobs (inl e) = Memᴰ.head e
mem_cons l j jobs (inr m) = Memᴰ.tail m

mem_skip :
    (l k j : UpgradeJob) (jobs : List UpgradeJob)
    → (l ≡ k) ⊎ Memᴰ l jobs
    → (l ≡ k) ⊎ Memᴰ l (j ∷ jobs)
mem_skip l k j jobs (inl e) = inl e
mem_skip l k j jobs (inr m) = inr (Memᴰ.tail m)

latest_loop-Latest :
    (k : UpgradeJob) (jobs : List UpgradeJob)
    → (l : UpgradeJob) × (latest_loop (some k) jobs ≡ some l) × Latest k jobs l
unfolding latest_loop
latest_loop-Latest k [] = (k, refl, (inl refl, le_refl k, tt))
latest_loop-Latest k (j ∷ jobs) = elim (Bool-cases (after j.spec.start_after k.spec.start_after)) [
  | inl h ↦
      let (l, e, (m, b, all)) = latest_loop-Latest j jobs in
      let lt = ltb_ℤ→lt k.spec.start_after j.spec.start_after h in
      (l, rw (h, latest_loop) e, (inr (mem_cons l j jobs m), starts_trans l j k lt b, (b, all)))
  | inr h ↦
      let (l, e, (m, b, all)) = latest_loop-Latest k jobs in
      let le = ltb_ℤ→le k.spec.start_after j.spec.start_after h in
      (l, rw (h, latest_loop) e, (mem_skip l k j jobs m, b, (starts_le l k j le b, all)))
]

-- `latestScheduledJob` returns nothing only for an empty list; otherwise one of the jobs, and none of
-- them starts after it.
pub latest_scheduled_job-is_max :
    (jobs : List UpgradeJob)
    → ((jobs ≡ []) × (latest_scheduled_job jobs ≡ none))
      ⊎ ((l : UpgradeJob) × (latest_scheduled_job jobs ≡ some l)
          × Memᴰ l jobs
          × All (StartsBy l) jobs)
unfolding latest_scheduled_job latest_loop
latest_scheduled_job-is_max [] = inl (refl, refl)
latest_scheduled_job-is_max (j ∷ jobs) =
    let (l, e, (m, b, all)) = latest_loop-Latest j jobs in inr (l, e, mem_cons l j jobs m, (b, all))
