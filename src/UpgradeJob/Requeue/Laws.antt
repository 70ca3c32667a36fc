-- ===== src/UpgradeJob/Requeue/Laws.antt =====
-- The time for which a job that waits for its pools is enqueued again.
use mathlib.Core.List.{Memᴰ}
use openshift_upgrade_contro.Prelude.{
  ◌≡◌, refl, ◌⊎◌, inl, inr, true, false, Bool-cases, List, [], ◌∷◌, All, All-mem, arith,
}
use openshift_upgrade_contro.Prelude.Int.{◌-ℤ◌, ◌≤ℤ◌, ◌<ℤ◌, ltb_ℤ, ltb_ℤ→le, ltb_ℤ→lt}
use openshift_upgrade_contro.Prelude.Sort.{sort_by}
use openshift_upgrade_contro.Prelude.Sort.Laws.{
  IsStrictWeak, IsSorted, sort_by-IsSorted, All-sort_by, All-of_All-sort_by,
}
use openshift_upgrade_contro.Api.Time.{Time, sub_time, after}
use openshift_upgrade_contro.Api.Job.{UpgradeJob}
use openshift_upgrade_contro.Exec.{History, ok, read_clock, read_now, ◌>>=◌, pure}
use openshift_upgrade_contro.UpgradeJob.Env.{Env}
use openshift_upgrade_contro.UpgradeJob.Status.{Outcome, no_requeue}
use openshift_upgrade_contro.UpgradeJob.Requeue.{
  earlier, first_after, possible_times, next_timed_reconcile,
}

-- A difference that is cut off at the bounds of a duration still has its sign.
earlier-eq-ltb : (t u : Time) → earlier t u ≡ ltb_ℤ t u
unfolding earlier sub_time ◌-ℤ◌
earlier-eq-ltb t u = ground arith

earlier-IsStrictWeak : IsStrictWeak earlier
earlier-IsStrictWeak = record {
  asym = λ t u h. ground (arith, earlier-eq-ltb t u, earlier-eq-ltb u t);
  not_trans =
      λ t u v h k. ground (arith, earlier-eq-ltb u t, earlier-eq-ltb v u, earlier-eq-ltb v t);
}

-- What `o` says of the times `ts`: none of them is to come, or `o` is the first of those to come.
abbrev pub IsFirst : Time → List Time → Outcome → Type 0
IsFirst now ts o =
    ((o ≡ no_requeue) × All (λ u. u <ℤ now) ts)
    ⊎ ((t : Time) × (o ≡ record { requeue = true; requeue_after = sub_time t now })
        × (now ≤ℤ t)
        × Memᴰ t ts
        × All (λ u. (u <ℤ now) ⊎ (t ≤ℤ u)) ts)

module _ (now : Time) (us : List Time) where
  abbrev Scan : List Time → Type 0
  Scan ts =
      ((first_after now ts ≡ no_requeue) × All (λ u. u <ℤ now) ts)
      ⊎ ((t : Time) × (first_after now ts
            ≡ record { requeue = true; requeue_after = sub_time t now })
          × (now ≤ℤ t)
          × Memᴰ t us
          × All (λ u. (u <ℤ now) ⊎ (t ≤ℤ u)) ts)

  All-later :
      (t : Time) (ts : List Time)
      → All (λ u. earlier u t ≡ false) ts
      → All (λ u. (u <ℤ now) ⊎ (t ≤ℤ u)) ts
  All-later t [] h = tt
  All-later t (u ∷ ts) h =
      (inr (ltb_ℤ→le u t (ground (arith, earlier-eq-ltb u t))), All-later t ts h.1)

  Scan-cons : (t : Time) (ts : List Time) → after now t ≡ true → Scan ts → Scan (t ∷ ts)
  unfolding first_after
  Scan-cons t ts h (inl (e, p)) = inl (rw (h, first_after) e, (ltb_ℤ→lt t now h, p))
  Scan-cons t ts h (inr (u, e, le, m, p)) =
      inr (u, rw (h, first_after) e, le, m, (inl (ltb_ℤ→lt t now h), p))

  scan : (ts : List Time) → IsSorted earlier ts → All (λ t. Memᴰ t us) ts → Scan ts
  unfolding first_after
  scan [] s m = inl (refl, tt)
  scan (t ∷ ts) s m = elim (Bool-cases (after now t)) [
    | inl h ↦ Scan-cons t ts h (scan ts s.1 m.1)
    | inr h ↦ inr (
      t,
      rw (h, first_after) refl,
      ltb_ℤ→le t now h,
      m.0,
      (inr (ltb_ℤ→le t t (ground arith)), All-later t ts s.0),
    )
  ]

  first_after-IsFirst : IsFirst now us (first_after now (sort_by earlier us))
  first_after-IsFirst =
      elim (scan (sort_by earlier us) (sort_by-IsSorted earlier earlier-IsStrictWeak us)
        (All-sort_by earlier (λ t. Memᴰ t us) us (All-mem us us (λ t m. m)))) [
          | inl (e, p) ↦ inl (e, All-of_All-sort_by earlier (λ u. u <ℤ now) us p)
          | inr (t, e, le, m, p) ↦
              inr (t, e, le, m, All-of_All-sort_by earlier (λ u. (u <ℤ now) ⊎ (t ≤ℤ u)) us p)
        ]

-- `nextTimedReconcile` never fails. Where a delay of a pool or the timeout of the job ends now or
-- later, it asks to be called again after the time to the first such end, cut off at the greatest
-- duration; where all of them are over, it asks for nothing.
pub next_timed_reconcile-IsFirst :
    (env : Env) (uj : UpgradeJob) (h : History)
    → (o : Outcome) × (next_timed_reconcile env uj h ≡ (ok o, read_clock ∷ h))
      × IsFirst (env.clock h) (possible_times uj) o
unfolding next_timed_reconcile read_now ◌>>=◌ pure
next_timed_reconcile-IsFirst env uj h = (
  first_after (env.clock h) (sort_by earlier (possible_times uj)),
  refl,
  first_after-IsFirst (env.clock h) (possible_times uj),
)
