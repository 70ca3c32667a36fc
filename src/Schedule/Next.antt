-- ===== src/Schedule/Next.antt =====
-- The search of `Next`: which runs of the cron schedule it passes over and which it returns.
use openshift_upgrade_contro.Prelude.{
  ℕ, zero, suc, ◌<◌, ◌≡◌, ◌∙◌, sym, ap, ◌↔◌, inl, inr, Bool, true, false, arith,
}
use openshift_upgrade_contro.Api.Time.{Time}
use openshift_upgrade_contro.Exec.{Result, ok, err, Result-cases}
use openshift_upgrade_contro.Schedule.{Schedule, check_iso_week, max_runs, next_loop, next}

module _ (s : Schedule) where
  -- The n-th run of the cron schedule after a run.
  abbrev pub run_after : Time → ℕ → Time
  run_after t zero = t
  run_after t (suc n) = run_after (s.cron_next t) n

  -- The verdict on the week of an instant.
  abbrev pub verdict : Time → Result Bool
  verdict t = check_iso_week (s.iso_week_of t) s.iso_week

  -- Run `n` passes, and those before it do not.
  abbrev pub FirstMatch : Time → ℕ → Type 0
  FirstMatch t zero = verdict t ≡ ok true
  FirstMatch t (suc n) = (verdict t ≡ ok false) × FirstMatch (s.cron_next t) n

  next_loop_finds :
      (k n : ℕ) (t : Time) → n < k → FirstMatch t n → next_loop s k t ≡ ok (run_after t n)
  unfolding next_loop
  next_loop_finds zero n t h m = elim h [ ]
  next_loop_finds (suc k) zero t h m = rw (m, next_loop)
  next_loop_finds (suc k) (suc n) t h m =
      rw (m.0, next_loop) (next_loop_finds k n (s.cron_next t) (omega arith) m.1)

  abbrev pub Found : ℕ → Time → Time → Type 0
  Found k t r = (n : ℕ) × (n < k) × FirstMatch t n × (r ≡ run_after t n)

  Found-suc :
      (k : ℕ) (t r : Time) → verdict t ≡ ok false → Found k (s.cron_next t) r → Found (suc k) t r
  Found-suc k t r v (n, lt, m, q) = (suc n, omega arith, (v, m), q)

  next_loop-Found : (k : ℕ) (t r : Time) → next_loop s k t ≡ ok r → Found k t r
  unfolding next_loop
  next_loop-Found zero t r h = cc
  next_loop-Found (suc k) t r h = elim (Result-cases (verdict t)) [
    | inl (e, q) ↦ let h' : err e ≡ ok r = rw (q, next_loop) at h in cc
    | inr (true, q) ↦ let h' : ok t ≡ ok r = rw (q, next_loop) at h in (0, omega arith, q, cc)
    | inr (false, q) ↦
        let h' : next_loop s k (s.cron_next t) ≡ ok r = rw (q, next_loop) at h in
        Found-suc k t r q (next_loop-Found k (s.cron_next t) r h')
  ]

  -- `Next` returns `r` exactly if `r` is the first of the next 1000 runs of the cron schedule whose
  -- ISO week passes, and the week of each run before it was read without an error.
  pub next-FirstMatch :
      (earliest r : Time) → (next s earliest ≡ ok r) ↔ Found max_runs (s.cron_next earliest) r
  unfolding next
  next-FirstMatch earliest r = (
    next_loop-Found max_runs (s.cron_next earliest) r,
    λ f.
        next_loop_finds max_runs f.0 (s.cron_next earliest) f.1 f.2
        ∙ ap (λ (t : Time). ok t) (sym f.3),
  )
