-- ===== src/UpgradeConfig/Window/Laws.antt =====
-- Which run of the schedule a job is created for.
use openshift_upgrade_contro.Prelude.{
  ℕ, zero, suc, ◌<◌, ◌≡◌, refl, sym, ◌↔◌, inl, inr, true, false, Bool-cases, arith,
}
use openshift_upgrade_contro.Prelude.Int.{◌≤ℤ◌, ◌<ℤ◌, ltb_ℤ→le, ltb_ℤ→lt}
use openshift_upgrade_contro.Api.Time.{Time, before, after, sub_time}
use openshift_upgrade_contro.Api.Config.{UpgradeConfigSpec}
use openshift_upgrade_contro.Exec.{ok, err, wrap, Result-cases}
use openshift_upgrade_contro.Schedule.{Schedule, next}
use openshift_upgrade_contro.UpgradeConfig.Window.{
  too_early, in_window, window_start, window_end, find_next_run, max_attempts,
}

module _ (sched : Schedule) (spec : UpgradeConfigSpec) (now : Time) where
  -- The window of a run is over.
  abbrev pub IsOver : Time → Type 0
  IsOver t = (window_start spec t ≤ℤ now) × (window_end spec t <ℤ now)

  abbrev pub IsOpen : Time → Type 0
  IsOpen t = (window_start spec t ≤ℤ now) × (now ≤ℤ window_end spec t)

  -- `t` is the run after `run` and after `n` runs whose windows are over.
  abbrev pub RunAfterMissed : ℕ → Time → Time → Type 0
  RunAfterMissed zero run t = next sched run ≡ ok t
  RunAfterMissed (suc n) run t =
      (u : Time) × (next sched run ≡ ok u) × IsOver u × RunAfterMissed n u t

  abbrev pub FoundOpen : ℕ → Time → Time → Type 0
  FoundOpen k run t = (n : ℕ) × (n < k) × RunAfterMissed n run t × IsOpen t

  not_before : (t : Time) → window_start spec t ≤ℤ now → before now (window_start spec t) ≡ false
  not_before t h = ground arith

  not_after : (t : Time) → now ≤ℤ window_end spec t → after now (window_end spec t) ≡ false
  not_after t h = ground arith

  is_after : (t : Time) → window_end spec t <ℤ now → after now (window_end spec t) ≡ true
  is_after t h = ground arith

  open_found :
      (k n : ℕ) (run t : Time)
      → n < k
      → RunAfterMissed n run t
      → IsOpen t
      → find_next_run sched spec now k run ≡ ok (in_window t)
  unfolding find_next_run
  open_found zero n run t lt m o = elim lt [ ]
  open_found (suc k) zero run t lt m o =
      rw (m, find_next_run) (rw (not_before t o.0) (rw (not_after t o.1) refl))
  open_found (suc k) (suc n) run t lt (u, q, over, m) o =
      rw (q, find_next_run)
        (rw (not_before u over.0) (rw (is_after u over.1) (open_found k n u t (omega arith) m o)))

  FoundOpen-suc :
      (k : ℕ) (run u t : Time)
      → next sched run ≡ ok u
      → IsOver u
      → FoundOpen k u t
      → FoundOpen (suc k) run t
  FoundOpen-suc k run u t q over (n, lt, m, o) = (suc n, omega arith, (u, q, over, m), o)

  found_open :
      (k : ℕ) (run t : Time)
      → find_next_run sched spec now k run ≡ ok (in_window t)
      → FoundOpen k run t
  unfolding find_next_run
  found_open zero run t h = cc
  found_open (suc k) run t h = elim (Result-cases (next sched run)) [
    | inl (e, q) ↦
        let h' : err (wrap "could not find next run" e) ≡ ok (in_window t) =
          rw (q, find_next_run) at h in
        cc
    | inr (u, q) ↦ elim (Bool-cases (before now (window_start spec u))) [
      | inl b ↦
          let h' : ok (too_early (sub_time (window_start spec u) now)) ≡ ok (in_window t) =
            rw (q, find_next_run, b) at h in
          cc
      | inr nb ↦ elim (Bool-cases (after now (window_end spec u))) [
        | inl a ↦
            FoundOpen-suc k run u t q
              (ltb_ℤ→le now (window_start spec u) nb, ltb_ℤ→lt (window_end spec u) now a)
              (found_open k u t (rw (q, find_next_run, nb, a) at h))
        | inr na ↦
            let h' : ok (in_window u) ≡ ok (in_window t) = rw (q, find_next_run, nb, na) at h in
            let e : u ≡ t = cc in
            (
              0,
              omega arith,
              rw (sym e) q,
              rw (sym e)
                  (ltb_ℤ→le now (window_start spec u) nb, ltb_ℤ→le (window_end spec u) now na),
            )
      ]
    ]
  ]

  -- The search finds an open window for the run `t` exactly if `t` comes after fewer than 101 runs of
  -- the schedule whose windows are over, and its own window is open: it began at its start less the
  -- time that the version is pinned, and the scheduling delay has not run out.
  pub find_next_run-FoundOpen :
      (run t : Time)
      → (find_next_run sched spec now max_attempts run ≡ ok (in_window t))
        ↔ FoundOpen max_attempts run t
  find_next_run-FoundOpen run t =
      (found_open max_attempts run t, λ f. open_found max_attempts f.0 run t f.1 f.2 f.3)
