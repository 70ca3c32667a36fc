-- ===== src/Schedule.antt =====
-- pkg/schedule/schedule.go: the next activations of a cron schedule in the weeks that are asked for.
-- The cron library's `Next` and the ISO week of an instant, which depends on its time zone, are
-- parameters.
pub mod Digits
pub mod Next
pub mod NextN
use openshift_upgrade_contro.Prelude.{
  ℕ, zero, suc, ◌%◌, ◌==◌, String, ◌<>◌, str_eq, Bool, true, false, Option, none, some, List, [],
  ◌∷◌, if◌then◌else◌,
}
use openshift_upgrade_contro.Prelude.Int.{pos, eqb_ℤ}
use openshift_upgrade_contro.Api.Time.{Time}
use openshift_upgrade_contro.Exec.{Error, failure, wrap, Result, ok, err}
use openshift_upgrade_contro.Schedule.Digits.{parse_int}

-- ErrNoNextFound
abbrev pub no_next_found : Error
no_next_found = failure "no next time found"

pub record Schedule : Type 0 where
  pub cron_next : Time → Time
  pub iso_week_of : Time → ℕ
  pub iso_week : String

unfoldable pub check_iso_week : ℕ → String → Result Bool
unfolding parse_int
check_iso_week iw week =
    if str_eq week ""
    then ok true
    else if str_eq week "@even"
    then ok ((iw % 2) == 0)
    else if str_eq week "@odd"
    then ok ((iw % 2) == 1)
    else elim (parse_int week) [
      | some nw ↦ ok (eqb_ℤ nw (pos iw))
      | none ↦ err (failure ("unknown iso week: " <> week))
    ]

-- The bound on the runs that are looked at.
abbrev pub max_runs : ℕ
max_runs = 1000

module _ (s : Schedule) where
  -- The loop of `Next`, with the rounds that are left.
  unfoldable pub next_loop : ℕ → Time → Result Time
  next_loop zero n = err (wrap "could not find next scheduled time" no_next_found)
  next_loop (suc k) n = elim (check_iso_week (s.iso_week_of n) s.iso_week) [
    | err e ↦ err e
    | ok b ↦ elim b [ true ↦ ok n | false ↦ next_loop k (s.cron_next n) ]
  ]

  unfoldable pub next : Time → Result Time
  next earliest = next_loop max_runs (s.cron_next earliest)

  -- The times that were found, and the error that ended the search.
  unfoldable pub next_n : Time → ℕ → List Time × Option Error
  next_n earliest zero = ([], none)
  next_n earliest (suc n) = elim (next earliest) [
    | err e ↦ ([], some e)
    | ok t ↦ let (ts, e) = next_n t n in (t ∷ ts, e)
  ]
