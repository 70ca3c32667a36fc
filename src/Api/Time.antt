-- ===== src/Api/Time.antt =====
-- Go's `time.Time` and `time.Duration`. An instant is a number of nanoseconds since the zero time
-- (January 1 of year 1), so `IsZero` is a test for 0; a duration is a signed number of nanoseconds.
use mathlib.Core.Bool.{Bool}
use openshift_upgrade_contro.Prelude.{ℕ, min}
use openshift_upgrade_contro.Prelude.Int.{ℤ, pos, negsuc, ◌+ℤ◌, ◌-ℤ◌, ltb_ℤ, eqb_ℤ}

abbrev pub Time : Type 0
Time = ℤ

abbrev pub Duration : Type 0
Duration = ℤ

abbrev pub zero_time : Time
zero_time = pos 0

-- The bound of an int64.
abbrev pub max_int64 : ℕ
max_int64 = 9223372036854775807

-- `Sub` saturates at the smallest and the largest duration.
abbrev pub saturate : ℤ → Duration
saturate (pos n) = pos (min n max_int64)
saturate (negsuc n) = negsuc (min n max_int64)

-- t.Sub(u)
unfoldable pub sub_time : Time → Time → Duration
unfolding ◌-ℤ◌
sub_time t u = saturate (t -ℤ u)

-- t.Add(d)
unfoldable pub add_time : Time → Duration → Time
unfolding ◌+ℤ◌
add_time t d = t +ℤ d

-- t.Before(u)
abbrev pub before : Time → Time → Bool
before t u = ltb_ℤ t u

-- t.After(u)
abbrev pub after : Time → Time → Bool
after t u = ltb_ℤ u t

-- t.Equal(u)
abbrev pub equal : Time → Time → Bool
equal t u = eqb_ℤ t u

-- t.IsZero()
abbrev pub is_zero : Time → Bool
is_zero t = eqb_ℤ t zero_time
