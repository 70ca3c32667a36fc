-- ===== src/Api/Duration.antt =====
-- Arithmetic on `time.Duration`, an int64: it wraps around, while `Sub` of two instants saturates.
use openshift_upgrade_contro.Prelude.{
  ℕ, ◌+◌, ◌-◌, ◌*◌, ◌%◌, ◌≤◌, ◌≡◌, refl, true, false, ◌↔◌, ◌⊎◌, inl, inr, Bool-cases, leb, arith,
  if◌then◌else◌,
}
use openshift_upgrade_contro.Prelude.Int.{
  ℤ, pos, negsuc, pos_part, neg_part, ◌+ℤ◌, ◌-ℤ◌, ◌≤ℤ◌, ◌<ℤ◌, ltb_ℤ, int_laws,
}
use openshift_upgrade_contro.Api.Time.{Time, Duration, max_int64, sub_time, saturate}

-- 2 ^ 64
abbrev pub word : ℕ
word = 18446744073709551616

-- The int64 with the lowest 64 bits of an integer; `negsuc n` is -(n + 1).
unfoldable pub wrap_int64 : ℤ → Duration
wrap_int64 (pos n) =
    if leb (n % word) max_int64 then pos (n % word) else negsuc (word - 1 - n % word)
wrap_int64 (negsuc n) =
    if leb (n % word) max_int64 then negsuc (n % word) else pos (word - 1 - n % word)

unfoldable pub add_duration : Duration → Duration → Duration
unfolding wrap_int64 ◌+ℤ◌
add_duration a b = wrap_int64 (a +ℤ b)

unfoldable pub sub_duration : Duration → Duration → Duration
unfolding wrap_int64 ◌-ℤ◌
sub_duration a b = wrap_int64 (a -ℤ b)

-- time.Duration(n) * time.Second
unfoldable pub seconds : ℤ → Duration
unfolding wrap_int64
seconds (pos n) = wrap_int64 (pos (n * 1000000000))
seconds (negsuc n) = wrap_int64 (negsuc (n * 1000000000 + 999999999))

-- d > 0
abbrev pub is_positive : Duration → openshift_upgrade_contro.Prelude.Bool
is_positive d = ltb_ℤ (pos 0) d

-- An int64.
pub record IsInt64 (d : ℤ) : Type 0 where
  pub above : neg_part d ≤ max_int64 + 1
  pub below : pos_part d ≤ max_int64

wrap_int64_exact : (d : ℤ) → IsInt64 d → wrap_int64 d ≡ d
unfolding wrap_int64
wrap_int64_exact (pos n) b = ground arith
wrap_int64_exact (negsuc n) b = ground arith

add_duration_exact : (a b : Duration) → IsInt64 (a +ℤ b) → add_duration a b ≡ a +ℤ b
unfolding add_duration
add_duration_exact a b i = wrap_int64_exact (a +ℤ b) i

-- `Sub` is exact, or stops at the smallest int64.
saturate_past :
    (d : ℤ)
    → d ≤ℤ pos 0
    → IsInt64 (saturate d)
      × (saturate d ≤ℤ pos 0)
      × ((saturate d ≡ d)
          ⊎ ((saturate d <ℤ negsuc (max_int64 - 1)) × (d <ℤ negsuc (max_int64 - 1))))
saturate_past (pos n) h =
    let e : n ≡ 0 = omega arith in
    (record { above = ground arith; below = ground arith }, ground arith, inl (ground arith))
saturate_past (negsuc n) h = elim (Bool-cases (leb n max_int64)) [
  | inl le ↦
      (record { above = ground arith; below = ground arith }, ground arith, inl (ground arith))
  | inr gt ↦ (
    record { above = ground arith; below = ground arith },
    ground arith,
    inr (ground arith, ground arith),
  )
]

is_positive→lt : (d : Duration) → is_positive d ≡ true → pos 0 <ℤ d
is_positive→lt d h = ground arith

lt→is_positive : (d : Duration) → pos 0 <ℤ d → is_positive d ≡ true
lt→is_positive d h = ground arith

past_sum :
    (d grace : Duration)
    → IsInt64 d
    → d ≤ℤ pos 0
    → IsInt64 grace
    → pos 0 ≤ℤ grace
    → IsInt64 (d +ℤ grace)
unfolding ◌+ℤ◌
past_sum d grace i h b nonneg = record { above = ground arith; below = ground arith }

-- For an instant that is not in the future and a grace period, the time that is left is positive exactly
-- if the grace period is not over.
pub time_left_lem :
    (from now : Time) (grace : Duration)
    → from ≤ℤ now
    → IsInt64 grace
    → pos 0 ≤ℤ grace
    → (is_positive (add_duration (sub_time from now) grace) ≡ true) ↔ (now <ℤ from +ℤ grace)
unfolding sub_time
time_left_lem from now grace past b nonneg =
    let d : Duration = from -ℤ now in
    let s = saturate_past d (omega (int_laws, past)) in
    let e = add_duration_exact (saturate d) grace (past_sum (saturate d) grace s.0 s.1 b nonneg) in
    rw e (elim s.2 [
      | inl q ↦ rw q (
        (λ h. let l = is_positive→lt _ h in omega int_laws),
        (λ h. lt→is_positive _ (omega int_laws)),
      )
      | inr q ↦ (
        (λ h. let l = is_positive→lt (saturate d +ℤ grace) h in absurd (omega (int_laws))),
        (λ h. absurd (omega int_laws)),
      )
    ])
