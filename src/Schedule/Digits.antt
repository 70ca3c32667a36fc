-- ===== src/Schedule/Digits.antt =====
-- `strconv.ParseInt(s, 10, 64)`: an optional sign and decimal digits, in the range of an int64.
use Prim.Native.Char.{code}
use openshift_upgrade_contro.Prelude.{
  ℕ, ◌+◌, ◌-◌, ◌*◌, ◌==◌, leb, String, ◌&&◌, Option, none, some, List, [], ◌∷◌, if◌then◌else◌, ◌≡◌,
  refl,
}
use openshift_upgrade_contro.Prelude.Int.{ℤ, pos, negsuc}
use openshift_upgrade_contro.Api.Time.{max_int64}

abbrev codes : String → List ℕ
codes String.[] = []
codes (String.◌∷◌ c s) = code c ∷ codes s

-- The digits that are left, after those that were read.
parse_digits : ℕ → List ℕ → Option ℕ
parse_digits acc [] = some acc
parse_digits acc (c ∷ cs) =
    let rest = parse_digits (acc * 10 + (c - b'0')) cs in
    if leb b'0' c && leb c b'9' then rest else none

parse_unsigned : List ℕ → Option ℕ
parse_unsigned [] = none
parse_unsigned (c ∷ cs) = parse_digits 0 (c ∷ cs)

in_range : ℤ → Option ℤ
in_range (pos n) = if leb n max_int64 then some (pos n) else none
in_range (negsuc n) = if leb n max_int64 then some (negsuc n) else none

abbrev negate : ℕ → ℤ
negate n = if n == 0 then pos 0 else negsuc (n - 1)

signed : List ℕ → Option ℤ
unfolding parse_unsigned parse_digits in_range
signed [] = none
signed (c ∷ cs) =
    if c == b'-'
    then elim (parse_unsigned cs) [ none ↦ none | some n ↦ in_range (negate n) ]
    else if c == b'+'
    then elim (parse_unsigned cs) [ none ↦ none | some n ↦ in_range (pos n) ]
    else elim (parse_unsigned (c ∷ cs)) [ none ↦ none | some n ↦ in_range (pos n) ]

unfoldable pub parse_int : String → Option ℤ
unfolding signed
parse_int s = signed (codes s)

parse_int_tests :
    (parse_int "07" ≡ some (pos 7))
    × (parse_int "-12" ≡ some (negsuc 11))
    × (parse_int "+3" ≡ some (pos 3))
    × (parse_int "" ≡ none)
    × (parse_int "@odd" ≡ none)
    × (parse_int "9223372036854775808" ≡ none)
unfolding parse_int
parse_int_tests = (refl, refl, refl, refl, refl, refl)
