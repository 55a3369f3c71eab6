-- ===== src/Analysis/Timestamp.antt =====
-- time.Parse of Go's standard library at combinedTimestampLayout, "02/Jan/2006:15:04:05 -0700", of
-- internal/analysis/engine.go: two digits for the day, minute and second, one or two for the hour,
-- a month's short name in any case, an optional fraction of a second, any spaces before the zone.
use parser_go.Prelude.{
  ℕ, zero, suc, ◌+◌, ◌-◌, ◌*◌, ◌/◌, ◌%◌, ◌^◌, Text, text, Bool, true, false, ◌&&◌, ◌||◌, Option,
  none, some, List, [], ◌∷◌, ◌==◌, ltb, leb, if◌then◌else◌, take, length, ◌≡◌, refl,
}
use parser_go.Clock.{Time}
use parser_go.Analysis.Line.{run, rest, byte, ◌>>=◌}
use parser_go.Prelude.Decimal.{is_digit, digit_value, decimal}

pub guard : Bool → Option (Unit {0})
guard true = some tt
guard false = none

abbrev ◌>>◌ {ℓ} : {B : Type ℓ} → Option (Unit {0}) → Option B → Option B
m >> k = m >>= λ _. k

infixl 5 ◌>>◌
-- getnum(value, true)
two_digits : Text → Option (ℕ × Text)
two_digits (c ∷ d ∷ s) =
    if is_digit c && is_digit d then some (digit_value c * 10 + digit_value d, s) else none
two_digits _ = none

-- getnum(value, false)
one_or_two_digits : Text → Option (ℕ × Text)
one_or_two_digits [] = none
one_or_two_digits (c ∷ []) = if is_digit c then some (digit_value c, []) else none
one_or_two_digits (c ∷ d ∷ s) =
    if is_digit c
    then if is_digit d
      then some (digit_value c * 10 + digit_value d, s)
      else some (digit_value c, d ∷ s)
    else none

four_digits : Text → Option (ℕ × Text)
four_digits (a ∷ b ∷ c ∷ d ∷ s) =
    if is_digit a && (is_digit b && (is_digit c && is_digit d))
    then some (((digit_value a * 10 + digit_value b) * 10 + digit_value c) * 10 + digit_value d, s)
    else none
four_digits _ = none

lower : ℕ → ℕ
lower c = if leb b'A' c && leb c b'Z' then c + 32 else c

month_number : ℕ → ℕ → ℕ → Option ℕ
unfolding text
month_number a b c = find_name 1 names
  where
    names : List Text
    names =
        text "jan"
        ∷ text "feb"
        ∷ text "mar"
        ∷ text "apr"
        ∷ text "may"
        ∷ text "jun"
        ∷ text "jul"
        ∷ text "aug"
        ∷ text "sep"
        ∷ text "oct"
        ∷ text "nov"
        ∷ text "dec"
        ∷ []

    matches : Text → Bool
    matches (x ∷ y ∷ z ∷ _) = (a == x) && ((b == y) && (c == z))
    matches _ = false

    find_name : ℕ → List Text → Option ℕ
    find_name n [] = none
    find_name n (m ∷ ms) = let other = find_name (n + 1) ms in if matches m then some n else other

short_month : Text → Option (ℕ × Text)
unfolding lower month_number
short_month (a ∷ b ∷ c ∷ s) = do m ← month_number (lower a) (lower b) (lower c); some (m, s)
short_month _ = none

-- skip(value, " ")
skip_spaces : Text → Option Text
unfolding rest
skip_spaces [] = some []
skip_spaces (c ∷ s) = if c == 32 then some (rest (λ d. d == 32) s) else none

-- The fraction, in nanoseconds: nine digits count.
fraction : Text → ℕ × Text
unfolding run rest decimal
fraction (p ∷ d ∷ s) =
    if ((p == b'.') || (p == b',')) && is_digit d
    then (
      let ds = take 9 (run is_digit (d ∷ s)) in decimal 0 ds * 10 ^ (9 - length ds),
      rest is_digit (d ∷ s),
    )
    else (0, p ∷ d ∷ s)
fraction s = (0, s)

-- The zone's sign and its offset in seconds.
zone : Text → Option ((Bool × ℕ) × Text)
unfolding two_digits guard
zone [] = none
zone (sign ∷ s) = do
  guard ((sign == b'+') || (sign == b'-'))
  (hours, s) ← two_digits s
  (minutes, s) ← two_digits s
  guard (leb hours 24 && leb minutes 60)
  some ((sign == b'+', (hours * 60 + minutes) * 60), s)

abbrev pub is_leap : ℕ → Bool
is_leap y = (y % 4 == 0) && ((ltb 0 (y % 100)) || (y % 400 == 0))

days_in : ℕ → ℕ → ℕ
days_in month year =
    if month == 2
    then if is_leap year then 29 else 28
    else if (month == 4) || ((month == 6) || ((month == 9) || (month == 11)))
    then 30
    else 31

days_before_month : ℕ → ℕ → ℕ
unfolding days_in
days_before_month zero year = 0
days_before_month (suc zero) year = 0
days_before_month (suc (suc m)) year = days_before_month (suc m) year + days_in (suc m) year

-- From 1 January of the year 0, which is a leap year.
days_before_year : ℕ → ℕ
days_before_year y = 365 * y + (y + 3) / 4 - (y + 99) / 100 + (y + 399) / 400

abbrev shifted : Bool → ℕ → ℕ → ℕ
shifted true seconds offset = seconds - offset
shifted false seconds offset = seconds + offset

-- time.Parse(combinedTimestampLayout, value)
unfoldable pub parse_timestamp : Text → Option Time
unfolding two_digits one_or_two_digits four_digits short_month skip_spaces fraction zone byte guard
    days_in days_before_month days_before_year
parse_timestamp s = do
  (day, s) ← two_digits s
  s ← byte b'/' s
  (month, s) ← short_month s
  s ← byte b'/' s
  (year, s) ← four_digits s
  s ← byte b':' s
  (hour, s) ← one_or_two_digits s
  guard (ltb hour 24)
  s ← byte b':' s
  (minute, s) ← two_digits s
  guard (ltb minute 60)
  s ← byte b':' s
  (seconds, s) ← two_digits s
  guard (ltb seconds 60)
  let (nanoseconds, s) = fraction s
  s ← skip_spaces s
  ((east, offset), s) ← zone s
  guard (length s == 0)
  guard (leb 1 day && leb day (days_in month year))
  let days = 2 + days_before_year year + days_before_month month year + (day - 1)
  some (
      shifted east (days * 86400 + hour * 3600 + minute * 60 + seconds) offset * 1000000000
      + nanoseconds)

apache_example : parse_timestamp (text "10/Oct/2000:13:55:36 -0700") ≡ some 63138603336000000000
unfolding parse_timestamp text
apache_example = refl
