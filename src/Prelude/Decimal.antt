-- ===== src/Prelude/Decimal.antt =====
-- Decimal numerals: strconv.FormatInt and %d of a natural number, and the digits' value.
use Prim.Native.Nat.{ℕ, zero, suc, ◌+◌, ◌-◌, ◌*◌, ◌/◌, ◌%◌, ◌^◌, ◌≤◌, ◌<◌}
use mathlib.Core.Path.{◌≡◌, refl}
use mathlib.Core.List.{[], ◌∷◌, ◌++◌}
use mathlib.Core.Bool.{Bool, true, ◌&&◌}
use native.Mathlib.Nat.{pow-suc}
use native.Mathlib.Omega.{arith}
use parser_go.Prelude.Tests.{ltb, leb, if◌then◌else◌}
use parser_go.Prelude.Lists.{length, all, length-append, all-append}
use parser_go.Prelude.Strings.{Text}

-- \d
abbrev pub is_digit : ℕ → Bool
is_digit c = leb b'0' c && leb c b'9'

abbrev pub digit_value : ℕ → ℕ
digit_value c = c - b'0'

-- The value of a run of digits, behind a number that is read already.
unfoldable pub decimal : ℕ → Text → ℕ
decimal acc [] = acc
decimal acc (c ∷ s) = decimal (acc * 10 + digit_value c) s

-- The digits with fuel; `format_int` gives enough, since each round divides by ten.
pub format_digits : ℕ → ℕ → Text
format_digits zero n = []
format_digits (suc f) n =
    let high = format_digits f (n / 10) in
    if ltb n 10 then (n + b'0') ∷ [] else high ++ (n % 10 + b'0') ∷ []

-- strconv.FormatInt(n, 10) for n that is not negative
unfoldable pub format_int : ℕ → Text
unfolding format_digits
format_int n = format_digits (suc n) n

decimal-append :
    (acc : ℕ) (s : Text) (c : ℕ) → decimal acc (s ++ c ∷ []) ≡ decimal acc s * 10 + digit_value c
unfolding decimal
decimal-append acc [] c = refl
decimal-append acc (d ∷ s) c = decimal-append (acc * 10 + digit_value d) s c

decimal-format_digits : (f n : ℕ) → n < f → decimal 0 (format_digits f n) ≡ n
unfolding decimal format_digits
decimal-format_digits zero n h = absurd (omega arith)
decimal-format_digits (suc f) n h = ground (
  arith,
  decimal-append 0 (format_digits f (n / 10)) (n % 10 + b'0'),
  decimal-format_digits f (n / 10),
)

-- Reading what was printed gives the number back.
pub decimal-format_int : (n : ℕ) → decimal 0 (format_int n) ≡ n
unfolding format_int
decimal-format_int n = decimal-format_digits (suc n) n (omega arith)

all-format_digits : (f n : ℕ) → all is_digit (format_digits f n) ≡ true
unfolding format_digits
all-format_digits zero n = refl
all-format_digits (suc f) n = ground (
  arith,
  all-append is_digit (format_digits f (n / 10)) ((n % 10 + b'0') ∷ []),
  all-format_digits f (n / 10),
)

pub all-format_int : (n : ℕ) → all is_digit (format_int n) ≡ true
unfolding format_int
all-format_int n = all-format_digits (suc n) n

length-format_digits_le : (f n k : ℕ) → n < 10 ^ k → 0 < k → length (format_digits f n) ≤ k
unfolding format_digits
length-format_digits_le zero n k h p = omega arith
length-format_digits_le (suc f) n zero h p = absurd (omega arith)
length-format_digits_le (suc f) n (suc zero) h p = ground arith
length-format_digits_le (suc f) n (suc (suc k)) h p =
    let small : n / 10 < 10 ^ suc k = omega (arith, pow-suc 10 (suc k)) in
    ground (
      arith,
      length-append (format_digits f (n / 10)) ((n % 10 + b'0') ∷ []),
      length-format_digits_le f (n / 10) (suc k) small (omega arith),
    )

pub length-format_int_le : (n k : ℕ) → n < 10 ^ k → 0 < k → length (format_int n) ≤ k
unfolding format_int
length-format_int_le n k h p = length-format_digits_le (suc n) n k h p

pub length-format_int_pos : (n : ℕ) → 0 < length (format_int n)
unfolding format_int format_digits
length-format_int_pos n =
    ground (arith, length-append (format_digits n (n / 10)) ((n % 10 + b'0') ∷ []))

length-format_digits_pos : (f n : ℕ) → 0 < length (format_digits (suc f) n)
unfolding format_digits
length-format_digits_pos f n =
    ground (arith, length-append (format_digits f (n / 10)) ((n % 10 + b'0') ∷ []))

-- A number of more than one digit.
pub length-format_int_gt : (n : ℕ) → 10 ≤ n → 1 < length (format_int n)
unfolding format_int format_digits
length-format_int_gt zero h = absurd (omega arith)
length-format_int_gt (suc f) h = ground (
  arith,
  length-append (format_digits (suc f) (suc f / 10)) ((suc f % 10 + b'0') ∷ []),
  length-format_digits_pos f (suc f / 10),
)
