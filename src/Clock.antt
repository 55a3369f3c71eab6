-- ===== src/Clock.antt =====
-- Go's time.Time as the sources use it: an instant. The location that a Time carries for printing is
-- not modelled. An instant is its distance in nanoseconds from two days before the year 0, so that
-- every date which the log layout can write, with its zone offset, is a natural number.
use parser_go.Prelude.{ℕ, ◌+◌, ◌*◌, ◌-◌, ◌^◌, Bool, ◌==◌, min}

abbrev pub Time : Type 0
Time = ℕ

abbrev pub nanosecond : ℕ
nanosecond = 1

abbrev pub second : ℕ
second = 1000000000

abbrev pub day_seconds : ℕ
day_seconds = 86400

-- time.Time{}: 1 January of the year 1, 366 days after the start of the year 0.
abbrev pub zero_time : Time
zero_time = (2 + 366) * 86400 * 1000000000

-- t.IsZero()
abbrev pub is_zero : Time → Bool
is_zero t = t == zero_time

abbrev pub max_duration : ℕ
max_duration = 2 ^ 63 - 1

-- The positive part of t.Sub(u), which saturates at the largest int64. The sources only compare a
-- difference with a positive duration, or use it once it is positive.
abbrev pub sub : Time → Time → ℕ
sub t u = min (t - u) max_duration
