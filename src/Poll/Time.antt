-- ===== src/Poll/Time.antt =====
-- `time.Time` and `time.Duration`. A time is the number of nanoseconds since the zero time (year 1),
-- a duration an `int64` of nanoseconds. A time before the zero time is the zero time.
use mautrix_teams.Base.{ℕ, suc, ◌+◌, ◌-◌, Bool, ltb, leb, ◌==◌}
use mautrix_teams.Base.Int.{ℤ, pos, negsuc}

abbrev pub Time : Type 0
Time = ℕ

abbrev pub second : ℕ
second = 1_000_000_000

abbrev pub minute : ℕ
minute = 60_000_000_000

abbrev pub hour : ℕ
hour = 3_600_000_000_000

-- `t.IsZero()`, `t.Before(u)` and `t.Add(d)`.
abbrev pub is_zero : Time → Bool
is_zero t = t == 0

abbrev pub before : Time → Time → Bool
before t u = ltb t u

abbrev pub add : Time → ℤ → Time
add t (pos n) = t + n
add t (negsuc n) = t - suc n

-- `t.Sub(u) < d` and `t.Sub(u) >= d`, over a difference that may be negative.
abbrev pub sub_lt : Time → Time → ℕ → Bool
sub_lt t u d = ltb t (u + d)

abbrev pub sub_ge : Time → Time → ℕ → Bool
sub_ge t u d = leb (u + d) t
