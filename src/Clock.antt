-- ===== src/Clock.antt =====
-- The times and durations of Go's package time, counted in nanoseconds. A time is counted from the
-- zero time, which 0 is; what time.Now() answers is an argument of the code that asks.
use harness_go.Base.{ℕ, zero, suc, ◌+◌, ◌-◌, Bool, true, false, Option, none, some, ltb}

-- a time.Duration: `pos d` is d, and `negsuc d` is -(d + 1)
pub data Duration : Type 0 where
  pos negsuc : ℕ → Duration

abbrev pub is_positive : Duration → Bool
is_positive (pos zero) = false
is_positive (pos (suc d)) = true
is_positive (negsuc d) = false

-- t.Add(d)
abbrev pub add_time : ℕ → Duration → ℕ
add_time t (pos d) = t + d
add_time t (negsuc d) = t - suc d

-- whether a time lies in front of a deadline, if there is one
abbrev pub in_time : ℕ → Option ℕ → Bool
in_time now none = true
in_time now (some expiry) = ltb now expiry
