-- ===== src/Prelude/Durations.antt =====
-- Go's time.Duration: a signed 64-bit number of nanoseconds. A time counts nanoseconds from Go's zero
-- time, the year 1, so that a clock of this century minus a Duration stays above 0.
use Prim.Native.Nat.{ℕ, suc, ◌+◌, ◌-◌, ◌*◌, ◌/◌, ◌%◌, ◌^◌, ◌<◌}
use mathlib.Core.Path.{◌≡◌}
use native.Mathlib.Omega.{arith}
use qoltanba.Prelude.Tests.{if◌then◌else◌, ltb, ◌==◌}

pub data ℤ : Type 0 where
  pos negsuc : ℕ → ℤ

abbrev pub second : ℕ
second = 1000000000

-- `time.Duration(n) * time.Second`, which wraps around
unfoldable pub seconds : ℕ → ℤ
seconds n = let d = n * second % 2 ^ 64 in if ltb d (2 ^ 63) then pos d else negsuc (2 ^ 64 - d - 1)

-- `now.Add(d)`
abbrev pub after : ℕ → ℤ → ℕ
after now (pos d) = now + d
after now (negsuc d) = now - suc d

-- `int(d.Seconds())`, which cuts towards 0
abbrev pub whole_seconds : ℤ → ℤ
whole_seconds (pos d) = pos (d / second)
whole_seconds (negsuc d) = let n = suc d / second in if n == 0 then pos 0 else negsuc (n - 1)

pub seconds-short : (n : ℕ) → n * second < 2 ^ 63 → seconds n ≡ pos (n * second)
unfolding seconds
seconds-short n h = ground arith
