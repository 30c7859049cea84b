-- ===== src/Base/Time.antt =====
-- Go's time.Time, as far as the program uses it: an instant, in nanoseconds since the zero time.
-- UTC changes the location of a time and not the instant, so it is the identity here. `time.Now()`
-- is an argument of the functions that read the clock.
use Prim.Native.Nat.{ℕ}
use mathlib.Core.Bool.{Bool}
use wechat_clone.Base.Tests.{eqb, if◌then◌else◌}

abbrev pub Time : Type 0
Time = ℕ

abbrev pub zero_time : Time
zero_time = 0

-- `IsZero()`
abbrev pub is_zero : Time → Bool
is_zero t = eqb t 0

abbrev pub utc : Time → Time
utc t = t

-- The helper that several packages repeat: the given time, or the clock's where it is zero.
abbrev pub time_or_now : Time → Time → Time
time_or_now now value = if is_zero value then utc now else utc value
