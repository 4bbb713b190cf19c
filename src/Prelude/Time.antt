-- ===== src/Prelude/Time.antt =====
-- Package time: an instant is its nanoseconds since the Unix epoch, a duration its nanoseconds.
use Prim.Native.Nat.{ℕ, suc, ◌-◌, ◌*◌, ◌/◌, ◌^◌}
use mathlib.Core.Path.{◌≡◌, ap}
use mathlib.Core.Bool.{Bool}
use native.Mathlib.Omega.{arith}
use proxmox_actions_runners.Prelude.Tests.{if◌then◌else◌}
use proxmox_actions_runners.Prelude.Int.{ℤ, pos, negsuc, ◌+ℤ◌, ◌-ℤ◌, ltb_ℤ, beq_ℤ}

abbrev pub Duration : Type 0
Duration = ℤ

abbrev pub Time : Type 0
Time = ℤ

abbrev pub second : ℕ
second = 1000000000

abbrev pub seconds : ℕ → Duration
seconds n = pos (n * second)

abbrev pub minutes : ℕ → Duration
minutes n = pos (n * (60 * second))

abbrev pub hours : ℕ → Duration
hours n = pos (n * (3600 * second))

-- Go's zero time is the start of year 1.
abbrev pub zero_time : Time
zero_time = negsuc (62135596800 * second - 1)

abbrev pub is_zero : Time → Bool
is_zero t = beq_ℤ t zero_time

abbrev pub before : Time → Time → Bool
before t u = ltb_ℤ t u

-- `t.Add(d)`
abbrev pub add : Time → Duration → Time
add t d = t +ℤ d

abbrev pub max_duration : Duration
max_duration = pos (2 ^ 63 - 1)

abbrev pub min_duration : Duration
min_duration = negsuc (2 ^ 63 - 1)

-- `t.Sub(u)`, which saturates.
unfoldable pub sub : Time → Time → Duration
sub t u =
    let d = t -ℤ u in
    if ltb_ℤ max_duration d then max_duration else if ltb_ℤ d min_duration then min_duration else d

-- `time.Unix(sec, 0)`
unfoldable pub unix_time : ℤ → Time
unix_time (pos n) = pos (n * second)
unix_time (negsuc n) = negsuc (suc n * second - 1)

-- `t.Unix()`: whole seconds since the epoch, rounded down.
unfoldable pub unix : Time → ℤ
unix (pos n) = pos (n / second)
unix (negsuc n) = negsuc (n / second)

-- `t.Truncate(time.Second)`, which rounds down to a whole second since the zero time.
unfoldable pub truncate_second : Time → Time
unfolding unix unix_time
truncate_second t = unix_time (unix t)

pub unix-unix_time : (s : ℤ) → unix (unix_time s) ≡ s
unfolding unix unix_time
unix-unix_time (pos n) = ground arith
unix-unix_time (negsuc n) = ground arith

pub truncate_second-unix : (t : Time) → unix (truncate_second t) ≡ unix t
unfolding truncate_second
truncate_second-unix t = unix-unix_time (unix t)

pub truncate_second-stable : (t : Time) → unix_time (unix (truncate_second t)) ≡ truncate_second t
unfolding truncate_second
truncate_second-stable t = ap unix_time (unix-unix_time (unix t))
