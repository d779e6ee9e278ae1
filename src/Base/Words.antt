-- ===== src/Base/Words.antt =====
-- Machine integers as native numbers: the wrap and the saturation written out. Durations are
-- counted in nanoseconds, timestamps in microseconds.
use Prim.Native.Nat.{ℕ, ◌+◌, ◌*◌, ◌-◌, ◌/◌, ◌%◌, min}

abbrev pub u32_max : ℕ
u32_max = 4_294_967_295

abbrev pub u64_max : ℕ
u64_max = 18_446_744_073_709_551_615

abbrev pub u16_max : ℕ
u16_max = 65535

-- `fetch_add(1)` on an `AtomicU32`, whose sum wraps.
abbrev pub wrap32 : ℕ → ℕ
wrap32 n = n % 4_294_967_296

-- `u64::saturating_add`.
abbrev pub saturating_add : ℕ → ℕ → ℕ
saturating_add a b = min (a + b) u64_max

-- `u64::saturating_sub` is the subtraction of ℕ, which stops at 0.
abbrev pub saturating_sub : ℕ → ℕ → ℕ
saturating_sub a b = a - b

abbrev pub Timestamp : Type 0
Timestamp = ℕ

abbrev pub Duration : Type 0
Duration = ℕ

abbrev pub from_secs : ℕ → Duration
from_secs s = s * 1_000_000_000

abbrev pub from_micros : ℕ → Duration
from_micros n = n * 1000

abbrev pub as_micros : Duration → ℕ
as_micros d = d / 1000
