-- ===== src/Prelude/Words.antt =====
-- Unsigned machine arithmetic: u64 and usize wrap at 2 ^ 64 where the source uses `+`, and stop at
-- the ends where it says `saturating_`.
use Prim.Native.Nat.{ℕ, ◌+◌, ◌-◌, ◌*◌, ◌%◌, ◌^◌, ◌<◌, min}
use mathlib.Core.Option.{Option, none, some}
use native.Mathlib.Omega.{arith}
use mpegts_pacer.Prelude.Tests.{leb, if◌then◌else◌}

abbrev pub u16_mod : ℕ
u16_mod = 2 ^ 16

abbrev pub u32_mod : ℕ
u32_mod = 2 ^ 32

abbrev pub u64_mod : ℕ
u64_mod = 2 ^ 64

-- `u64::MAX`
abbrev pub u64_max : ℕ
u64_max = 0xffff_ffff_ffff_ffff

abbrev pub IsU64 : ℕ → Type 0
IsU64 n = n < u64_mod

-- `u64::saturating_add`. `saturating_sub` is the subtraction of ℕ.
abbrev pub sat_add : ℕ → ℕ → ℕ
sat_add a b = min (a + b) u64_max

-- `u64::saturating_mul`
abbrev pub sat_mul : ℕ → ℕ → ℕ
sat_mul a b = min (a * b) u64_max

-- `a + b` and `a - b` on u64, as a release build computes them.
abbrev pub wrap_add : ℕ → ℕ → ℕ
wrap_add a b = (a + b) % u64_mod

abbrev pub wrap_sub : ℕ → ℕ → ℕ
wrap_sub a b = (a + u64_mod - b) % u64_mod

-- `checked_sub`
abbrev pub checked_sub : ℕ → ℕ → Option ℕ
checked_sub a b = if leb b a then some (a - b) else none

pub sat_add-lt : (a b : ℕ) → sat_add a b < u64_mod
sat_add-lt a b = omega arith

-- `Duration::MAX` in nanoseconds, and the saturating operations of `Duration`.
abbrev pub duration_max : ℕ
duration_max = 18_446_744_073_709_551_615_999_999_999

abbrev pub duration_sat_add : ℕ → ℕ → ℕ
duration_sat_add a b = min (a + b) duration_max

abbrev pub duration_sat_mul : ℕ → ℕ → ℕ
duration_sat_mul a b = min (a * b) duration_max
