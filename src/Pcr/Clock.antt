-- ===== src/Pcr/Clock.antt =====
-- The arithmetic of the wrapping 27 MHz clock.
use mpegts_pacer.Prelude.{ℕ, ◌+◌, ◌-◌, ◌*◌, ◌%◌, ◌≤◌, ◌<◌, ◌≡◌, arith, u64_mod}
use mpegts_pacer.Pcr.{pcr_wrap_ticks, forward_delta, ticks_to_duration}

-- On clock values the forward distance is the one step below a whole turn that leads from
-- `previous` to `current`.
forward_delta_lem :
    (previous current : ℕ)
    → previous < pcr_wrap_ticks
    → current < pcr_wrap_ticks
    → (forward_delta previous current < pcr_wrap_ticks)
      × ((previous + forward_delta previous current) % pcr_wrap_ticks ≡ current)
unfolding forward_delta
forward_delta_lem p c hp hc = ground arith

-- A field whose extension is above 299 reads as a value past the end of the clock. From there the
-- distance to a value far enough below is no distance: the subtraction wraps below zero.
pub forward_delta_malformed :
    (previous current : ℕ)
    → previous < u64_mod
    → pcr_wrap_ticks + current < previous
    → forward_delta previous current ≡ u64_mod - (previous - pcr_wrap_ticks - current)
unfolding forward_delta
forward_delta_malformed p c hp h = ground arith

-- The length of a tick count on the clock is exact to the nanosecond below.
ticks_to_duration_bounds :
    (t : ℕ)
    → t < pcr_wrap_ticks
    → (ticks_to_duration t * 27 ≤ t * 1000) × (t * 1000 < ticks_to_duration t * 27 + 27)
unfolding ticks_to_duration
ticks_to_duration_bounds t h = omega arith
