-- ===== src/Slot.antt =====
-- src/slot.rs: the fixed mapping between PCR values and output packet indices at a locked rate.
-- The products fit a u128; a quotient is cast to u64.
pub mod Bounds
use mpegts_pacer.Prelude.{ℕ, ◌*◌, ◌/◌, ◌%◌, ◌^◌, max, u64_mod}
use mpegts_pacer.Pcr.{packet_bits, pcr_clock_hz, pcr_wrap_ticks}

pub record SlotMap : Type 0 where
  pub mux_rate_bps : ℕ

unfoldable pub new : ℕ → SlotMap
new mux_rate_bps = record { mux_rate_bps = max mux_rate_bps 1 }

unfoldable pub slot_of_pcr : SlotMap → ℕ → ℕ
slot_of_pcr m pcr = pcr * m.mux_rate_bps / (packet_bits * pcr_clock_hz) % u64_mod

unfoldable pub pcr_of_slot : SlotMap → ℕ → ℕ
pcr_of_slot m slot = slot * packet_bits * pcr_clock_hz / m.mux_rate_bps % pcr_wrap_ticks

unfoldable pub slots_per_wrap : SlotMap → ℕ
unfolding slot_of_pcr
slots_per_wrap m = slot_of_pcr m pcr_wrap_ticks
