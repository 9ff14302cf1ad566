-- ===== src/Slot/Bounds.antt =====
-- The slot grid: monotone, and a slot's own PCR within one slot of the PCR that was placed there.
use native.Mathlib.Nat.{
  mod-eq_of_lt, div-mul-le_self, lt-div-mul-add, le-div_iff_mul-le, mul-div_cancel,
  div-lt_iff_lt-mul,
}
use mpegts_pacer.Prelude.{ℕ, ◌+◌, ◌*◌, ◌/◌, ◌≤◌, ◌<◌, ◌≡◌, refl, ap, arith, u64_mod}
use mpegts_pacer.Pcr.{packet_bits, pcr_clock_hz, pcr_wrap_ticks}
use mpegts_pacer.Slot.{SlotMap, slot_of_pcr, pcr_of_slot}

-- Ticks that one packet takes, times the rate.
abbrev pub bits_clock : ℕ
bits_clock = 40_608_000_000

-- The PCR values and rates for which no cast loses a bit: any clock reading at up to 400 Tb/s.
pub record InRange (m : SlotMap) (pcr : ℕ) : Type 0 where
  pub positive : 0 < m.mux_rate_bps
  pub fits : pcr * m.mux_rate_bps < u64_mod * bits_clock

slot_exact :
    (m : SlotMap) (pcr : ℕ) → InRange m pcr → slot_of_pcr m pcr ≡ pcr * m.mux_rate_bps / bits_clock
unfolding slot_of_pcr
slot_exact m pcr r = mod-eq_of_lt ((div-lt_iff_lt-mul {k = bits_clock} (omega arith)).1 r.fits)

-- A later PCR never has an earlier slot.
slot_of_pcr_mono : (m : SlotMap) (a b : ℕ) → InRange m b → a ≤ b → slot_of_pcr m a ≤ slot_of_pcr m b
slot_of_pcr_mono m a b r h =
    let le : a * m.mux_rate_bps ≤ b * m.mux_rate_bps = grind arith in
    rw
      (
        slot_exact m a (record { positive = r.positive; fits = omega (arith, r.fits) }),
        slot_exact m b r,
      )
      (omega arith)

cancel : (q p r : ℕ) → 0 < r → q * r ≤ p * r → q ≤ p
cancel q p r pos h =
    let le : q ≤ p * r / r = (le-div_iff_mul-le {k = r} pos).1 h in rw (mul-div_cancel p pos) at le

-- The PCR of the slot that a PCR falls in is not past it, and less than one slot before it: the
-- clock that goes out is the source's, quantised to the slot.
pub pcr_of_slot-slot_of_pcr :
    (m : SlotMap) (pcr : ℕ)
    → InRange m pcr
    → pcr < pcr_wrap_ticks
    → (pcr_of_slot m (slot_of_pcr m pcr) ≤ pcr)
      × (pcr * m.mux_rate_bps
          < pcr_of_slot m (slot_of_pcr m pcr) * m.mux_rate_bps + bits_clock + m.mux_rate_bps)
unfolding pcr_of_slot
pcr_of_slot-slot_of_pcr m pcr r h = rw (slot_exact m pcr r, mod-eq_of_lt small) (below, above)
  where
    rate : ℕ
    rate = m.mux_rate_bps

    slot : ℕ
    slot = pcr * rate / bits_clock

    out : ℕ
    out = slot * packet_bits * pcr_clock_hz / rate

    under : out * rate ≤ slot * bits_clock
    under = omega (arith, div-mul-le_self (slot * packet_bits * pcr_clock_hz) rate)

    over : slot * bits_clock < out * rate + rate
    over = omega (arith, lt-div-mul-add {a = slot * packet_bits * pcr_clock_hz} r.positive)

    below : out ≤ pcr
    below = cancel out pcr rate r.positive (omega (arith, div-mul-le_self (pcr * rate) bits_clock))

    small : out < pcr_wrap_ticks
    small = omega (arith, below, h)

    above : pcr * rate < out * rate + bits_clock + rate
    above = omega (arith, over, lt-div-mul-add {a = pcr * rate} {b = bits_clock} (omega arith))

-- At a rate that divides the ticks of a packet, slots and their PCRs are inverse.
slot_of_pcr-pcr_of_slot :
    (m : SlotMap) (k slot : ℕ)
    → 0 < m.mux_rate_bps
    → m.mux_rate_bps * k ≡ bits_clock
    → slot * k < pcr_wrap_ticks
    → slot < u64_mod
    → slot_of_pcr m (pcr_of_slot m slot) ≡ slot
unfolding pcr_of_slot slot_of_pcr
slot_of_pcr-pcr_of_slot m k slot pos exact h fits =
    let product : slot * packet_bits * pcr_clock_hz ≡ slot * k * m.mux_rate_bps =
      omega (arith, ap (λ (t : ℕ). slot * t) exact) in
    let back : slot * k * m.mux_rate_bps ≡ slot * bits_clock =
      omega (arith, ap (λ (t : ℕ). slot * t) exact) in
    rw
      (
        product,
        mul-div_cancel (slot * k) pos,
        mod-eq_of_lt h,
        back,
        mul-div_cancel slot {n = bits_clock} (omega arith),
        mod-eq_of_lt fits,
      )
      refl
