-- ===== src/Pcr.antt =====
-- src/pcr.rs: reading and writing the PCR of a transport packet, and the arithmetic of its clock.
-- A packet is the list of its bytes. A duration is a number of nanoseconds.
pub mod Octets
pub mod Fields
pub mod Clock
pub mod Regen
use mpegts_pacer.Prelude.{
  ℕ, ◌+◌, ◌-◌, ◌*◌, ◌/◌, ◌%◌, ◌^◌, min, bit_and, bit_or, Bool, true, false, ◌&&◌, ◌||◌, not, Option,
  none, some, List, [], ◌∷◌, ltb, leb, ◌==◌, if◌then◌else◌, length, get_or, set, u64_max, wrap_add,
  wrap_sub,
}

abbrev pub ts_packet_size : ℕ
ts_packet_size = 188

abbrev pub pcr_clock_hz : ℕ
pcr_clock_hz = 27_000_000

-- `(1_u64 << 33) * 300`
abbrev pub pcr_wrap_ticks : ℕ
pcr_wrap_ticks = 2_576_980_377_600

abbrev pub packet_bits : ℕ
packet_bits = 1504

abbrev pub pcr_discontinuity_gap : ℕ
pcr_discontinuity_gap = 5_000_000_000

-- `(packet[3] >> 4) & 0x03`, the adaptation field control
abbrev pub afc : List ℕ → ℕ
afc p = bit_and (get_or p 3 0 / 2 ^ 4) 0x03

-- `matches!(afc, 0b10 | 0b11)`
abbrev pub has_adaptation : List ℕ → Bool
has_adaptation p = afc p == 2 || afc p == 3

-- The 33-bit base and the 9-bit extension of the six octets.
unfoldable pub pcr_base : ℕ → ℕ → ℕ → ℕ → ℕ → ℕ
pcr_base p0 p1 p2 p3 p4 =
    bit_or (bit_or (bit_or (bit_or (p0 * 2 ^ 25) (p1 * 2 ^ 17)) (p2 * 2 ^ 9)) (p3 * 2 ^ 1))
      (p4 / 2 ^ 7)

unfoldable pub pcr_ext : ℕ → ℕ → ℕ
pcr_ext p4 p5 = bit_or (bit_and p4 0x01 * 2 ^ 8) p5

unfoldable pub read_pcr : List ℕ → Option ℕ
read_pcr p =
    if not (length p == ts_packet_size) || not (get_or p 0 0 == 0x47)
    then none
    else if not (has_adaptation p)
    then none
    else if ltb (get_or p 4 0) 7 || ltb (length p) (5 + get_or p 4 0)
    then none
    else if bit_and (get_or p 5 0) 0x10 == 0
    then none
    else some (base * 300 + ext)
  where
    base : ℕ
    base = pcr_base (get_or p 6 0) (get_or p 7 0) (get_or p 8 0) (get_or p 9 0) (get_or p 10 0)

    ext : ℕ
    ext = pcr_ext (get_or p 10 0) (get_or p 11 0)

-- Consecutive assignments from index `i` on.
unfoldable pub write_octets : List ℕ → ℕ → List ℕ → List ℕ
write_octets p i [] = p
write_octets p i (o ∷ os) = write_octets (set p i o) (i + 1) os

-- `ext as u8` and the other casts keep the low byte; `(ext >> 8) as u8 & 0x01` masks after the cast.
unfoldable pub pcr_octets : ℕ → List ℕ
pcr_octets pcr_ticks =
    base / 2 ^ 25 % 256
    ∷ base / 2 ^ 17 % 256
    ∷ base / 2 ^ 9 % 256
    ∷ base / 2 ^ 1 % 256
    ∷ bit_or (bit_or (bit_and base 0x01 % 256 * 2 ^ 7 % 256) 0x7e)
        (bit_and (ext / 2 ^ 8 % 256) 0x01)
    ∷ ext % 256
    ∷ []
  where
    base : ℕ
    base = bit_and (pcr_ticks / 300) (2 ^ 33 - 1)

    ext : ℕ
    ext = pcr_ticks % 300

-- The source's `target` is the slice of the packet that begins at `i`.
unfoldable pub write_pcr : List ℕ → ℕ → ℕ → List ℕ
write_pcr p i pcr_ticks = write_octets p i (pcr_octets pcr_ticks)

unfoldable pub set_discontinuity_indicator : List ℕ → List ℕ × Bool
set_discontinuity_indicator p =
    if not (length p == ts_packet_size) || not (get_or p 0 0 == 0x47)
    then (p, false)
    else if not (has_adaptation p) || get_or p 4 0 == 0
    then (p, false)
    else (set p 5 (bit_or (get_or p 5 0) 0x80), true)

unfoldable pub declares_discontinuity : List ℕ → Bool
declares_discontinuity p =
    length p == ts_packet_size
    && not (bit_and (get_or p 3 0) 0x20 == 0)
    && ltb 0 (get_or p 4 0)
    && not (bit_and (get_or p 5 0) 0x80 == 0)

unfoldable pub forward_delta : ℕ → ℕ → ℕ
forward_delta previous current =
    if leb previous current
    then current - previous
    else wrap_add (wrap_sub pcr_wrap_ticks previous) current

unfoldable pub ticks_to_duration : ℕ → ℕ
ticks_to_duration ticks = min (ticks * 1_000_000_000 / pcr_clock_hz) u64_max
