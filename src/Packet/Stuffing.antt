-- ===== src/Packet/Stuffing.antt =====
-- The packet made for a re-inserted PCR.
use mpegts_pacer.Prelude.{
  ℕ, ◌+◌, ◌*◌, ◌/◌, ◌%◌, ◌^◌, ◌≤◌, ◌<◌, ◌≡◌, refl, ◌⊎◌, some, List, get_or, set, replicate, bit_and,
  bit_or, arith,
}
use mpegts_pacer.Prelude.Bits.{and_mask, or_add}
use mpegts_pacer.Pcr.{pcr_wrap_ticks, read_pcr, ts_packet_size}
use mpegts_pacer.Pcr.Fields.{CarriesPcr, read_pcr-write_pcr, write_pcr-outside}
use mpegts_pacer.Packet.{pid, pcr_only_packet}

unfoldable pub header : ℕ → ℕ → List ℕ
header pid counter =
    let blank = replicate ts_packet_size 0xff in
    set
      (set
        (set (set (set (set blank 0 0x47) 1 (bit_and (pid / 2 ^ 8 % 256) 0x1f)) 2 (pid % 256)) 3
          (bit_or 0x20 (bit_and counter 0x0f)))
        4 183)
      5 0x10

control : (counter : ℕ) → bit_or 0x20 (bit_and counter 0x0f) ≡ 32 + counter % 16
control counter =
    let low : bit_and counter 0x0f ≡ counter % 16 = and_mask 4 counter in
    rw low (or_add 4 32 (counter % 16) (omega arith) (omega arith))

control_adapted : (counter : ℕ) → bit_and (bit_or 0x20 (bit_and counter 0x0f) / 2 ^ 4) 0x03 ≡ 2
control_adapted counter =
    rw (control counter, and_mask 2 ((32 + counter % 16) / 2 ^ 4)) (omega arith)

pub header-CarriesPcr : (n counter : ℕ) → CarriesPcr (header n counter)
unfolding header
header-CarriesPcr n counter = record {
  whole = refl;
  synced = refl;
  adapted = rw (control_adapted counter) refl;
  roomy = omega arith;
  fits = omega arith;
  flagged = omega arith;
}

counter_bits : (counter : ℕ) → bit_and (bit_or 0x20 (bit_and counter 0x0f)) 0x0f ≡ counter % 16
counter_bits counter = rw (control counter, and_mask 4 (32 + counter % 16)) (omega arith)

pid_bits :
    (n : ℕ)
    → n < 0x2000
    → bit_or (bit_and (bit_and (n / 2 ^ 8 % 256) 0x1f) 0x1f * 2 ^ 8) (n % 256) ≡ n
pid_bits n h =
    let high : bit_and (bit_and (n / 2 ^ 8 % 256) 0x1f) 0x1f ≡ n / 2 ^ 8 =
      rw (and_mask 5 (n / 2 ^ 8 % 256), and_mask 5 (n / 2 ^ 8 % 256 % 2 ^ 5)) (omega arith) in
    rw (high, or_add 8 (n / 2 ^ 8 * 2 ^ 8) (n % 256) (omega arith) (omega arith)) (omega arith)

-- The packet made for a re-inserted PCR carries that PCR, the PID it was made for, and the given
-- continuity counter modulo 16, whenever the PID has 13 bits.
pub pcr_only_packet_lem :
    (n counter t : ℕ)
    → n < 0x2000
    → let p = pcr_only_packet n counter t in
      (read_pcr p ≡ some (t % pcr_wrap_ticks))
      × (pid (record { bytes = p }) ≡ n)
      × (bit_and (get_or p 3 0) 0x0f ≡ counter % 16)
unfolding pcr_only_packet pid header
pcr_only_packet_lem n counter t h =
    let o = λ (j : ℕ) (k : (j < 6) ⊎ (12 ≤ j)). write_pcr-outside (header n counter) t j k in
    (
      read_pcr-write_pcr (header n counter) t (header-CarriesPcr n counter),
      rw (o 1 (omega arith), o 2 (omega arith)) (pid_bits n h),
      rw (o 3 (omega arith)) (counter_bits counter),
    )
