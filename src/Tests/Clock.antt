-- ===== src/Tests/Clock.antt =====
-- Runs of the theorems on PCR fields, slots and the regenerator.
use mpegts_pacer.Prelude.{
  ℕ, ◌+◌, ◌-◌, ◌*◌, ◌%◌, ◌≤◌, ◌<◌, ◌≡◌, refl, true, false, ◌||◌, some, List, get_or, arith, bit_and,
  u64_mod,
}
use mpegts_pacer.Pcr.{
  pcr_wrap_ticks, read_pcr, write_pcr, write_octets, pcr_octets, pcr_base, pcr_ext,
  declares_discontinuity, forward_delta,
}
use mpegts_pacer.Pcr.Fields.{read_pcr-CarriesPcr, read_pcr-write_pcr}
use mpegts_pacer.Pcr.Clock.{forward_delta_malformed}
use mpegts_pacer.Pcr.Regen.{PcrRegen, rewrite, locked_for_index}
use mpegts_pacer.Pcr.Regen.Lock.{read_pcr-rewrite, declares-rewrite, locked_for_index_exact}
use mpegts_pacer.Packet.{pid, pcr_only_packet}
use mpegts_pacer.Packet.Stuffing.{pcr_only_packet_lem}
use mpegts_pacer.Slot.{SlotMap, slot_of_pcr, pcr_of_slot}
use mpegts_pacer.Slot.Bounds.{InRange, pcr_of_slot-slot_of_pcr, bits_clock}

-- PID 256, continuity counter 3, PCR 900
abbrev packet : List ℕ
packet = pcr_only_packet 256 3 900

carries : read_pcr packet ≡ some 900
unfolding read_pcr pcr_only_packet write_pcr write_octets pcr_octets pcr_base pcr_ext
carries = refl

bytes : (get_or packet 3 0 < 256) × (get_or packet 5 0 < 256)
unfolding pcr_only_packet write_pcr write_octets pcr_octets
bytes = (omega arith, omega arith)

-- One packet in 27 000 ticks.
abbrev rate : ℕ
rate = 1_504_000

-- Anchored at packet 10, after a source PCR of 600.
abbrev regen : PcrRegen
regen = record {
  mux_rate_bps = rate;
  anchor = some (10, 5000);
  last_src = some 600;
  flag_next = true;
}

abbrev map : SlotMap
map = record { mux_rate_bps = rate }

range : (pcr : ℕ) → pcr < pcr_wrap_ticks → InRange map pcr
range pcr h = record { positive = omega arith; fits = omega arith }

read_pcr-write_pcr_example : read_pcr (write_pcr packet 6 pcr_wrap_ticks) ≡ some 0
read_pcr-write_pcr_example =
    read_pcr-write_pcr packet pcr_wrap_ticks (read_pcr-CarriesPcr packet carries)

forward_delta_malformed_example :
    forward_delta 2_576_980_377_811 0 ≡ u64_mod - (2_576_980_377_811 - pcr_wrap_ticks - 0)
forward_delta_malformed_example =
    forward_delta_malformed 2_576_980_377_811 0 (omega arith) (omega arith)

read_pcr-rewrite_example :
    read_pcr (rewrite regen packet 12).1 ≡ locked_for_index (rewrite regen packet 12).0 12
read_pcr-rewrite_example = read_pcr-rewrite regen packet 12 bytes carries

declares-rewrite_example :
    (declares_discontinuity (rewrite regen packet 12).1
      ≡ ((rewrite regen packet 12).2 || true || declares_discontinuity packet))
    × ((rewrite regen packet 12).0.flag_next ≡ false)
declares-rewrite_example = declares-rewrite regen packet 12 bytes carries

locked_for_index_exact_example :
    (locked_for_index regen 12 ≡ some ((5000 + 2 * 27_000) % pcr_wrap_ticks))
    × (locked_for_index regen 15 ≡ some ((5000 + 2 * 27_000 + 3 * 27_000) % pcr_wrap_ticks))
locked_for_index_exact_example =
    locked_for_index_exact regen 10 5000 27_000 12 3 refl (omega arith) (omega arith) (omega arith)
      (omega arith)

pcr_only_packet_lem_example :
    (read_pcr packet ≡ some (900 % pcr_wrap_ticks))
    × (pid (record { bytes = packet }) ≡ 256)
    × (bit_and (get_or packet 3 0) 0x0f ≡ 3 % 16)
pcr_only_packet_lem_example = pcr_only_packet_lem 256 3 900 (omega arith)

pcr_of_slot-slot_of_pcr_example :
    (pcr_of_slot map (slot_of_pcr map 90_000) ≤ 90_000)
    × (90_000 * rate < pcr_of_slot map (slot_of_pcr map 90_000) * rate + bits_clock + rate)
pcr_of_slot-slot_of_pcr_example =
    pcr_of_slot-slot_of_pcr map 90_000 (range 90_000 (omega arith)) (omega arith)
