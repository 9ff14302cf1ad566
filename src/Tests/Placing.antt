-- ===== src/Tests/Placing.antt =====
-- Runs of the theorems on the placement grid.
use mpegts_pacer.Prelude.{false, ◌≤◌, ◌≡◌, refl, none, some, [], ◌∷◌, length, arith, drop}
use mpegts_pacer.Packet.{Packet, null_packet, pcr_only_packet, pcr, pid}
use mpegts_pacer.Pcr.{
  read_pcr, write_pcr, write_octets, pcr_octets, pcr_base, pcr_ext, forward_delta,
  ticks_to_duration, declares_discontinuity,
}
use mpegts_pacer.Prelude.Int.{◌+ℤ◌}
use mpegts_pacer.Slot
use mpegts_pacer.Slot.{slot_of_pcr}
use mpegts_pacer.Grid.SlotFor.{slot_for-path_free}
use mpegts_pacer.Grid.Push.{IsGrid, Takes, slot_given, push_lem}
use mpegts_pacer.Grid.{
  StreamGrid, new, take, close_run, jumped, splice, slot_for, slot_against, slot_after, carry,
  rebase, note_continuity, next_continuity, push,
}
use mpegts_pacer.Grid.Take.{Ordered, packet_at, packet_of, count_before, from_slot, take_lem}
use mpegts_pacer.Grid.Close.{packets_in, packets_in-close_run}
use mpegts_pacer.Grid.Place.{close_run-even, even}

abbrev packet : Packet
packet = record { bytes = null_packet }

-- One packet placed in slot 3, and a run of three opened in slot 10.
abbrev pub grid : StreamGrid
grid = record (new 1_504_000 100) {
  placed = (3, packet) ∷ [];
  next_free = 4;
  run = packet ∷ packet ∷ packet ∷ [];
  opened = some (270_000, 10);
}

pub in_order : Ordered 0 grid.placed grid.next_free
unfolding new
in_order = (omega arith, omega arith)

-- The same grid with room for three: closing the run pushes the placed packet out.
abbrev tight : StreamGrid
tight = record grid { capacity = 3 }

packets_in-close_run_example :
    let (g', dropped) = close_run tight 12 in
    (g'.run ≡ [])
    × (dropped ≡ 1)
    × (packets_in g'.placed ≡ drop dropped (packet ∷ packet ∷ packet ∷ packet ∷ []))
    × Ordered 0 g'.placed g'.next_free
    × (length g'.placed ≤ 3)
unfolding new packets_in
packets_in-close_run_example =
    packets_in-close_run tight 270_000 10 12 20 refl (omega arith) (omega arith) (omega arith)
      (omega arith) (omega arith) in_order (omega arith)

close_run-even_example :
    ((close_run grid 16).0.placed ≡ (3, packet) ∷ (10, packet) ∷ (12, packet) ∷ (14, packet) ∷ [])
    × ((close_run grid 16).0.next_free ≤ 16)
    × ((close_run grid 16).1 ≡ 0)
    × ((close_run grid 16).0.displacement_high_water ≡ 0)
unfolding new even
close_run-even_example =
    close_run-even grid 270_000 10 16 refl (omega arith) (omega arith) (omega arith) (omega arith)
      (omega arith) (omega arith)

take_lem_example :
    (packet_of (take grid 5).1 ≡ none)
    × ((take grid 5).2 ≡ 1)
    × ((take grid 5).0.placed ≡ [])
    × Ordered 0 (take grid 5).0.placed (take grid 5).0.next_free
unfolding new packet_at count_before from_slot
take_lem_example = take_lem grid 5 in_order

-- PID 256, PCR 432 000: slot 16.
abbrev pub clocked : Packet
clocked = record { bytes = pcr_only_packet 256 3 432_000 }

pub valid : IsGrid grid
unfolding new
valid = record {
  ordered = in_order;
  bounded = omega arith;
  positive = omega arith;
  opened_first = λ h. ground arith;
}

slot_for-path_free_example :
    (slot_for grid 432_000 false 7 none ≡ slot_for grid 432_000 false 6_000_000_000 (some 3))
    × ((slot_for grid 432_000 false 7 none).2 ≡ false)
unfolding jumped forward_delta ticks_to_duration
slot_for-path_free_example =
    slot_for-path_free grid 270_000 10 432_000 7 6_000_000_000 none (some 3) refl refl

given : slot_given (note_continuity grid clocked) clocked 7 none (pcr clocked) ≡ 16
unfolding new pcr read_pcr pcr_only_packet write_pcr write_octets pcr_octets pcr_base pcr_ext
    note_continuity slot_for slot_against slot_after splice jumped forward_delta ticks_to_duration
    slot_of_pcr Slot.new ◌+ℤ◌ declares_discontinuity carry rebase next_continuity pid
given = refl

push_lem_example : Takes grid (push grid clocked 7 none)
unfolding new
push_lem_example = push_lem grid clocked 7 none 20 valid (record {
  opens = omega arith;
  closes = omega (arith, given);
  free = omega arith;
  small = omega arith;
  cuts = omega arith;
})
