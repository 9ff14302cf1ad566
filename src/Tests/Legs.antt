-- ===== src/Tests/Legs.antt =====
-- A run of the theorem on a redundant pair of legs.
use mpegts_pacer.Prelude.{◌≡◌, refl, none, some, List, [], ◌∷◌, arith}
use mpegts_pacer.Packet.{Packet, null_packet, pcr_only_packet, pcr, pid}
use mpegts_pacer.Pcr.{
  read_pcr, write_pcr, write_octets, pcr_octets, pcr_base, pcr_ext, forward_delta,
  ticks_to_duration, declares_discontinuity,
}
use mpegts_pacer.Prelude.Int.{◌+ℤ◌}
use mpegts_pacer.Slot
use mpegts_pacer.Slot.{slot_of_pcr}
use mpegts_pacer.Grid.{
  StreamGrid, new, take, take_from, pass_bases, push, push_on, push_pcr, settle, close_run,
  close_at, spread, place_run, place_one, queue_placed, missed_pcrs, jumped, splice, slot_for,
  slot_against, slot_after, carry, rebase, note_continuity, next_continuity,
}
use mpegts_pacer.Grid.Take.{Ordered, packet_of}
use mpegts_pacer.Grid.Alone.{alone}
use mpegts_pacer.Grid.Legs.{given, asked, idle, Reads, IsCalm, advance}
use mpegts_pacer.Grid.Pair.{take-same}

-- PCR 270 000 in slot 10, a packet without one, and PCR 432 000 in slot 16.
abbrev first : Packet
first = record { bytes = pcr_only_packet 256 3 270_000 }

abbrev plain : Packet
plain = record { bytes = null_packet }

abbrev second : Packet
second = record { bytes = pcr_only_packet 256 3 432_000 }

abbrev stream : List Packet
stream = first ∷ plain ∷ second ∷ []

-- One leg has been given the packets at once; the other much later, and asked for slot 10 already.
abbrev prompt : StreamGrid
prompt = (push (push (push (new 1_504_000 100) first 0 none).0 plain 0 none).0 second 0 none).0

abbrev tardy : StreamGrid
tardy =
    (take
      (push (push (push (new 1_504_000 50) first 7 none).0 plain 9 none).0 second 900_000_000
        (some 3)).0
      10).0

prompt_reads : Reads (new 1_504_000 100) stream prompt
prompt_reads =
    given _ first 0 none _ _ (given _ plain 0 none _ _ (given _ second 0 none _ _ (idle _)))

tardy_reads : Reads (new 1_504_000 50) stream tardy
tardy_reads =
    given _ first 7 none _ _
      (given _ plain 9 none _ _ (given _ second 900_000_000 (some 3) _ _ (asked _ 10 _ _ (idle _))))

at_prompt : packet_of (take prompt 13).1 ≡ some plain
unfolding new pcr read_pcr pcr_only_packet null_packet write_pcr write_octets pcr_octets pcr_base
    pcr_ext note_continuity slot_for slot_against slot_after splice jumped forward_delta
    ticks_to_duration slot_of_pcr Slot.new ◌+ℤ◌ declares_discontinuity carry rebase next_continuity
    pid take take_from pass_bases push push_on push_pcr settle close_run close_at spread place_run
    place_one queue_placed missed_pcrs
at_prompt = refl

at_tardy : packet_of (take tardy 13).1 ≡ some plain
unfolding new pcr read_pcr pcr_only_packet null_packet write_pcr write_octets pcr_octets pcr_base
    pcr_ext note_continuity slot_for slot_against slot_after splice jumped forward_delta
    ticks_to_duration slot_of_pcr Slot.new ◌+ℤ◌ declares_discontinuity carry rebase next_continuity
    pid take take_from pass_bases push push_on push_pcr settle close_run close_at spread place_run
    place_one queue_placed missed_pcrs
at_tardy = refl

calm : IsCalm (alone (new 1_504_000 1)) stream
unfolding new pcr read_pcr pcr_only_packet null_packet write_pcr write_octets pcr_octets pcr_base
    pcr_ext note_continuity slot_for slot_against slot_after splice jumped forward_delta
    ticks_to_duration slot_of_pcr Slot.new ◌+ℤ◌ declares_discontinuity carry rebase next_continuity
    pid take take_from pass_bases push push_on push_pcr settle close_run close_at spread place_run
    place_one queue_placed missed_pcrs IsCalm advance alone
calm = ((refl, tt), (tt, ((refl, refl), tt)))

prompt_in_order : Ordered 0 prompt.placed prompt.next_free
unfolding new pcr read_pcr pcr_only_packet null_packet write_pcr write_octets pcr_octets pcr_base
    pcr_ext note_continuity slot_for slot_against slot_after splice jumped forward_delta
    ticks_to_duration slot_of_pcr Slot.new ◌+ℤ◌ declares_discontinuity carry rebase next_continuity
    pid take take_from pass_bases push push_on push_pcr settle close_run close_at spread place_run
    place_one queue_placed missed_pcrs
prompt_in_order = (omega arith, (omega arith, omega arith))

tardy_in_order : Ordered 0 tardy.placed tardy.next_free
unfolding new pcr read_pcr pcr_only_packet null_packet write_pcr write_octets pcr_octets pcr_base
    pcr_ext note_continuity slot_for slot_against slot_after splice jumped forward_delta
    ticks_to_duration slot_of_pcr Slot.new ◌+ℤ◌ declares_discontinuity carry rebase next_continuity
    pid take take_from pass_bases push push_on push_pcr settle close_run close_at spread place_run
    place_one queue_placed missed_pcrs
tardy_in_order = (omega arith, omega arith)

take-same_example : plain ≡ plain
take-same_example =
    take-same 1_504_000 100 50 13 stream prompt tardy plain plain prompt_reads tardy_reads calm
      prompt_in_order tardy_in_order at_prompt at_tardy
