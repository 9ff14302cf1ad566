-- ===== src/Tests/Running.antt =====
-- Runs of the theorems on the pacing loop, on reading and on sending.
use mpegts_pacer.Prelude.{
  ℕ, ◌≡◌, ◌⊎◌, refl, sym, min, true, false, some, List, [], ◌∷◌, ◌++◌, take, drop, arith,
  length-take, take-append-drop,
}
use mpegts_pacer.Prelude.Int.{pos}
use mpegts_pacer.Float.{micro}
use mpegts_pacer.Error.{ok}
use mpegts_pacer.Packet.{Packet, null_packet, has_pcr}
use mpegts_pacer.Config.{stream, new, resolved_bitrate}
use mpegts_pacer.Pcr.{read_pcr}
use mpegts_pacer.Grid
use mpegts_pacer.Grid.{StreamGrid}
use mpegts_pacer.Scheduler.{Scheduler, primed, state, next_due, has_pending}
use mpegts_pacer.Scheduler.Emit.{emit_slots, catch_up}
use mpegts_pacer.Scheduler.Emit.Starve.{IsPinned, emit_slots-IsPinned}
use mpegts_pacer.Output.{Sink, Port}
use mpegts_pacer.Output.Rtp.{RtpSink, send, rtp_sink}
use mpegts_pacer.Output.Rtp.Header.{Carries, IsNumbered, due_numbers, count_after, send-Carries}
use mpegts_pacer.Source.{split_packets}
use mpegts_pacer.Source.Read
use mpegts_pacer.Source.Read.{Reader, IsLawful}
use mpegts_pacer.Source.Read.Drain.{drain, drain-split_packets}
use mpegts_pacer.Pacer.{Pacer, on_due, is_over, emit, reported}
use mpegts_pacer.Pacer.Report
use mpegts_pacer.Pacer.Wire.{Numbered, emit-Numbered}
use mpegts_pacer.Pacer.Run.{Runs, rests, goes, wakes}
use mpegts_pacer.Pacer.Run.Policy.{UpToDate, on_due-told}
use mpegts_pacer.Pacer.Run.Drain.{Drained, closing-emits, closing_Runs-Drained}

-- A port that keeps what it is given.
abbrev port : Port
port = record { State = List (List ℕ); put = λ s bytes. (ok tt, bytes ∷ s) }

abbrev pub wire : Sink
wire = record {
  State = List (List ℕ);
  send = λ s now datagram. (ok tt, datagram ∷ s);
  set_framing = λ s framing. s;
}

-- A sink in its last sequence number, told where the next datagram stands.
abbrev told_rtp : RtpSink port
told_rtp = record {
  socket = [];
  sequence = 65_535;
  ssrc = 7;
  started_at = 0;
  framing = some (record { slot = 14; sequence = 3; timestamp_90khz = 90_000 });
  scratch = [];
}

told_rtp-IsNumbered : IsNumbered port told_rtp
told_rtp-IsNumbered = record {
  counted = omega arith;
  source = omega arith;
  framed = λ f e.
      let same : record { slot = 14; sequence = 3; timestamp_90khz = 90_000 } ≡ f = cc e in
      rw (sym same) (omega arith, omega arith);
}

send-Carries_example :
    let (sent, t) = send port told_rtp 5 (71 ∷ 1 ∷ []) in
    let (sequence, timestamp) = due_numbers port told_rtp told_rtp.framing 5 in
    Carries t.scratch sequence timestamp 7 (71 ∷ 1 ∷ [])
    × (port.put [] t.scratch ≡ (sent, t.socket))
    × (t.sequence ≡ count_after port told_rtp told_rtp.framing)
    × IsNumbered port t
send-Carries_example = send-Carries port told_rtp 5 (71 ∷ 1 ∷ []) told_rtp-IsNumbered

-- A reader of a list, a hundred bytes at most at a time.
abbrev slow : Reader
slow = record { State = List ℕ; read = λ r n. (ok (take (min n 100) r), drop (min n 100) r) }

abbrev slow-IsLawful : IsLawful slow
slow-IsLawful = record {
  content = λ r. r;
  next = λ r n. take (min n 100) r;
  read_ok = λ r n. refl;
  in_order = λ r n. sym (take-append-drop (min n 100) r);
  fits = λ r n. omega (arith, length-take (min n 100) r);
  ends = λ r n lt e. omega (arith, length-take (min n 100) r, e, lt);
}

drain-split_packets_example :
    drain slow slow-IsLawful 400 (Read.new slow (1 ∷ null_packet ++ null_packet))
    ≡ some (split_packets [] (1 ∷ null_packet ++ null_packet)).0
unfolding null_packet
drain-split_packets_example =
    drain-split_packets slow slow-IsLawful (1 ∷ null_packet ++ null_packet) 400 (omega arith)

abbrev packet : Packet
packet = record { bytes = null_packet }

abbrev leg_grid : StreamGrid
leg_grid = record (Grid.new 1_504_000 200) { placed = (3, packet) ∷ []; next_free = 4 }

-- A leg on the stream's grid, its clock armed, with a packet placed in slot 3.
abbrev pub leg : Scheduler ℕ
leg = record (primed micro (record (new micro 1_504_000) { clocking = stream }) 200_000_000) {
  grid = some leg_grid;
  anchor = some 0;
  last_content_at = some 0;
  pcr_max_packets = 4;
}

-- The loop over it, once the source has ended.
abbrev draining : Pacer micro wire
draining = record {
  config = new micro 1_504_000;
  scheduler = leg;
  closing = true;
  reporter = Report.new;
  started_at = 0;
  sink = [];
}

abbrev one_turn : Runs micro wire draining (on_due micro wire draining 0)
unfolding next_due primed resolved_bitrate new is_over has_pending Grid.has_content
one_turn = goes draining (on_due micro wire draining 0) rests (wakes 0 0 refl refl (omega arith))

closing_Runs-Drained_example : Drained micro wire draining (on_due micro wire draining 0) 1
unfolding next_due primed resolved_bitrate new is_over has_pending Grid.has_content Grid.new
closing_Runs-Drained_example =
    closing_Runs-Drained micro wire draining (on_due micro wire draining 0) one_turn refl refl
      (record { in_order = (omega arith, omega arith); limit = omega arith }) (omega arith)
      (omega arith) refl (λ s now datagram. refl)

on_due-told_example :
    UpToDate
      (reported micro wire (emit micro wire draining 0).1 (state draining.scheduler 0) 0).reporter
      (state draining.scheduler 0)
unfolding Report.new new
on_due-told_example =
    on_due-told micro wire draining draining
      (reported micro wire (emit micro wire draining 0).1 (state draining.scheduler 0) 0) 0 tt rests
      (closing-emits micro wire draining 0 (λ s now datagram. refl) refl refl)

-- The leg in phase after a PCR, limited to a PCR in every slot.
abbrev pinned : Scheduler ℕ
pinned = record leg {
  pcr_pid = some 256;
  last_pcr_index = some 0;
  pcr_max_packets = 1;
  phased = true;
  slot = 1;
  deferred = (packet, record { offset = pos 0; starts = false }) ∷ [];
}

emit_slots-IsPinned_example :
    let t = emit_slots 1000 pinned 5 false (some true) true in
    (t.stats.content_packets ≡ pinned.stats.content_packets) × IsPinned t
unfolding primed new null_packet has_pcr read_pcr
emit_slots-IsPinned_example =
    emit_slots-IsPinned 1000 pinned 5 (some true) true
      (record {
        regenerates = refl;
        identified = refl;
        on_grid = refl;
        phased = refl;
        limit = omega arith;
        before = omega arith;
        waits = refl;
      })
      (omega arith)

abbrev rtp_leg : Pacer micro (rtp_sink port)
rtp_leg = record {
  config = new micro 1_504_000;
  scheduler = leg;
  closing = false;
  reporter = Report.new;
  started_at = 0;
  sink = told_rtp;
}

emit-Numbered_example :
    let (sent, q) = emit micro (rtp_sink port) rtp_leg 5 in
    (q.sink.socket ≡ [])
    ⊎ (Numbered micro port leg leg_grid q.sink.scratch q.scheduler.scratch 7
        × (port.put [] q.sink.scratch ≡ (sent, q.sink.socket))
        × ((catch_up leg 5).slot ≡ leg.slot))
emit-Numbered_example = emit-Numbered micro port rtp_leg leg_grid 5 refl told_rtp-IsNumbered
