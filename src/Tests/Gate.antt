-- ===== src/Tests/Gate.antt =====
-- Runs of the theorems on the start gate.
use mpegts_pacer.Prelude.{ℕ, false, ◌≡◌, refl, some, [], ◌∷◌, arith}
use mpegts_pacer.Float.{micro}
use mpegts_pacer.Error.{ok}
use mpegts_pacer.Packet.{Packet, null_packet, pid}
use mpegts_pacer.Config.{new, start_deadline, default_latency_ceiling}
use mpegts_pacer.Scheduler.{Scheduler, primed, next_due}
use mpegts_pacer.Pacer.{Pacer, packet, silent, on_waited}
use mpegts_pacer.Pacer.Report
use mpegts_pacer.Pacer.Run.{Runs, rests, goes, waits}
use mpegts_pacer.Pacer.Run.Policy.{left_by}
use mpegts_pacer.Pacer.Run.Gate.{IsExpired, by_silence, on_waited-Opens}
use mpegts_pacer.Pacer.Run.Gate.Stuffing.{IsHeld, IsStuffing, Runs-IsHeld}
use mpegts_pacer.Tests.Running.{wire}

abbrev null : Packet
null = record { bytes = null_packet }

-- A leg with one packet since the start of the run, far from its cushion.
abbrev leg : Scheduler ℕ
leg = record (primed micro (new micro 1_504_000) 200_000_000) {
  first_content_at = some 0;
  last_content_at = some 0;
  buffer = record { queue = null ∷ []; capacity = 1000 };
}

abbrev pacer : Pacer micro wire
pacer = record {
  config = new micro 1_504_000;
  scheduler = leg;
  closing = false;
  reporter = Report.new;
  started_at = 0;
  sink = [];
}

expired : IsExpired (start_deadline micro leg.latency) leg default_latency_ceiling
unfolding primed new start_deadline
expired = record {
  deadline = default_latency_ceiling;
  limited = refl;
  begun = 0;
  first = refl;
  passed = omega arith;
  unaligned = refl;
}

on_waited-Opens_example :
    let turn = on_waited micro wire pacer (ok silent) default_latency_ceiling in
    (due : ℕ) × (next_due (left_by micro wire turn).scheduler ≡ some due)
on_waited-Opens_example =
    on_waited-Opens micro wire pacer (ok silent) default_latency_ceiling by_silence expired

-- A null packet a minute later.
abbrev one_turn :
    Runs micro wire pacer (on_waited micro wire pacer (ok (packet null)) 60_000_000_000)
unfolding next_due primed
one_turn =
    goes pacer (on_waited micro wire pacer (ok (packet null)) 60_000_000_000) rests
      (waits (ok (packet null)) 60_000_000_000 refl)

stuffing :
    IsStuffing micro wire pacer
      (on_waited micro wire pacer (ok (packet null)) 60_000_000_000)
      one_turn
unfolding one_turn pid null_packet
stuffing = (tt, refl)

Runs-IsHeld_example :
    IsHeld micro wire pacer
      (left_by micro wire (on_waited micro wire pacer (ok (packet null)) 60_000_000_000))
Runs-IsHeld_example =
    Runs-IsHeld micro wire pacer (on_waited micro wire pacer (ok (packet null)) 60_000_000_000)
      one_turn stuffing
