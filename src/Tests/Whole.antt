-- ===== src/Tests/Whole.antt =====
-- A run of the theorem on the datagrams of a run.
use mpegts_pacer.Prelude.{false, refl, [], All, arith, some, length, ◌≡◌, ◌*◌, sat_add}
use mpegts_pacer.Float.{micro}
use mpegts_pacer.Packet.Whole.{null_packet-IsWhole}
use mpegts_pacer.Jitter
use mpegts_pacer.Grid
use mpegts_pacer.Config.{timeout, new, resolved_bitrate}
use mpegts_pacer.Stats.{zeroed}
use mpegts_pacer.Scheduler.Liveness.{advance_muted}
use mpegts_pacer.Scheduler.Emit.Output.{output}
use mpegts_pacer.Pacer.Run.Counts.{Runs-counts}
use mpegts_pacer.Pacer.Run.Stalled.{on_due-log}
use mpegts_pacer.Scheduler.{primed, stall_timeout, state, next_due, has_pending}
use mpegts_pacer.Scheduler.Emit.Whole.{IsSound}
use mpegts_pacer.Pacer.{Pacer, is_over, on_due}
use mpegts_pacer.Pacer.Report
use mpegts_pacer.Pacer.Run.{Runs, goes, rests, wakes}
use mpegts_pacer.Pacer.Run.Policy.{left_by}
use mpegts_pacer.Pacer.Run.Sent.{IsSent, tapped}
use mpegts_pacer.Pacer.Run.Whole.{Runs-IsSent}
use mpegts_pacer.Tests.Running.{wire, leg}

abbrev pacer : Pacer micro (tapped micro wire)
pacer = record {
  config = new micro 1_504_000;
  scheduler = leg;
  closing = false;
  reporter = Report.new;
  started_at = 0;
  sink = ([], []);
}

leg-IsSound : IsSound leg
unfolding primed Grid.new Jitter.new
leg-IsSound = (null_packet-IsWhole, tt, (tt, (null_packet-IsWhole, tt)), tt)

-- A slot is due.
abbrev run : Runs micro (tapped micro wire) pacer (on_due micro (tapped micro wire) pacer 0)
unfolding next_due primed resolved_bitrate new is_over has_pending Grid.has_content
run =
    goes pacer (on_due micro (tapped micro wire) pacer 0) rests (wakes 0 0 refl refl (omega arith))

Runs-IsSent_example :
    All
      (IsSent leg.packets_per_datagram)
      (left_by micro (tapped micro wire) (on_due micro (tapped micro wire) pacer 0)).sink.1
unfolding run
Runs-IsSent_example =
    Runs-IsSent micro wire pacer (on_due micro (tapped micro wire) pacer 0) run leg-IsSound refl
      (tt, tt)

Runs-counts_example :
    let q = left_by micro (tapped micro wire) (on_due micro (tapped micro wire) pacer 0) in
    output q.scheduler ≡ sat_add 0 (length q.sink.1 * 7)
unfolding run primed new zeroed
Runs-counts_example =
    Runs-counts micro wire pacer (on_due micro (tapped micro wire) pacer 0) run leg-IsSound refl
      (omega arith) (tt, tt)

-- The same loop with nothing left and ten seconds of silence.
abbrev silent : Pacer micro (tapped micro wire)
silent = record pacer { scheduler = record leg { grid = some (Grid.new 1_504_000 200) } }

on_due-log_example :
    let t = on_due micro (tapped micro wire) silent 10_000_000_000 in
    let q = left_by micro (tapped micro wire) t in
    (q.sink.1 ≡ []) × (q.scheduler ≡ advance_muted silent.scheduler 10_000_000_000) × Unit {0}
unfolding state new primed has_pending advance_muted Grid.has_content Grid.new stall_timeout timeout
on_due-log_example = on_due-log micro wire silent 10_000_000_000
