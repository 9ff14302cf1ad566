-- ===== src/Tests/Ledger.antt =====
-- Runs of the theorems on what becomes of a content packet.
use mpegts_pacer.Prelude.{
  ℕ, ◌+◌, ◌≤◌, ◌≡◌, refl, some, Option, arith, true, false, u64_max, if◌then◌else◌, ◌==◌,
}
use mpegts_pacer.Float.{micro}
use mpegts_pacer.Packet.{pcr_only_packet, pcr, pid, null_pid}
use mpegts_pacer.Pcr.{
  read_pcr, write_pcr, write_octets, pcr_octets, pcr_base, pcr_ext, forward_delta,
  ticks_to_duration, declares_discontinuity,
}
use mpegts_pacer.Prelude.Int.{◌+ℤ◌}
use mpegts_pacer.Slot
use mpegts_pacer.Slot.{slot_of_pcr}
use mpegts_pacer.Config.{new}
use mpegts_pacer.Stats.{zeroed}
use mpegts_pacer.Grid
use mpegts_pacer.Grid.{
  jumped, splice, slot_for, slot_against, slot_after, carry, rebase, note_continuity,
  next_continuity,
}
use mpegts_pacer.Grid.Push.{slot_given}
use mpegts_pacer.Scheduler.{Scheduler, primed}
use mpegts_pacer.Scheduler.Enqueue.{enqueue}
use mpegts_pacer.Scheduler.Enqueue.Ledger.{account, IsReady, onto_grid, enqueue-accounts}
use mpegts_pacer.Scheduler.Emit.{emit_slots}
use mpegts_pacer.Scheduler.Emit.Ledger.{ledger, emit_slots-ledger}
use mpegts_pacer.Tests.Placing.{grid, clocked, valid, in_order}

-- A leg with three packets in an open run and one placed.
abbrev leg : Scheduler ℕ
leg = record (primed micro (new micro 1_504_000) 200_000_000) { grid = some grid }

given :
    (capacity : ℕ) (horizon : Option ℕ)
    → let g = record grid { capacity = capacity } in
      slot_given (note_continuity g clocked) clocked 7 horizon (pcr clocked) ≡ 16
unfolding Grid.new pcr read_pcr pcr_only_packet write_pcr write_octets pcr_octets pcr_base pcr_ext
    note_continuity slot_for slot_against slot_after splice jumped forward_delta ticks_to_duration
    slot_of_pcr Slot.new ◌+ℤ◌ declares_discontinuity carry rebase next_continuity pid
given capacity horizon = refl

ready : IsReady leg clocked 7 leg.grid
unfolding primed Grid.new zeroed
ready =
    onto_grid grid 20 valid
      (λ capacity horizon. record {
        opens = omega arith;
        closes = omega (arith, given capacity horizon);
        free = omega arith;
        small = omega arith;
        cuts = omega arith;
      })
      (omega arith)

enqueue-accounts_example :
    account (enqueue micro leg clocked 7) ≡ account leg + (if pid clocked == null_pid then 0 else 1)
enqueue-accounts_example = enqueue-accounts micro leg clocked 7 ready

roomy : ledger leg ≤ u64_max
unfolding primed Grid.new zeroed
roomy = omega arith

emit_slots-ledger_example : ledger (emit_slots 7 leg 5 false (some true) true) ≡ ledger leg
emit_slots-ledger_example = emit_slots-ledger 7 leg 5 false (some true) in_order roomy
