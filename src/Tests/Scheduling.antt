-- ===== src/Tests/Scheduling.antt =====
-- Runs of the theorems on the scheduler, its configuration and the jitter buffer.
use mpegts_pacer.Prelude.{
  ℕ, ◌+◌, ◌%◌, ◌≤◌, ◌≡◌, refl, true, false, ◌&&◌, none, some, [], ◌∷◌, arith, if◌then◌else◌,
  u16_mod,
}
use mpegts_pacer.Float.{micro}
use mpegts_pacer.Error.{ok}
use mpegts_pacer.Stats.{zeroed}
use mpegts_pacer.Jitter.{JitterBuffer}
use mpegts_pacer.Jitter.Queue.{push_all, push_all-newest, IsBounded}
use mpegts_pacer.Config.{
  Config, adaptive, stream, target, floor_of, start_deadline, validate, with_adaptive_latency,
  resolved_bitrate, new,
}
use mpegts_pacer.Config.Checks.{Within, target-between, validate-lets_through}
use mpegts_pacer.Scheduler.{Scheduler, primed, state, Framing, framing}
use mpegts_pacer.Scheduler.Liveness.{observe_state, advance_muted, is_stalled}
use mpegts_pacer.Scheduler.Liveness.Stall.{observe_state-edge, advance_muted-framing}
use mpegts_pacer.Pcr.Regen
use mpegts_pacer.Scheduler.Emit.{fill_datagram, emit_slot}
use mpegts_pacer.Scheduler.Emit.Cadence.{Recent, emit_slot-Recent}
use mpegts_pacer.Scheduler.Emit.Tally.{Settled, fill_datagram-counts}

abbrev queue : JitterBuffer ℕ
queue = record { queue = 1 ∷ 2 ∷ []; capacity = 3 }

push_all-newest_example :
    ((push_all queue (3 ∷ 4 ∷ 5 ∷ [])).0.queue ≡ 3 ∷ 4 ∷ 5 ∷ [])
    × ((push_all queue (3 ∷ 4 ∷ 5 ∷ [])).1 ≡ 2)
    × IsBounded (push_all queue (3 ∷ 4 ∷ 5 ∷ [])).0
push_all-newest_example =
    push_all-newest queue (3 ∷ 4 ∷ 5 ∷ [])
      (record { within = omega arith; holds_one = omega arith })

-- An adaptive latency whose ceiling is half its floor.
abbrev crossed : Config ℕ
crossed = with_adaptive_latency (new micro 1_504_000) 200_000_000 100_000_000 2_500_000

target-between_example :
    (t : ℕ) × (target micro (adaptive 200_000_000 8_000_000_000 2_500_000) 400_000_000 ≡ some t)
    × (t ≡ 1_000_000_000)
    × (200_000_000 ≤ t)
    × Within t (some 8_000_000_000)
unfolding floor_of start_deadline
target-between_example =
    target-between micro (adaptive 200_000_000 8_000_000_000 2_500_000) 400_000_000 (omega arith)

validate-lets_through_example : (validate crossed ≡ ok tt) × (target micro crossed.latency 0 ≡ none)
unfolding with_adaptive_latency new
validate-lets_through_example =
    validate-lets_through micro crossed 200_000_000 100_000_000 0 2_500_000 refl refl refl
      (omega arith)

-- A scheduler on the stream's grid, at the rate of a packet in a millisecond.
abbrev leg : Scheduler ℕ
leg =
    primed micro (record (new micro 1_504_000) { clocking = stream; sequence_seed = 65_535 })
      200_000_000

observe_state-edge_example :
    let (t, current) = observe_state leg 5 in
    (current ≡ state leg 5)
    × (state t 5 ≡ current)
    × (t.is_stalled ≡ is_stalled current)
    × (t.stats.stalls ≡ 0 + (if is_stalled current && true then 1 else 0))
unfolding primed new zeroed
observe_state-edge_example = observe_state-edge leg 5 (omega arith)

advance_muted-framing_example :
    ((a : Framing) × (b : Framing) × (framing leg ≡ some a)
      × (framing (advance_muted leg 5) ≡ some b)
      × (b.slot ≡ a.slot + 7)
      × (b.sequence ≡ (a.sequence + 1) % u16_mod))
    × ((advance_muted leg 5).stats.muted_packets ≡ 7)
    × ((advance_muted leg 5).phased ≡ false)
unfolding primed new zeroed
advance_muted-framing_example =
    advance_muted-framing leg 5 _ refl (omega arith) (omega arith) (omega arith)

fill_datagram-counts_example : Settled leg (fill_datagram leg 3 false) 7
unfolding primed new zeroed
fill_datagram-counts_example =
    fill_datagram-counts leg 3 false (omega arith, omega arith, omega arith) (omega arith) refl

-- The leg in phase at slot 9, its last PCR in slot 5 and its limit four slots.
abbrev pulsing : Scheduler ℕ
pulsing = record leg {
  pcr_pid = some 256;
  last_pcr_index = some 5;
  pcr_max_packets = 4;
  phased = true;
  slot = 9;
}

emit_slot-Recent_example : Recent (emit_slot pulsing 3 false (some true) true).last_pcr_index 9 4
unfolding primed new resolved_bitrate
emit_slot-Recent_example =
    emit_slot-Recent pulsing (Regen.new 1_504_000) 256 5 3 (some true) true refl refl refl refl
      (omega arith)
