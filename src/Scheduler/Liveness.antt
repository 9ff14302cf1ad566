-- ===== src/Scheduler/Liveness.antt =====
-- src/scheduler.rs: the methods of `Scheduler` that follow content liveness and the output clock's
-- start: `resume`, `observe_state`, `note_content_gap`, `advance_muted`, `arm`, `poll_start`,
-- `start_now`, `flush` and `resize`.
pub mod Stall
use mpegts_pacer.Prelude.{
  ℕ, ◌+◌, ◌-◌, ◌/◌, ◌≡◌, max, min, Bool, true, false, ◌&&◌, ◌||◌, not, Option, none, some, List,
  ltb, leb, if◌then◌else◌, is_some, is_none, sat_add, u64_max,
}
use mpegts_pacer.Float.{Float}
use mpegts_pacer.Config.{
  Latency, fixed, adaptive, target, cap, floor_of, start_deadline, is_adaptive,
}
use mpegts_pacer.Pcr.Regen
use mpegts_pacer.Pcr.Regen.{PcrRegen}
use mpegts_pacer.Jitter
use mpegts_pacer.Grid
use mpegts_pacer.Grid.{StreamGrid}
use mpegts_pacer.Arrival
use mpegts_pacer.Media.{MediaClock, zero_f}
use mpegts_pacer.Scheduler.{
  Scheduler, SourceState, priming, live, starved, stalled, latency_to_packets, silent_for, state,
  buffered_packets, millis,
}

abbrev pub is_stalled : SourceState → Bool
is_stalled stalled = true
is_stalled live = false
is_stalled priming = false
is_stalled starved = false

abbrev pub flush_grid : Option StreamGrid → Option StreamGrid
flush_grid none = none
flush_grid (some g) = some (Grid.flush g)

module _ {F : Type 0} where
  unfoldable pub note_content_gap : Scheduler F → ℕ → Scheduler F
  note_content_gap s now = if is_none s.last_content_at then s else record s {
    stats = record (s.stats) {
      content_gap_max_ms = max s.stats.content_gap_max_ms (millis (silent_for s now));
    };
  }

  -- The stall counted as it begins, and the gap followed as it grows.
  abbrev pub counted_stall : Scheduler F → Scheduler F
  counted_stall s =
      if s.is_stalled
      then s
      else record s { stats = record (s.stats) { stalls = sat_add s.stats.stalls 1 } }

  unfoldable pub observe_state : Scheduler F → ℕ → Scheduler F × SourceState
  unfolding note_content_gap
  observe_state s now =
      let current = state s now in
      let s' = if is_stalled current then note_content_gap (counted_stall s) now else s in
      (record s' { is_stalled = is_stalled current }, current)

  unfoldable pub advance_muted : Scheduler F → ℕ → Scheduler F
  unfolding observe_state
  advance_muted s now =
      let s' = (observe_state s now).0 in
      record s' {
        slot = sat_add s'.slot s'.packets_per_datagram;
        phased = false;
        stats = record (s'.stats) {
          muted_packets = sat_add s'.stats.muted_packets s'.packets_per_datagram;
        };
      }

  unfoldable pub start_now : Scheduler F → ℕ → Scheduler F
  start_now s now =
      if is_none s.anchor
      then record s { anchor = some now; media = record (s.media) { anchor = some now } }
      else s

  unfoldable pub flush : Scheduler F → Scheduler F
  flush s = record s { grid = flush_grid s.grid }

abbrev pub flag_regen : Option PcrRegen → Option PcrRegen
flag_regen none = none
flag_regen (some r) = some (Regen.flag_discontinuity r)

abbrev pub grow_grid : Option StreamGrid → ℕ → Option StreamGrid
grow_grid none capacity = none
grow_grid (some g) capacity = some (Grid.grow_to g capacity)

module _ (fl : Float) where
  open fl use {F}

  unfoldable pub resume : Scheduler F → ℕ → Scheduler F
  resume s now = if is_some s.grid then record s { is_stalled = false } else record s {
    is_stalled = false;
    pcr_regen = flag_regen s.pcr_regen;
    media = record (s.media) {
      anchor = some (now + s.target);
      ticked = none;
      credit = zero_f fl;
      released = 0;
      last_pcr = none;
      packets_since_pcr = 0;
      decayed_packets = zero_f fl;
      decayed_secs = zero_f fl;
      pending_packets = 0;
      pending_secs = zero_f fl;
      stalled_clock = false;
    };
  }

  -- The depths set to a cushion.
  unfoldable pub resize_to : Scheduler F → ℕ → Scheduler F
  resize_to s cushion =
      let capacity = max (latency_to_packets fl (cap fl s.latency cushion) s.mux_rate_bps) 1 in
      record s {
        target = cushion;
        latency_packets = latency_to_packets fl cushion s.mux_rate_bps;
        max_latency_packets = max s.max_latency_packets capacity;
        buffer = Jitter.grow_to s.buffer capacity;
        grid = grow_grid s.grid capacity;
      }

  -- `none` is the panic of `Latency::target`, which ends the task: out of the bounds, which would
  -- not have let the scheduler be built, or out of a lead times a factor that is no duration. The
  -- model keeps the depths there.
  unfoldable pub resize : Scheduler F → Scheduler F
  unfolding resize_to
  resize s =
      if not (is_adaptive s.latency)
      then s
      else elim (target fl s.latency (Arrival.lead s.profile)) [
        | none ↦ s
        | some cushion ↦ resize_to s cushion
      ]

  -- Whether the time since the first content has reached the start deadline.
  abbrev pub expired : Option ℕ → ℕ → ℕ → Bool
  expired none now deadline = false
  expired (some first) now deadline = leb deadline (now - first)

  -- Where an unarmed clock starts, if it is time to.
  unfoldable pub start_at : Scheduler F → ℕ → Option ℕ → Option ℕ
  start_at s now none = some (now + s.target)
  start_at s now (some deadline) =
      let primed = leb s.latency_packets (buffered_packets s) in
      let settled = not (Arrival.bursty s.profile) || Arrival.between_deliveries s.profile now in
      let full =
        leb (Jitter.room s.buffer) (latency_to_packets fl (floor_of fl s.latency) s.mux_rate_bps) in
      if (primed && settled) || full || expired s.first_content_at now deadline
      then some now
      else none

  unfoldable pub arm : Scheduler F → ℕ → Scheduler F
  unfolding start_at
  arm s now =
      if is_some s.anchor || is_some s.align
      then s
      else elim (start_at s now (start_deadline fl s.latency)) [
        | none ↦ s
        | some anchor ↦ record s {
          anchor = some anchor;
          media = record (s.media) { anchor = some anchor };
        }
      ]

  unfoldable pub poll_start : Scheduler F → ℕ → Scheduler F
  unfolding arm
  poll_start s now = if is_some s.first_content_at then arm s now else s
