-- ===== src/Scheduler/Enqueue.antt =====
-- src/scheduler.rs: `Scheduler::enqueue` with `align_start`, `arrived_sooner` and `note_depth`.
pub mod Shape
pub mod Ledger
pub mod Whole
pub mod Output
use mpegts_pacer.Prelude.{
  ℕ, ◌+◌, ◌-◌, ◌%◌, ◌/◌, max, min, Bool, false, ◌&&◌, ◌||◌, Option, none, some, ltb, leb, ◌==◌,
  if◌then◌else◌, is_some, is_none, unwrap_or, sat_add, wrap_add, wrap_sub, checked_sub, u64_max,
}
use mpegts_pacer.Float.{Float}
use mpegts_pacer.Packet.{Packet, pid, has_pcr, null_pid}
use mpegts_pacer.Jitter
use mpegts_pacer.Grid
use mpegts_pacer.Grid.{StreamGrid}
use mpegts_pacer.Arrival
use mpegts_pacer.Media
use mpegts_pacer.Media.{estimated_rate_pps, zero_f}
use mpegts_pacer.Scheduler.{Scheduler, latency_to_packets, packets_to_duration, buffered_packets}
use mpegts_pacer.Scheduler.Liveness.{note_content_gap, resume, resize, arm}

module _ {F : Type 0} where
  unfoldable pub note_depth : Scheduler F → Scheduler F
  note_depth s = record s {
    stats = record (s.stats) {
      buffer_high_water = max s.stats.buffer_high_water (buffered_packets s);
    };
  }

  -- The gain of content at `slot` over the content that the clock is tied to, if there is one.
  unfoldable pub arrived_sooner : Scheduler F → Option (ℕ × ℕ) → ℕ → ℕ → Option ℕ
  arrived_sooner s none slot now = none
  arrived_sooner s (some (arrived, reference)) slot now =
      let ahead = packets_to_duration s (slot - reference) in
      let gain = ahead - (now - arrived) in
      if leb reference slot && ltb 0 gain then some gain else none

  -- `output_packets + withheld_packets`
  abbrev pub sent : Scheduler F → ℕ
  sent s = wrap_add s.stats.output_packets s.stats.withheld_packets

  abbrev pub store_grid : Scheduler F → StreamGrid → ℕ → Scheduler F
  store_grid s g dropped = record s {
    grid = some g;
    stats = record (s.stats) {
      dropped_packets = sat_add s.stats.dropped_packets dropped;
      pcr_position_overruns = g.overruns;
      pcr_rebases = g.rebases;
      pcr_position_displacement = g.displacement_high_water;
    };
  }

  abbrev pub learn_pid : Scheduler F → Packet → Scheduler F
  learn_pid s packet =
      if is_none s.pcr_pid && has_pcr packet then record s { pcr_pid = some (pid packet) } else s

  -- Content is here: its gap, its first and its latest arrival.
  unfoldable pub mark_arrival : Scheduler F → ℕ → Scheduler F
  unfolding note_content_gap
  mark_arrival s now =
      let s' = note_content_gap s now in
      record s' {
        first_content_at = some (unwrap_or s'.first_content_at now);
        last_content_at = some now;
      }

  -- The unaligned start at the live edge, revisited until the first datagram goes out.
  unfoldable pub start_at_edge : Scheduler F → ℕ → ℕ → ℕ → Scheduler F
  start_at_edge s first edge now =
      let start = max (edge - s.latency_packets) first in
      let aligned = start - start % s.packets_per_datagram in
      record s {
        anchor = some (unwrap_or s.anchor (now + s.target));
        anchor_slot = aligned;
        slot = aligned;
      }

module _ (fl : Float) where
  open fl use {F}

  -- The clock tied to the soonest content, due a release latency after it arrived.
  unfoldable pub tie_clock : Scheduler F → ℕ → ℕ → ℕ → ℕ → Scheduler F
  tie_clock s arrived reference first now =
      let release = arrived + s.target in
      let due =
        if leb release now
        then sat_add reference (latency_to_packets fl (now - release) s.mux_rate_bps)
        else reference - latency_to_packets fl (release - now) s.mux_rate_bps in
      let start = max due first - max due first % s.packets_per_datagram in
      let anchor' =
        if leb reference start
        then release + packets_to_duration s (start - reference)
        else unwrap_or (checked_sub release (packets_to_duration s (reference - start))) now in
      record s { anchor = some anchor'; anchor_slot = start; slot = start }

  abbrev pub watched : Option ℕ → ℕ → ℕ → Bool
  watched none now window = false
  watched (some at) now window = leb window (now - at)

  abbrev pub tie_to : Scheduler F → Option (ℕ × ℕ) → ℕ → ℕ → Scheduler F
  tie_to s none first now = s
  tie_to s (some (arrived, reference)) first now = tie_clock s arrived reference first now

  unfoldable pub align_start : Scheduler F → ℕ → ℕ → ℕ → ℕ → Scheduler F
  unfolding tie_clock arrived_sooner
  align_start s first edge now window =
      let sooner = is_none s.soonest || is_some (arrived_sooner s s.soonest edge now) in
      let s' = if sooner then record s { soonest = some (now, edge) } else s in
      if watched s'.first_content_at now window then tie_to s' s'.soonest first now else s'

  -- Before the first datagram the start is set against what is placed; after it, an aligned leg
  -- notes content that would have started it sooner.
  abbrev pub place_clock : Scheduler F → Option ℕ → ℕ → ℕ → ℕ → Scheduler F
  place_clock s none first edge now = start_at_edge s first edge now
  place_clock s (some window) first edge now = align_start s first edge now window

  abbrev pub note_gain : Scheduler F → Option ℕ → Scheduler F
  note_gain s none = s
  note_gain s (some gain) = record s {
    stats = record (s.stats) {
      align_gain_us = max s.stats.align_gain_us (min (gain / 1000) u64_max);
    };
  }

  unfoldable pub after_push : Scheduler F → Option ℕ → Option ℕ → ℕ → Scheduler F
  unfolding start_at_edge align_start arrived_sooner
  after_push s none last now = s
  after_push s (some first) none now = s
  after_push s (some first) (some edge) now =
      if sent s == 0
      then place_clock
          (record s { stats = record (s.stats) { start_backlog = wrap_sub edge first } }) s.align
          first edge now
      else if is_some s.align
      then note_gain s (arrived_sooner s s.soonest edge now)
      else s

  -- Stream clocking: onto the grid.
  unfoldable pub enqueue_grid : Scheduler F → StreamGrid → Packet → ℕ → Scheduler F
  unfolding after_push note_depth
  enqueue_grid s g packet now =
      let horizon = if ltb 0 (sent s) then some (sat_add s.slot s.max_latency_packets) else none in
      let (g', dropped) = Grid.push g packet now horizon in
      note_depth (after_push (store_grid s g' dropped) (Grid.first_slot g') (Grid.last_slot g') now)

  -- Arrival clocking: into the jitter buffer.
  unfoldable pub enqueue_buffer : Scheduler F → Packet → ℕ → Scheduler F
  unfolding note_depth arm
  enqueue_buffer s packet now =
      let (buffer', dropped) = Jitter.push s.buffer packet in
      let stats' =
        if dropped
        then record (s.stats) { dropped_packets = sat_add s.stats.dropped_packets 1 }
        else s.stats in
      arm fl
        (note_depth
          (record s { media = Media.observe fl s.media packet; buffer = buffer'; stats = stats' }))
        now

  abbrev pub enqueue_at : Scheduler F → Option StreamGrid → Packet → ℕ → Scheduler F
  enqueue_at s (some g) packet now = enqueue_grid s g packet now
  enqueue_at s none packet now = enqueue_buffer s packet now

  -- What every content packet does before it is placed.
  unfoldable pub admit_content : Scheduler F → Packet → ℕ → Scheduler F
  unfolding mark_arrival resume resize
  admit_content s packet now =
      let resumed = if s.is_stalled then resume fl s now else s in
      let s' = learn_pid (mark_arrival resumed now) packet in
      let rate = unwrap_or (estimated_rate_pps fl s'.media) (zero_f fl) in
      resize fl (record s' { profile = Arrival.observe fl s'.profile now rate })

  unfoldable pub enqueue : Scheduler F → Packet → ℕ → Scheduler F
  unfolding admit_content enqueue_grid enqueue_buffer
  enqueue s packet now =
      let s' = admit_content s packet now in
      if pid packet == null_pid
      then record s {
        stats = record (s.stats) { input_nulls_stripped = sat_add s.stats.input_nulls_stripped 1 };
      }
      else enqueue_at s' s'.grid packet now
