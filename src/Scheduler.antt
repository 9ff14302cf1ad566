-- ===== src/Scheduler.antt =====
-- src/scheduler.rs, `Scheduler`: its state, its construction, and the reads of it. The methods that
-- change it are in the child modules: `Liveness`, `Enqueue` and `Emit`. Instants and durations are
-- nanoseconds; `F` is the type of an f64.
pub mod Liveness
pub mod Enqueue
pub mod Emit
use mpegts_pacer.Prelude.{
  ℕ, ◌+◌, ◌-◌, ◌*◌, ◌/◌, ◌%◌, ◌^◌, max, min, Bool, true, false, not, Option, none, some, List, [],
  ◌∷◌, ltb, leb, if◌then◌else◌, is_none, unwrap_or, length, sat_add, wrap_add, u16_mod, u32_mod,
  u64_max, checked_sub,
}
use mpegts_pacer.Prelude.Int.{ℤ, pos}
use mpegts_pacer.Float.{Float, as_secs, mul_duration}
use mpegts_pacer.Config.{
  Config, Latency, Stall, PcrMode, Clocking, regenerate, preserve, is_stream, resolved_bitrate,
  target, cap, timeout, default_auto_fallback,
}
use mpegts_pacer.Pcr.{packet_bits}
use mpegts_pacer.Pcr.Regen
use mpegts_pacer.Pcr.Regen.{PcrRegen}
use mpegts_pacer.Slot.{pcr_of_slot}
use mpegts_pacer.Packet.{Packet, null_packet}
use mpegts_pacer.Jitter
use mpegts_pacer.Jitter.{JitterBuffer}
use mpegts_pacer.Grid
use mpegts_pacer.Grid.{StreamGrid, Base}
use mpegts_pacer.Arrival
use mpegts_pacer.Arrival.{ArrivalProfile}
use mpegts_pacer.Media
use mpegts_pacer.Media.{MediaClock}
use mpegts_pacer.Stats.{Stats, zeroed}

pub data SourceState : Type 0 where
  priming live starved stalled : SourceState

pub record Framing : Type 0 where
  pub slot : ℕ
  pub sequence : ℕ
  pub timestamp_90khz : ℕ

pub record Scheduler (F : Type 0) : Type 0 where
  pub mux_rate_bps : ℕ
  pub latency : Latency F
  pub target : ℕ
  pub profile : ArrivalProfile
  pub packets_per_datagram : ℕ
  pub buffer : JitterBuffer Packet
  pub media : MediaClock F
  pub pcr_regen : Option PcrRegen
  pub null : List ℕ
  pub pcr_pid : Option ℕ
  pub pcr_pid_cc : ℕ
  pub last_pcr_index : Option ℕ
  pub pcr_base : ℤ
  pub pcr_max_packets : ℕ
  pub deferred : List (Packet × Base)
  pub anchor : Option ℕ
  pub anchor_slot : ℕ
  pub slot : ℕ
  pub grid : Option StreamGrid
  pub phased : Bool
  pub latency_packets : ℕ
  pub max_latency_packets : ℕ
  pub sequence_seed : ℕ
  pub align : Option ℕ
  -- arrival and slot of the content that came soonest after its stream position
  pub soonest : Option (ℕ × ℕ)
  pub stall : Stall
  pub first_content_at : Option ℕ
  pub last_content_at : Option ℕ
  pub is_stalled : Bool
  pub scratch : List ℕ
  pub stats : Stats F

-- The nanoseconds that `packets` take at a rate: a u128 quotient, cut to u64.
unfoldable pub packets_at_rate : ℕ → ℕ → ℕ
packets_at_rate mux_rate_bps packets =
    min (packets * packet_bits * 1_000_000_000 / mux_rate_bps) u64_max

module _ (fl : Float) where
  open fl use {F, lit, of_ℕ, to_u64, mul, div, ceil}

  -- `(bits / PACKET_BITS as f64).ceil() as usize`
  unfoldable pub latency_to_packets : ℕ → ℕ → ℕ
  latency_to_packets latency bitrate =
      to_u64 (ceil (div (mul (as_secs fl latency) (of_ℕ bitrate)) (of_ℕ packet_bits)))

  abbrev pub regen_for : PcrMode → ℕ → Option PcrRegen
  regen_for regenerate bitrate = some (Regen.new bitrate)
  regen_for preserve bitrate = none

  -- A scheduler at its first cushion, `pinned`. Three quarters of a duration are a duration, so that
  -- the product of the repetition interval does not panic.
  unfoldable pub primed : Config F → ℕ → Scheduler F
  unfolding latency_to_packets
  primed c pinned =
      let bitrate = max (unwrap_or (resolved_bitrate c) default_auto_fallback) 1 in
      let capacity = max (latency_to_packets (cap fl c.latency pinned) bitrate) 1 in
      let streamed = is_stream c.clocking in
      record {
        mux_rate_bps = bitrate;
        latency = c.latency;
        target = pinned;
        profile = Arrival.new;
        packets_per_datagram = max c.packets_per_datagram 1;
        buffer = Jitter.new capacity;
        media = Media.new fl (div (of_ℕ bitrate) (of_ℕ packet_bits));
        pcr_regen = regen_for c.pcr bitrate;
        null = null_packet;
        pcr_pid = none;
        pcr_pid_cc = 0;
        last_pcr_index = none;
        pcr_base = pos 0;
        pcr_max_packets =
            max
              (latency_to_packets (unwrap_or (mul_duration fl c.pcr_max_interval (lit 3 4)) 0)
                bitrate)
              1;
        deferred = [];
        anchor = none;
        anchor_slot = 0;
        slot = 0;
        grid = if streamed then some (Grid.new bitrate capacity) else none;
        phased = false;
        latency_packets = latency_to_packets pinned bitrate;
        max_latency_packets = capacity;
        sequence_seed = c.sequence_seed;
        align = if streamed then c.align else none;
        soonest = none;
        stall = c.stall;
        first_content_at = none;
        last_content_at = none;
        is_stalled = false;
        scratch = [];
        stats = zeroed fl;
      }

  -- `none` is the panic of `Latency::target`.
  unfoldable pub new : Config F → Option (Scheduler F)
  unfolding primed
  new c = elim (target fl c.latency 0) [ none ↦ none | some pinned ↦ some (primed c pinned) ]

abbrev pub held_back : Option StreamGrid → JitterBuffer Packet → ℕ
held_back (some g) b = length g.placed + length g.run
held_back none b = Jitter.len b

abbrev pub has_more : Option StreamGrid → JitterBuffer Packet → Bool
has_more (some g) b = Grid.has_content g
has_more none b = not (Jitter.is_empty b)

abbrev pub any_deferred : List (Packet × Base) → Bool
any_deferred [] = false
any_deferred (x ∷ xs) = true

-- Whether a silence passes the stall timeout.
abbrev pub timed_out : Option ℕ → ℕ → Bool
timed_out none silent = false
timed_out (some t) silent = leb t silent

abbrev pub millis : ℕ → ℕ
millis d = min (d / 1_000_000) u64_max

abbrev pub cut_of : Option StreamGrid → ℕ
cut_of none = 0
cut_of (some g) = g.cut

module _ {F : Type 0} where
  unfoldable pub packets_to_duration : Scheduler F → ℕ → ℕ
  unfolding packets_at_rate
  packets_to_duration s packets = packets_at_rate s.mux_rate_bps packets

  unfoldable pub buffered_packets : Scheduler F → ℕ
  buffered_packets s = held_back s.grid s.buffer + length s.deferred

  unfoldable pub has_pending : Scheduler F → Bool
  has_pending s = if any_deferred s.deferred then true else has_more s.grid s.buffer

  unfoldable pub stall_timeout : Scheduler F → Option ℕ
  stall_timeout s = timeout s.stall s.target

  unfoldable pub silent_for : Scheduler F → ℕ → ℕ
  silent_for s now = since s.last_content_at
    where
      since : Option ℕ → ℕ
      since (some last) = now - last
      since none = 0

  unfoldable pub next_due : Scheduler F → Option ℕ
  unfolding packets_to_duration
  next_due s = elim s.anchor [
    | none ↦ none
    | some a ↦ some (a + packets_to_duration s (s.slot - s.anchor_slot))
  ]

  abbrev pub framing_on : Scheduler F → StreamGrid → Framing
  framing_on s g = record {
    slot = s.slot;
    sequence = (s.slot / s.packets_per_datagram % u16_mod + s.sequence_seed) % u16_mod;
    timestamp_90khz = pcr_of_slot g.map s.slot / 300 % u32_mod;
  }

  unfoldable pub framing : Scheduler F → Option Framing
  framing s = elim s.grid [ none ↦ none | some g ↦ some (framing_on s g) ]

  unfoldable pub pcr_position_diverged : Scheduler F → Bool
  pcr_position_diverged s = elim s.grid [
    | none ↦ false
    | some g ↦ ltb s.max_latency_packets g.displacement_high_water
  ]

  -- The input's state, once content has arrived, at the end of `silent` nanoseconds without any.
  unfoldable pub state_after : Scheduler F → Option ℕ → ℕ → ℕ → SourceState
  state_after s none silent now = priming
  state_after s (some anchor) silent now =
      if ltb now anchor
      then priming
      else if has_pending s
      then live
      else if timed_out (stall_timeout s) silent
      then stalled
      else if leb s.target silent
      then starved
      else live

  unfoldable pub state : Scheduler F → ℕ → SourceState
  unfolding state_after
  state s now = elim s.last_content_at [
    | none ↦ priming
    | some last ↦ state_after s s.anchor (now - last) now
  ]

module _ (fl : Float) where
  open fl use {F, of_ℕ, to_u64, mul}

  -- `stats()`: the tally with what is read from live state.
  unfoldable pub snapshot : Scheduler F → Stats F
  snapshot s = record (s.stats) {
    burst_max_packets = Arrival.burst_max_packets s.profile;
    bursts = s.profile.bursts;
    arrival_lead_ms = millis (Arrival.lead s.profile);
    latency_target_ms = millis s.target;
    media_rate_bps = to_u64 (mul s.media.rate_pps (of_ℕ packet_bits));
    buffer_packets = buffered_packets s;
    rate_decayed_packets = s.media.decayed_packets;
    rate_decayed_secs = s.media.decayed_secs;
    rate_intervals = s.media.intervals;
    rate_pcrs_seen = s.media.pcrs_seen;
    rate_max_packets_in_interval = s.media.max_packets_in_interval;
    rate_sub_ms_intervals = s.media.sub_ms_intervals;
    rate_clock_stalled = s.media.stalled_clock;
    rate_pending_packets = s.media.pending_packets;
    cut_runs_packets = cut_of s.grid;
    pcr_position_displacement_ms = millis (packets_to_duration s s.stats.pcr_position_displacement);
  }
