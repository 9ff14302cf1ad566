-- ===== src/Config.antt =====
-- src/config.rs: the configuration of a pacer, its builders, and the checks before a run.
-- A duration is a number of nanoseconds. `F` is the type of an f64.
pub mod Checks
use Prim.Native.String.{String}
use mpegts_pacer.Prelude.{
  ℕ, ◌+◌, ◌*◌, max, min, Bool, true, false, ◌&&◌, not, Option, none, some, ltb, leb, if◌then◌else◌,
  is_some, is_none, leb, duration_max, duration_sat_add,
}
use mpegts_pacer.Float.{Float, mul_duration}
use mpegts_pacer.Error.{Result, ok, err, config}

pub data PcrMode : Type 0 where
  preserve regenerate : PcrMode

pub data StallPolicy : Type 0 where
  mute continue fail : StallPolicy

pub data PcrPositionPolicy : Type 0 where
  report fail : PcrPositionPolicy

pub data Clocking : Type 0 where
  arrival stream : Clocking

pub data Latency (F : Type 0) : Type 0 where
  fixed : (target most : ℕ) → Latency F
  adaptive : (floor ceiling : ℕ) (factor : F) → Latency F

pub data Stall : Type 0 where
  off : Stall
  after : ℕ → Stall
  adaptive : (grace : ℕ) → Stall

pub data Bitrate (F : Type 0) : Type 0 where
  constant : ℕ → Bitrate F
  auto : (headroom : F) → Bitrate F

pub record Config (F : Type 0) : Type 0 where
  pub bitrate : Bitrate F
  pub latency : Latency F
  pub pcr : PcrMode
  pub packets_per_datagram : ℕ
  pub pcr_max_interval : ℕ
  pub stall : Stall
  pub stall_policy : StallPolicy
  pub clocking : Clocking
  pub sequence_seed : ℕ
  pub pcr_position_policy : PcrPositionPolicy
  pub align : Option ℕ

abbrev pub default_packets_per_datagram : ℕ
default_packets_per_datagram = 7

abbrev pub default_latency : ℕ
default_latency = 200_000_000

abbrev pub default_max_latency : ℕ
default_max_latency = 2_000_000_000

abbrev pub default_latency_ceiling : ℕ
default_latency_ceiling = 8_000_000_000

abbrev pub default_pcr_max_interval : ℕ
default_pcr_max_interval = 40_000_000

abbrev pub default_stall_grace : ℕ
default_stall_grace = 1_000_000_000

abbrev pub default_auto_fallback : ℕ
default_auto_fallback = 4_000_000

-- `Ord::clamp` asserts `floor <= ceiling`: `none` is its panic.
unfoldable pub clamp : ℕ → ℕ → ℕ → Option ℕ
clamp x floor ceiling =
    if ltb ceiling floor
    then none
    else some (if ltb x floor then floor else if ltb ceiling x then ceiling else x)

abbrev pub is_stream : Clocking → Bool
is_stream stream = true
is_stream arrival = false

abbrev pub regenerates : PcrMode → Bool
regenerates regenerate = true
regenerates preserve = false

abbrev pub is_adaptive : {F : Type 0} → Latency F → Bool
is_adaptive (fixed target most) = false
is_adaptive (adaptive floor ceiling factor) = true

module _ (fl : Float) where
  open fl use {F, lit, fmax}

  abbrev pub default_latency_factor : F
  default_latency_factor = lit 5 2

  -- `none` is a panic: of `mul_f64`, on a product that is no duration, or of `clamp`.
  unfoldable pub target : Latency F → ℕ → Option ℕ
  unfolding clamp
  target (fixed pinned most) lead = some pinned
  target (adaptive floor ceiling factor) lead =
      elim (mul_duration fl lead (fmax factor (lit 0 1))) [
        | none ↦ none
        | some product ↦ clamp product floor ceiling
      ]

  -- `target * 2` on a duration; a target of more than half the longest duration, for which it
  -- panics, is left out.
  unfoldable pub cap : Latency F → ℕ → ℕ
  cap (fixed target most) current = most
  cap (adaptive floor ceiling factor) current = max (current * 2) default_max_latency

  unfoldable pub floor_of : Latency F → ℕ
  floor_of (fixed pinned most) = pinned
  floor_of (adaptive floor ceiling factor) = floor

  unfoldable pub start_deadline : Latency F → Option ℕ
  start_deadline (fixed target most) = none
  start_deadline (adaptive floor ceiling factor) = some ceiling

  -- `Latency::default()`
  abbrev pub default_depths : Latency F
  default_depths = adaptive default_latency default_latency_ceiling default_latency_factor

  unfoldable pub with_rate : Bitrate F → Config F
  with_rate bitrate = record {
    bitrate = bitrate;
    latency = default_depths;
    pcr = regenerate;
    packets_per_datagram = default_packets_per_datagram;
    pcr_max_interval = default_pcr_max_interval;
    stall = adaptive default_stall_grace;
    stall_policy = mute;
    clocking = arrival;
    sequence_seed = 0;
    pcr_position_policy = report;
    align = none;
  }

  unfoldable pub new : ℕ → Config F
  unfolding with_rate
  new bitrate = with_rate (constant bitrate)

  unfoldable pub auto_rate : Config F
  unfolding with_rate
  auto_rate = with_rate (auto (lit 15 100))

  unfoldable pub with_latency : Config F → ℕ → Config F
  unfolding cap
  with_latency c latency = record c { latency = fixed latency (cap c.latency latency) }

  -- `none` is the panic of `target`.
  unfoldable pub with_max_latency : Config F → ℕ → Option (Config F)
  unfolding target
  with_max_latency c max_latency = elim (target c.latency 0) [
    | none ↦ none
    | some current ↦ some (record c { latency = fixed current max_latency })
  ]

  -- `none` is the panic of a product that is no duration.
  unfoldable pub with_segment_duration : Config F → ℕ → Option (Config F)
  unfolding with_latency with_max_latency
  with_segment_duration c segment = elim (mul_duration fl segment default_latency_factor) [
    | none ↦ none
    | some pinned ↦
        let pinned_at = with_max_latency (with_latency c pinned) (pinned * 2) in
        if leb (pinned * 2) duration_max then pinned_at else none
  ]

module _ {F : Type 0} where
  unfoldable pub with_bitrate : Config F → Bitrate F → Config F
  with_bitrate c bitrate = record c { bitrate = bitrate }

  unfoldable pub with_pcr_mode : Config F → PcrMode → Config F
  with_pcr_mode c pcr = record c { pcr = pcr }

  unfoldable pub with_pcr_max_interval : Config F → ℕ → Config F
  with_pcr_max_interval c interval = record c { pcr_max_interval = interval }

  unfoldable pub with_stall_grace : Config F → ℕ → Config F
  with_stall_grace c grace = record c { stall = adaptive grace }

  unfoldable pub with_stall_policy : Config F → StallPolicy → Config F
  with_stall_policy c policy = record c { stall_policy = policy }

  unfoldable pub with_clocking : Config F → Clocking → Config F
  with_clocking c clocking = record c { clocking = clocking }

  unfoldable pub with_sequence_seed : Config F → ℕ → Config F
  with_sequence_seed c seed = record c { sequence_seed = seed }

  unfoldable pub with_pcr_position_policy : Config F → PcrPositionPolicy → Config F
  with_pcr_position_policy c policy = record c { pcr_position_policy = policy }

  unfoldable pub resolved_bitrate : Config F → Option ℕ
  resolved_bitrate c = elim c.bitrate [ constant bitrate ↦ some bitrate | auto headroom ↦ none ]

  unfoldable pub with_adaptive_latency : Config F → ℕ → ℕ → F → Config F
  with_adaptive_latency c floor ceiling factor = record c {
    latency = adaptive floor ceiling factor;
  }

  unfoldable pub with_packets_per_datagram : Config F → ℕ → Config F
  with_packets_per_datagram c packets = record c { packets_per_datagram = max packets 1 }

  unfoldable pub with_stall_timeout : Config F → Option ℕ → Config F
  with_stall_timeout c timeout = record c { stall = elim timeout [ some t ↦ after t | none ↦ off ] }

  unfoldable pub with_align : Config F → ℕ → Config F
  with_align c window = record c { align = some window }

  -- `matches!(Latency::Fixed { target, max } if target > max)`
  abbrev pub overfull : Latency F → Bool
  overfull (fixed target most) = ltb most target
  overfull (adaptive floor ceiling factor) = false

  -- The checks in their order; each message is cut to its subject.
  unfoldable pub validate : Config F → Result (Unit {0})
  unfolding resolved_bitrate
  validate c =
      if overfull c.latency
      then err (config "latency exceeds max_latency")
      else if is_some c.align && not (is_stream c.clocking)
      then err (config "alignment ties the output clock to stream position")
      else if not (is_stream c.clocking)
      then ok tt
      else if is_none (resolved_bitrate c)
      then err (config "stream clocking needs an explicit constant bitrate")
      else if not (regenerates c.pcr)
      then err (config "stream clocking needs PcrMode::Regenerate")
      else if is_adaptive c.latency
      then err (config "stream clocking needs an explicit latency")
      else ok tt

unfoldable pub timeout : Stall → ℕ → Option ℕ
timeout off target = none
timeout (after t) target = some t
timeout (adaptive grace) target = some (duration_sat_add target grace)
