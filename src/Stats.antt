-- ===== src/Stats.antt =====
-- src/stats.rs: the counters of a pacer. `F` is the type of an f64.
use mpegts_pacer.Prelude.{ℕ, Bool, false, ◌==◌, if◌then◌else◌}
use mpegts_pacer.Float.{Float}

pub record Stats (F : Type 0) : Type 0 where
  pub output_packets : ℕ
  pub content_packets : ℕ
  pub null_packets : ℕ
  pub dropped_packets : ℕ
  pub input_nulls_stripped : ℕ
  pub underruns : ℕ
  pub pcr_rebases : ℕ
  pub pcr_inserted : ℕ
  pub stalls : ℕ
  pub muted_packets : ℕ
  pub content_gap_max_ms : ℕ
  pub late_drops : ℕ
  pub withheld_packets : ℕ
  pub cut_runs_packets : ℕ
  pub resyncs : ℕ
  pub start_backlog : ℕ
  pub align_gain_us : ℕ
  pub burst_max_packets : ℕ
  pub bursts : ℕ
  pub arrival_lead_ms : ℕ
  pub media_rate_bps : ℕ
  pub latency_target_ms : ℕ
  pub buffer_high_water : ℕ
  pub buffer_packets : ℕ
  pub rate_decayed_packets : F
  pub rate_decayed_secs : F
  pub rate_intervals : ℕ
  pub rate_pcrs_seen : ℕ
  pub rate_max_packets_in_interval : ℕ
  pub rate_sub_ms_intervals : ℕ
  pub rate_clock_stalled : Bool
  pub rate_pending_packets : ℕ
  pub pcr_position_overruns : ℕ
  pub pcr_position_displacement : ℕ
  pub pcr_position_displacement_ms : ℕ

module _ (fl : Float) where
  open fl use {F, lit, of_ℕ, div}

  -- `Stats::default()`
  unfoldable pub zeroed : Stats F
  zeroed = record {
    output_packets = 0;
    content_packets = 0;
    null_packets = 0;
    dropped_packets = 0;
    input_nulls_stripped = 0;
    underruns = 0;
    pcr_rebases = 0;
    pcr_inserted = 0;
    stalls = 0;
    muted_packets = 0;
    content_gap_max_ms = 0;
    late_drops = 0;
    withheld_packets = 0;
    cut_runs_packets = 0;
    resyncs = 0;
    start_backlog = 0;
    align_gain_us = 0;
    burst_max_packets = 0;
    bursts = 0;
    arrival_lead_ms = 0;
    media_rate_bps = 0;
    latency_target_ms = 0;
    buffer_high_water = 0;
    buffer_packets = 0;
    rate_decayed_packets = lit 0 1;
    rate_decayed_secs = lit 0 1;
    rate_intervals = 0;
    rate_pcrs_seen = 0;
    rate_max_packets_in_interval = 0;
    rate_sub_ms_intervals = 0;
    rate_clock_stalled = false;
    rate_pending_packets = 0;
    pcr_position_overruns = 0;
    pcr_position_displacement = 0;
    pcr_position_displacement_ms = 0;
  }

  unfoldable pub null_ratio : Stats F → F
  null_ratio s =
      if s.output_packets == 0 then lit 0 1 else div (of_ℕ s.null_packets) (of_ℕ s.output_packets)
