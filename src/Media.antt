-- ===== src/Media.antt =====
-- src/scheduler.rs, `MediaClock`: the content rate recovered from the source PCR, and how much content
-- it releases. Instants and durations are nanoseconds; `F` is the type of an f64.
use mpegts_pacer.Prelude.{
  ℕ, ◌-◌, max, Bool, true, false, ◌&&◌, not, Option, none, some, ltb, leb, if◌then◌else◌, sat_add,
  wrap_add, unwrap_or,
}
use mpegts_pacer.Float.{Float, as_secs}
use mpegts_pacer.Pcr.{
  forward_delta, ticks_to_duration, declares_discontinuity, pcr_discontinuity_gap,
}
use mpegts_pacer.Packet.{Packet, pcr}

pub record MediaClock (F : Type 0) : Type 0 where
  pub anchor : Option ℕ
  pub ticked : Option ℕ
  pub credit : F
  pub released : ℕ
  pub rate_pps : F
  pub estimated : Bool
  pub last_pcr : Option ℕ
  pub packets_since_pcr : ℕ
  pub decayed_packets : F
  pub decayed_secs : F
  pub intervals : ℕ
  pub pcrs_seen : ℕ
  pub max_packets_in_interval : ℕ
  pub sub_ms_intervals : ℕ
  pub pending_packets : ℕ
  pub pending_secs : F
  pub stalled_clock : Bool
  pub stall_clock_packets : ℕ
  pub carrier_pps : F

module _ (fl : Float) where
  open fl use {F, lit, of_ℕ, to_u64, add, sub, mul, div, neg, exp, fmax, clamp, lt, le}

  abbrev pub zero_f : F
  zero_f = lit 0 1

  abbrev pub rate_window : F
  rate_window = lit 2 1

  abbrev pub min_rate_sample : F
  min_rate_sample = lit 10 1000

  abbrev pub rate_servo_gain : F
  rate_servo_gain = lit 5 100

  unfoldable pub new : F → MediaClock F
  new fallback_pps = record {
    anchor = none;
    ticked = none;
    credit = zero_f;
    released = 0;
    rate_pps = fallback_pps;
    estimated = false;
    last_pcr = none;
    packets_since_pcr = 0;
    decayed_packets = zero_f;
    decayed_secs = zero_f;
    intervals = 0;
    pcrs_seen = 0;
    max_packets_in_interval = 0;
    sub_ms_intervals = 0;
    pending_packets = 0;
    pending_secs = zero_f;
    stalled_clock = false;
    stall_clock_packets = to_u64 (fmax fallback_pps (lit 1 1));
    carrier_pps = fallback_pps;
  }

  -- The rate that the decayed sums give, taken unless it passes the carrier's own.
  unfoldable pub adopt : MediaClock F → MediaClock F
  adopt m =
      let candidate = div m.decayed_packets m.decayed_secs in
      if lt zero_f m.decayed_secs
      then if le candidate m.carrier_pps
        then record m { rate_pps = candidate; estimated = true; stalled_clock = false }
        else record m { stalled_clock = true }
      else m

  -- A pending sample long enough is folded into the sums.
  unfoldable pub fold_sample : MediaClock F → MediaClock F
  unfolding adopt
  fold_sample m =
      let decay = exp (div (neg m.pending_secs) rate_window) in
      adopt (record m {
        decayed_packets = add (mul m.decayed_packets decay) (of_ℕ m.pending_packets);
        decayed_secs = add (mul m.decayed_secs decay) m.pending_secs;
        intervals = sat_add m.intervals 1;
        max_packets_in_interval = max m.max_packets_in_interval m.pending_packets;
        pending_packets = 0;
        pending_secs = zero_f;
      })

  -- An interval that reflects elapsed media time joins the pending sample.
  unfoldable pub admit_interval : MediaClock F → F → MediaClock F
  unfolding fold_sample
  admit_interval m secs =
      let pending = record m {
        sub_ms_intervals =
            if lt secs min_rate_sample then sat_add m.sub_ms_intervals 1 else m.sub_ms_intervals;
        pending_packets = sat_add m.pending_packets m.packets_since_pcr;
        pending_secs = add m.pending_secs secs;
      } in
      if le min_rate_sample pending.pending_secs
      then fold_sample pending
      else if ltb pending.stall_clock_packets pending.pending_packets
      then record pending { stalled_clock = true }
      else pending

  unfoldable pub observe_interval : MediaClock F → Option ℕ → Packet → ℕ → MediaClock F
  unfolding admit_interval
  observe_interval m none packet pcr = m
  observe_interval m (some last) packet pcr =
      let delta = forward_delta last pcr in
      let secs = as_secs fl (ticks_to_duration delta) in
      if ltb 0 delta
        && lt zero_f secs
        && leb (ticks_to_duration delta) pcr_discontinuity_gap
        && not (declares_discontinuity packet.bytes)
      then admit_interval m secs
      else m

  unfoldable pub observe : MediaClock F → Packet → MediaClock F
  unfolding observe_interval
  observe m packet =
      let counted = record m { packets_since_pcr = sat_add m.packets_since_pcr 1 } in
      elim (pcr packet) [
        | none ↦ counted
        | some value ↦
            let seen =
              observe_interval (record counted { pcrs_seen = sat_add counted.pcrs_seen 1 })
                counted.last_pcr packet value in
            record seen { last_pcr = some value; packets_since_pcr = 0 }
      ]

  unfoldable pub estimated_rate_pps : MediaClock F → Option F
  estimated_rate_pps m = if m.estimated then some m.rate_pps else none

  unfoldable pub release_rate : MediaClock F → ℕ → F → F
  release_rate m buffered target =
      if le target zero_f
      then m.rate_pps
      else mul m.rate_pps (
          add (lit 1 1) (
            mul (clamp (div (sub (of_ℕ buffered) target) target) (neg (lit 1 1)) (lit 1 1))
              rate_servo_gain))

  -- The clock is due to have released this many packets; before its anchor, none.
  unfoldable pub due : MediaClock F → ℕ → ℕ → F → MediaClock F × ℕ
  unfolding release_rate
  due m now buffered target = elim m.anchor [
    | none ↦ (m, 0)
    | some anchor ↦
        let last = unwrap_or m.ticked anchor in
        let advanced = record m {
          ticked = some now;
          credit = add m.credit (mul (as_secs fl (now - last)) (release_rate m buffered target));
        } in
        let ticked = if ltb last now then advanced else m in
        if ltb now anchor then (m, 0) else (ticked, wrap_add (to_u64 ticked.credit) 1)
  ]
