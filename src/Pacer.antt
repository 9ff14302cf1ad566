-- ===== src/Pacer.antt =====
-- src/pacer.rs: the pacing loop `pace_with`, one turn at a time. What the loop waits for is the
-- argument of a turn: the packet or the silence that came, and the instant that the code then reads.
-- A turn is a function of the state; `Pacer/Run` says which turn the loop takes when.
pub mod Report
pub mod Warmup
pub mod Run
pub mod Wire
pub mod Handle
use mpegts_pacer.Prelude.{
  ℕ, ◌+◌, ◌-◌, Bool, true, false, ◌&&◌, ◌||◌, not, Option, none, some, List, [], ◌∷◌, leb, ◌==◌,
  if◌then◌else◌, unwrap_or,
}
use mpegts_pacer.Float.{Float}
use mpegts_pacer.Error.{Error, Result, ok, err, source_stalled, source_pcr_position}
use mpegts_pacer.Config.{
  Config, Stall, off, after, adaptive, StallPolicy, mute, continue, fail, PcrPositionPolicy, report,
  timeout, target,
}
use mpegts_pacer.Arrival.{delivery_gap}
use mpegts_pacer.Packet.{Packet}
use mpegts_pacer.Output.{Sink}
use mpegts_pacer.Observe.{Health}
use mpegts_pacer.Stats.{Stats}
use mpegts_pacer.Scheduler.{
  Scheduler, SourceState, state, Framing, framing, has_pending, snapshot, silent_for, stall_timeout,
  timed_out, pcr_position_diverged,
}
use mpegts_pacer.Scheduler.Liveness.{is_stalled, advance_muted, start_now, flush, poll_start}
use mpegts_pacer.Scheduler.Enqueue.{enqueue}
use mpegts_pacer.Scheduler.Emit.{emit_datagram}
use mpegts_pacer.Pacer.Report.{Reporter}
use mpegts_pacer.Pacer.Report

abbrev pub idle_poll : ℕ
idle_poll = 1_000_000_000

abbrev pub start_poll : ℕ
start_poll = delivery_gap

-- The outcome of one bounded wait on the source.
pub data Arrival : Type 0 where
  packet : Packet → Arrival
  eof silent : Arrival

-- `config.stall != Stall::Off`
abbrev pub is_on : Stall → Bool
is_on off = false
is_on (after t) = true
is_on (adaptive grace) = true

abbrev pub is_fail : StallPolicy → Bool
is_fail mute = false
is_fail continue = false
is_fail fail = true

abbrev pub refuses : PcrPositionPolicy → Bool
refuses report = false
refuses fail = true

module _ {F : Type 0} where
  unfoldable pub stalls_hard : Config F → Bool
  stalls_hard c = is_on c.stall && is_fail c.stall_policy

module _ (fl : Float) where
  open fl use {F}

  -- `none` is the panic of `Latency::target`.
  unfoldable pub wait_budget : Config F → Option ℕ
  wait_budget c = elim (target fl c.latency 0) [
    | none ↦ none
    | some pinned ↦ some (unwrap_or (timeout c.stall pinned) idle_poll)
  ]

module _ (fl : Float) (snk : Sink) where
  open fl use {F}

  -- The locals of the loop, with the sink and the reports made so far.
  pub record Pacer : Type 0 where
    pub config : Config F
    pub scheduler : Scheduler F
    pub closing : Bool
    pub reporter : Reporter F
    pub started_at : ℕ
    pub sink : snk.State

  -- A turn either comes back to the head of the loop or returns.
  pub data Turn : Type 0 where
    running : Pacer → Turn
    stopped : Result (Stats F) → Pacer → Turn

  abbrev pub reported : Pacer → SourceState → ℕ → Pacer
  reported p current now = record p {
    reporter = Report.report fl p.reporter p.scheduler current now;
  }

  abbrev pub forced : Pacer → ℕ → Pacer
  forced p now = record p { reporter = Report.force fl p.reporter p.scheduler now }

  -- How long the source has been silent: since its last content, or since the run began.
  abbrev pub silence : Pacer → ℕ → ℕ
  silence p now =
      if silent_for p.scheduler now == 0 then now - p.started_at else silent_for p.scheduler now

  unfoldable pub on_silent : Pacer → ℕ → Turn
  unfolding stalls_hard
  on_silent p now =
      let polled = record p { scheduler = poll_start fl p.scheduler now } in
      let told = reported polled (state polled.scheduler now) now in
      if stalls_hard p.config && timed_out (stall_timeout told.scheduler) (silence told now)
      then stopped (err (source_stalled (silence told now))) told
      else running told

  unfoldable pub on_eof : Pacer → ℕ → Turn
  on_eof p now =
      let flushed = flush p.scheduler in
      if has_pending flushed
      then running (record p { scheduler = start_now flushed now; closing = true })
      else stopped (ok (snapshot fl flushed)) (record p { scheduler = flushed })

  -- The clock is not armed: one bounded wait.
  unfoldable pub on_waited : Pacer → Result Arrival → ℕ → Turn
  unfolding on_silent on_eof
  on_waited p (err e) now = stopped (err e) p
  on_waited p (ok (packet received)) now =
      running (record p { scheduler = enqueue fl p.scheduler received now })
  on_waited p (ok eof) now = on_eof p now
  on_waited p (ok silent) now = on_silent p now

  -- `closing && !scheduler.has_pending()`
  unfoldable pub is_over : Pacer → Bool
  is_over p = p.closing && not (has_pending p.scheduler)

  unfoldable pub on_over : Pacer → ℕ → Turn
  on_over p now = stopped (ok (snapshot fl p.scheduler)) (forced p now)

  abbrev pub offer : snk.State → Option Framing → snk.State
  offer s none = s
  offer s (some position) = snk.set_framing s position

  -- `sink.send(datagram).await?`, when there is a datagram.
  abbrev pub send_if_any : snk.State → ℕ → List ℕ → Result (Unit {0}) × snk.State
  send_if_any s now [] = (ok tt, s)
  send_if_any s now (b ∷ bytes) = snk.send s now (b ∷ bytes)

  -- The slot's datagram emitted, and the sink's answer.
  unfoldable pub emit : Pacer → ℕ → Result (Unit {0}) × Pacer
  emit p now =
      let scheduler' = emit_datagram fl p.scheduler now in
      let (sent, sink') = send_if_any (offer p.sink (framing p.scheduler)) now scheduler'.scratch in
      (sent, record p { scheduler = scheduler'; sink = sink' })

  -- The end of a slot: the report, then the check of the PCR positions.
  unfoldable pub settle : Pacer → SourceState → ℕ → Turn
  settle p current now =
      let told = reported p current now in
      let stats = snapshot fl told.scheduler in
      if refuses p.config.pcr_position_policy && pcr_position_diverged told.scheduler
      then stopped
          (err (source_pcr_position stats.pcr_position_displacement stats.pcr_position_overruns))
          told
      else running told

  unfoldable pub emit_and_settle : Pacer → SourceState → ℕ → Turn
  unfolding settle
  emit_and_settle p current now = elim (emit p now).0 [
    | err e ↦ stopped (err e) (emit p now).1
    | ok _ ↦ settle (emit p now).1 current now
  ]

  -- The match on the stall and its policy.
  unfoldable pub act : Pacer → Bool → StallPolicy → SourceState → ℕ → Turn
  unfolding emit_and_settle settle
  act p true mute current now =
      settle (record p { scheduler = advance_muted p.scheduler now }) current now
  act p true fail current now =
      stopped (err (source_stalled (silent_for p.scheduler now))) (forced p now)
  act p true continue current now = emit_and_settle p current now
  act p false policy current now = emit_and_settle p current now

  -- The byte clock's slot is due.
  unfoldable pub on_due : Pacer → ℕ → Turn
  unfolding act
  on_due p now =
      let current = state p.scheduler now in
      act p (is_stalled current && not p.closing) p.config.stall_policy current now

  -- The source answered before the slot was due.
  unfoldable pub on_received : Pacer → Result (Option Packet) → ℕ → Turn
  on_received p (err e) now = stopped (err e) p
  on_received p (ok (some received)) now =
      running (record p { scheduler = enqueue fl p.scheduler received now })
  on_received p (ok none) now = running (record p { scheduler = flush p.scheduler; closing = true })
