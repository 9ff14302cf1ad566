-- ===== src/Pacer/Run/Stalled.antt =====
-- src/pacer.rs, the match on the stall policy in `pace_with`: what a slot puts on the wire.
use mpegts_pacer.Prelude.{
  ℕ, ◌≡◌, refl, ap, ◌∙◌, inl, inr, Bool, true, false, ◌&&◌, not, Option, none, some, List, [], ◌∷◌,
  if◌then◌else◌, Bool-cases,
}
use mpegts_pacer.Float.{Float}
use mpegts_pacer.Error.{Result, ok, err, source_stalled}
use mpegts_pacer.Config.{StallPolicy, mute, continue, fail}
use mpegts_pacer.Output.{Sink}
use mpegts_pacer.Scheduler.Emit.{emit_datagram}
use mpegts_pacer.Scheduler.{
  Scheduler, SourceState, Framing, framing, state, silent_for, pcr_position_diverged,
}
use mpegts_pacer.Scheduler.Liveness.{is_stalled, advance_muted}
use mpegts_pacer.Pacer.{
  Pacer, Turn, stopped, on_due, act, emit, settle, emit_and_settle, refuses, is_fail, offer,
  send_if_any,
}
use mpegts_pacer.Pacer.Run.Policy.{left_by}
use mpegts_pacer.Pacer.Run.Sent.{tapped}

-- What has been sent, once a datagram that may be empty is.
abbrev pub put_in : List ℕ → List (List ℕ) → List (List ℕ)
put_in [] log = log
put_in (b ∷ bytes) log = (b ∷ bytes) ∷ log

-- Whether a policy keeps a stalled source off the wire.
abbrev pub silences : StallPolicy → Bool
silences mute = true
silences continue = false
silences fail = true

module _ (fl : Float) (snk : Sink) where
  open fl use {F}

  -- A pacer whose sink keeps what it is sent.
  abbrev Tapped : Type 0
  Tapped = Pacer fl (tapped fl snk)

  -- Whether the slot finds a source that is stalled, not ended, under a policy that keeps it silent.
  abbrev pub quiet : Tapped → ℕ → Bool
  quiet p now =
      (is_stalled (state p.scheduler now) && not p.closing) && silences p.config.stall_policy

  -- The leg behind a slot.
  abbrev pub after_slot : Tapped → StallPolicy → Bool → ℕ → Scheduler F
  after_slot p policy silent now =
      if silent
      then (if is_fail policy then p.scheduler else advance_muted p.scheduler now)
      else emit_datagram fl p.scheduler now

  -- A run that has ended, if it must, with the length of the silence.
  abbrev pub Ends : Turn fl (tapped fl snk) → Bool → ℕ → Type 0
  Ends t true silence = t ≡ stopped (err (source_stalled silence)) (left_by fl (tapped fl snk) t)
  Ends t false silence = Unit {0}

  sent_log :
      (s : (tapped fl snk).State) (now : ℕ) (bytes : List ℕ)
      → (send_if_any fl (tapped fl snk) s now bytes).1.1 ≡ put_in bytes s.1
  sent_log s now [] = refl
  sent_log s now (b ∷ bytes) = refl

  offer_log :
      (s : (tapped fl snk).State) (o : Option Framing) → (offer fl (tapped fl snk) s o).1 ≡ s.1
  offer_log s none = refl
  offer_log s (some position) = refl

  pub emit-log :
      (p : Tapped) (now : ℕ)
      → (emit fl (tapped fl snk) p now).1.sink.1
        ≡ put_in (emit_datagram fl p.scheduler now).scratch p.sink.1
  unfolding emit
  emit-log p now =
      let bytes = (emit_datagram fl p.scheduler now).scratch in
      sent_log (offer fl (tapped fl snk) p.sink (framing p.scheduler)) now bytes
      ∙ ap (put_in bytes) (offer_log p.sink (framing p.scheduler))

  -- What a turn leaves is the leg and the log of another pacer.
  abbrev pub LeavesAs : Tapped → Turn fl (tapped fl snk) → Type 0
  LeavesAs p t =
      ((left_by fl (tapped fl snk) t).sink.1 ≡ p.sink.1)
      × ((left_by fl (tapped fl snk) t).scheduler ≡ p.scheduler)

  pub settle-LeavesAs :
      (p : Tapped) (current : SourceState) (now : ℕ)
      → LeavesAs p (settle fl (tapped fl snk) p current now)
  unfolding settle
  settle-LeavesAs p current now =
      elim (Bool-cases
        (refuses p.config.pcr_position_policy && pcr_position_diverged p.scheduler)) [
          | inl e ↦ rw e (refl, refl)
          | inr e ↦ rw e (refl, refl)
        ]

  pub emit_and_settle-LeavesAs :
      (p : Tapped) (current : SourceState) (now : ℕ)
      → LeavesAs
          (emit fl (tapped fl snk) p now).1
          (emit_and_settle fl (tapped fl snk) p current now)
  unfolding emit_and_settle
  emit_and_settle-LeavesAs p current now = by_answer (emit fl (tapped fl snk) p now).0
    where
      after : Tapped
      after = (emit fl (tapped fl snk) p now).1

      by_answer :
          (o : Result (Unit {0}))
          → LeavesAs after (elim o [
            | err e ↦ stopped (err e) after
            | ok _ ↦ settle fl (tapped fl snk) after current now
          ])
      by_answer (err e) = (refl, refl)
      by_answer (ok _) = settle-LeavesAs after current now

  emitted :
      (p : Tapped) (current : SourceState) (now : ℕ)
      → let q = left_by fl (tapped fl snk) (emit_and_settle fl (tapped fl snk) p current now) in
        (q.sink.1 ≡ put_in (emit_datagram fl p.scheduler now).scratch p.sink.1)
        × (q.scheduler ≡ emit_datagram fl p.scheduler now)
  unfolding emit
  emitted p current now =
      let (sink, scheduler) = emit_and_settle-LeavesAs p current now in
      (sink ∙ emit-log p now, scheduler)

  -- A slot under the stall policies, by a sink that keeps what it is sent. A slot that finds a source
  -- stalled before its end sends nothing under `mute` and under `fail`: the one takes up the slots of
  -- the datagram, the other leaves the leg and ends the run with the length of the silence. In every
  -- other slot, under `continue` and once the source has ended too, the sink is sent just the datagram
  -- that the leg has made, unless that is empty, whatever the sink then answers.
  pub on_due-log :
      (p : Tapped) (now : ℕ)
      → let t = on_due fl (tapped fl snk) p now in
        let q = left_by fl (tapped fl snk) t in
        let silent = quiet p now in
        (q.sink.1 ≡ (
          if silent then p.sink.1 else put_in (emit_datagram fl p.scheduler now).scratch p.sink.1))
        × (q.scheduler ≡ after_slot p p.config.stall_policy silent now)
        × Ends t (silent && is_fail p.config.stall_policy) (silent_for p.scheduler now)
  unfolding on_due act
  on_due-log p now =
      by_policy (is_stalled (state p.scheduler now) && not p.closing) p.config.stall_policy
    where
      by_policy :
          (b : Bool) (policy : StallPolicy)
          → let t = act fl (tapped fl snk) p b policy (state p.scheduler now) now in
            let q = left_by fl (tapped fl snk) t in
            let silent = b && silences policy in
            (q.sink.1 ≡ (
              if silent
              then p.sink.1
              else put_in (emit_datagram fl p.scheduler now).scratch p.sink.1))
            × (q.scheduler ≡ after_slot p policy silent now)
            × Ends t (silent && is_fail policy) (silent_for p.scheduler now)
      by_policy true mute =
          let muted = record p { scheduler = advance_muted p.scheduler now } in
          let (log, leg) = settle-LeavesAs muted (state p.scheduler now) now in (log, leg, tt)
      by_policy true fail = (refl, refl, refl)
      by_policy true continue =
          let (log, leg) = emitted p (state p.scheduler now) now in (log, leg, tt)
      by_policy false policy =
          let (log, leg) = emitted p (state p.scheduler now) now in (log, leg, tt)
