-- ===== src/Pacer/Run/Policy.antt =====
-- src/pacer.rs, `Reporter` in the loop of `pace_with`: what a run tells the observer.
use mpegts_pacer.Prelude.{
  ℕ, ◌≡◌, refl, ap, inl, inr, Bool, true, false, ◌&&◌, not, Option, none, some, List, [], ◌∷◌,
  Bool-cases, arith,
}
use mpegts_pacer.Float.{Float}
use mpegts_pacer.Error.{Result, ok, err}
use mpegts_pacer.Config.{StallPolicy, mute, continue, fail}
use mpegts_pacer.Observe.{Health}
use mpegts_pacer.Output.{Sink}
use mpegts_pacer.Packet.{Packet}
use mpegts_pacer.Scheduler.{
  has_pending, timed_out, stall_timeout, Scheduler, SourceState, priming, live, starved, stalled,
  state, pcr_position_diverged,
}
use mpegts_pacer.Scheduler.Liveness.{is_stalled, advance_muted, flush, poll_start}
use mpegts_pacer.Pacer.Report
use mpegts_pacer.Pacer.Report.{Reporter, same_state, is_due}
use mpegts_pacer.Pacer.{
  Arrival, packet, eof, silent, Pacer, Turn, running, stopped, on_waited, on_silent, on_eof,
  on_over, on_due, on_received, act, emit, settle, emit_and_settle, refuses, reported, stalls_hard,
  silence,
}
use mpegts_pacer.Pacer.Run.{Step, Runs, waits, ends, wakes, receives, rests, goes}

-- The observer was last told the state that the reporter remembers.
abbrev pub Heard : {F : Type 0} → List (Health F) → Option (SourceState × ℕ) → Type 0
Heard [] none = Unit {0}
Heard [] (some last) = ⊥
Heard (h ∷ told) none = ⊥
Heard (h ∷ told) (some (current, at)) = h.source ≡ current

pub same_state-eq : (a b : SourceState) → same_state a b ≡ true → a ≡ b
same_state-eq priming priming h = refl
same_state-eq live live h = refl
same_state-eq starved starved h = refl
same_state-eq stalled stalled h = refl
same_state-eq _ _ h = ground arith

kept_last :
    (o : Option (SourceState × ℕ)) (current : SourceState) (now : ℕ)
    → is_due o current now ≡ false
    → (at : ℕ) × (o ≡ some (current, at))
unfolding is_due
kept_last none current now h = ground arith
kept_last (some (before, at)) current now h =
    let same : same_state before current ≡ true = ground arith in
    (
      at,
      ap (λ c. let out : Option (SourceState × ℕ) = some (c, at) in out)
          (same_state-eq before current same),
    )

module _ {F : Type 0} where
  -- The reporter is at the given state, and the observer has heard it.
  abbrev pub UpToDate : Reporter F → SourceState → Type 0
  UpToDate r current = Heard r.told r.last × ((at : ℕ) × (r.last ≡ some (current, at)))

module _ (fl : Float) where
  open fl use {F}

  report-UpToDate :
      (r : Reporter F) (s : Scheduler F) (current : SourceState) (now : ℕ)
      → Heard r.told r.last
      → UpToDate (Report.report fl r s current now) current
  unfolding Report.report Report.emit
  report-UpToDate r s current now h = elim (Bool-cases (is_due r.last current now)) [
    | inl e ↦ rw e (refl, (now, refl))
    | inr e ↦ rw e (h, kept_last r.last current now e)
  ]

  force-Heard :
      (r : Reporter F) (s : Scheduler F) (now : ℕ)
      → let r' = Report.force fl r s now in Heard r'.told r'.last
  unfolding Report.force Report.emit
  force-Heard r s now = refl

module _ (fl : Float) (snk : Sink) where
  open fl use {F}

  -- The state that a turn leaves.
  abbrev pub left_by : Turn fl snk → Pacer fl snk
  left_by (running p) = p
  left_by (stopped r p) = p

  abbrev pub IsHeard : Pacer fl snk → Type 0
  IsHeard p = Heard p.reporter.told p.reporter.last

  -- What a turn of the byte clock leaves: a failed send leaves the reports alone, and any other turn
  -- leaves the observer with the state that the turn acted on.
  abbrev pub Acted : Turn fl snk → Pacer fl snk → SourceState → Type 0
  Acted (running q) p current = UpToDate q.reporter current
  Acted (stopped r q) p current = IsHeard q

  settle-Acted :
      (p q : Pacer fl snk) (current : SourceState) (now : ℕ)
      → IsHeard p
      → Acted (settle fl snk p current now) q current
  unfolding settle
  settle-Acted p q current now h =
      elim (Bool-cases
        (refuses p.config.pcr_position_policy && pcr_position_diverged p.scheduler)) [
          | inl e ↦ rw e (report-UpToDate fl p.reporter p.scheduler current now h).0
          | inr e ↦ rw e (report-UpToDate fl p.reporter p.scheduler current now h)
        ]

  emit_and_settle-Acted :
      (p : Pacer fl snk) (current : SourceState) (now : ℕ)
      → IsHeard p
      → Acted (emit_and_settle fl snk p current now) p current
  unfolding emit_and_settle
  emit_and_settle-Acted p current now h = after (emit fl snk p now).0
    where
      h' : IsHeard (emit fl snk p now).1
      h' = unfold emit in h

      after :
          (o : Result (Unit {0}))
          → Acted
              (elim o [
                | err e ↦ stopped (err e) (emit fl snk p now).1
                | ok _ ↦ settle fl snk (emit fl snk p now).1 current now
              ])
              p
              current
      after (err e) = h'
      after (ok _) = settle-Acted (emit fl snk p now).1 p current now h'

  on_due-Acted :
      (p : Pacer fl snk) (now : ℕ)
      → IsHeard p
      → Acted (on_due fl snk p now) p (state p.scheduler now)
  unfolding on_due act
  on_due-Acted p now h =
      by_policy (is_stalled (state p.scheduler now) && not p.closing) p.config.stall_policy
    where
      by_policy :
          (b : Bool) (policy : StallPolicy)
          → Acted (act fl snk p b policy (state p.scheduler now) now) p (state p.scheduler now)
      by_policy true mute =
          settle-Acted (record p { scheduler = advance_muted p.scheduler now }) p
            (state p.scheduler now) now h
      by_policy true fail = force-Heard fl p.reporter p.scheduler now
      by_policy true continue = emit_and_settle-Acted p (state p.scheduler now) now h
      by_policy false policy = emit_and_settle-Acted p (state p.scheduler now) now h

  on_waited-IsHeard :
      (p : Pacer fl snk) (r : Result Arrival) (now : ℕ)
      → IsHeard p
      → IsHeard (left_by (on_waited fl snk p r now))
  unfolding on_waited on_eof on_silent
  on_waited-IsHeard p (err e) now h = h
  on_waited-IsHeard p (ok (packet received)) now h = h
  on_waited-IsHeard p (ok eof) now h = elim (Bool-cases (has_pending (flush p.scheduler))) [
    | inl e ↦ rw e h
    | inr e ↦ rw e h
  ]
  on_waited-IsHeard p (ok silent) now h =
      let polled = record p { scheduler = poll_start fl p.scheduler now } in
      let told = reported fl snk polled (state polled.scheduler now) now in
      let h' = report-UpToDate fl p.reporter polled.scheduler (state polled.scheduler now) now h in
      elim (Bool-cases (
        stalls_hard p.config
        && timed_out (stall_timeout told.scheduler) (silence fl snk told now))) [
          | inl e ↦ rw e h'.0
          | inr e ↦ rw e h'.0
        ]

  on_received-IsHeard :
      (p : Pacer fl snk) (r : Result (Option Packet)) (now : ℕ)
      → IsHeard p
      → IsHeard (left_by (on_received fl snk p r now))
  unfolding on_received
  on_received-IsHeard p (err e) now h = h
  on_received-IsHeard p (ok (some received)) now h = h
  on_received-IsHeard p (ok none) now h = h

  Acted-IsHeard :
      (t : Turn fl snk) (p : Pacer fl snk) (current : SourceState)
      → Acted t p current
      → IsHeard (left_by t)
  Acted-IsHeard (running q) p current a = a.0
  Acted-IsHeard (stopped r q) p current a = a

  Step-IsHeard :
      (p : Pacer fl snk) (t : Turn fl snk) → IsHeard p → Step fl snk p t → IsHeard (left_by t)
  unfolding on_over
  Step-IsHeard p _ h (waits r now e) = on_waited-IsHeard p r now h
  Step-IsHeard p _ h (ends due now e o) = force-Heard fl p.reporter p.scheduler now
  Step-IsHeard p _ h (wakes due now e o le) =
      Acted-IsHeard (on_due fl snk p now) p (state p.scheduler now) (on_due-Acted p now h)
  Step-IsHeard p _ h (receives due now r e c) = on_received-IsHeard p r now h

  Runs-IsHeard :
      (p : Pacer fl snk) (t : Turn fl snk) → IsHeard p → Runs fl snk p t → IsHeard (left_by t)
  Runs-IsHeard p _ h rests = h
  Runs-IsHeard p t h (goes q _ run step) = Step-IsHeard q t (Runs-IsHeard p (running q) h run) step

  -- Anywhere on a run, a slot of the byte clock that lets the run go on leaves the observer knowing
  -- the state of the source on which the slot acted, whether or not the slot reported it.
  pub on_due-told :
      (p q r : Pacer fl snk) (now : ℕ)
      → Heard p.reporter.told p.reporter.last
      → Runs fl snk p (running q)
      → on_due fl snk q now ≡ running r
      → UpToDate r.reporter (state q.scheduler now)
  on_due-told p q r now h run e = rw e at (on_due-Acted q now (Runs-IsHeard p (running q) h run))
