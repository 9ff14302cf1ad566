-- ===== src/Pacer/Run/Counts.antt =====
-- src/pacer.rs, the loop of `pace_with`: what the output counter says of the datagrams sent.
use mpegts_pacer.Prelude.{
  ℕ, ◌+◌, ◌*◌, ◌≤◌, ◌<◌, ◌≡◌, refl, ap, ◌∙◌, ◌⊎◌, inl, inr, Bool, true, false, ◌&&◌, not, Option,
  none, some, List, [], ◌∷◌, length, length-append, All, arith, if◌then◌else◌, sat_add, u64_max,
}
use mpegts_pacer.Float.{Float}
use mpegts_pacer.Error.{Result, ok, err, source_stalled}
use mpegts_pacer.Config.{StallPolicy, mute, continue, fail}
use mpegts_pacer.Output.{Sink}
use mpegts_pacer.Packet.{Packet}
use mpegts_pacer.Source.Split.{IsPacket, on_wire}
use mpegts_pacer.Scheduler.{SourceState, state, has_pending, snapshot, timed_out, stall_timeout}
use mpegts_pacer.Scheduler.Liveness.{is_stalled, advance_muted, flush, start_now, poll_start}
use mpegts_pacer.Scheduler.Enqueue.Output.{start_now-Mute, poll_start-Mute, enqueue-Mute}
use mpegts_pacer.Scheduler.Emit.{emit_datagram}
use mpegts_pacer.Scheduler.Emit.Whole.{IsSound}
use mpegts_pacer.Scheduler.Emit.Output.{output, Tells, emit_datagram-Tells, advance_muted-Mute}
use mpegts_pacer.Pacer.{
  Arrival, packet, eof, silent, Pacer, Turn, running, stopped, on_waited, on_silent, on_eof,
  on_over, on_due, on_received, act, emit, settle, emit_and_settle, stalls_hard, silence, reported,
}
use mpegts_pacer.Pacer.Run.{Step, Runs, waits, ends, wakes, receives, rests, goes}
use mpegts_pacer.Pacer.Run.Policy.{left_by}
use mpegts_pacer.Pacer.Run.Sent.{tapped, Sends}
use mpegts_pacer.Pacer.Run.Whole.{IsFed, Step-Left}
use mpegts_pacer.Pacer.Run.Stalled.{
  put_in, LeavesAs, emit-log, settle-LeavesAs, emit_and_settle-LeavesAs,
}

put_in-whole :
    (bytes : List ℕ) (log : List (List ℕ)) → 0 < length bytes → put_in bytes log ≡ bytes ∷ log
put_in-whole [] log h = absurd (omega (arith, h))
put_in-whole (b ∷ bytes) log h = refl

module _ (fl : Float) (snk : Sink) where
  open fl use {F}

  abbrev Tapped : Type 0
  Tapped = Pacer fl (tapped fl snk)

  -- The packets in the log, in datagrams of `n`, are those that the counter has moved by since
  -- `start`, up to its largest value.
  abbrev Counts : ℕ → ℕ → Tapped → Type 0
  Counts start n p = output p.scheduler ≡ sat_add start (length p.sink.1 * n)

  -- A turn sends nothing and counts nothing, or sends a datagram and counts its packets.
  data Moves (n : ℕ) (p q : Tapped) : Type 0 where
    rested : q.sink.1 ≡ p.sink.1 → output q.scheduler ≡ output p.scheduler → Moves n p q
    sent :
        (bytes : List ℕ)
        → q.sink.1 ≡ bytes ∷ p.sink.1
        → output q.scheduler ≡ sat_add (output p.scheduler) n
        → Moves n p q

  Moves-Counts :
      (start n : ℕ) (p q : Tapped)
      → start ≤ u64_max
      → Moves n p q
      → Counts start n p
      → Counts start n q
  Moves-Counts start n p q room (rested log count) h = rw log (count ∙ h)
  Moves-Counts start n p q room (sent bytes log count) h =
      let more : (length p.sink.1 + 1) * n ≡ length p.sink.1 * n + n = omega arith in
      rw log (omega (arith, count, h, more))

  emitted-Moves :
      (n : ℕ) (p q : Tapped) (bytes : List ℕ)
      → output p.scheduler ≤ u64_max
      → q.sink.1 ≡ put_in bytes p.sink.1
      → ((bytes ≡ []) × (output q.scheduler ≡ output p.scheduler))
        ⊎ ((ps : List Packet) × (length ps ≡ n)
            × All IsPacket ps
            × (bytes ≡ on_wire ps)
            × (output q.scheduler ≡ sat_add (output p.scheduler) n))
      → Moves n p q
  emitted-Moves n p q bytes room log (inl (e, count)) =
      rested (log ∙ ap (λ b. put_in b p.sink.1) e) count
  emitted-Moves n p q bytes room log (inr ([], long, all, e, count)) =
      rested (log ∙ ap (λ b. put_in b p.sink.1) e) (omega (arith, count, long, room))
  emitted-Moves n p q bytes room log (inr (x ∷ ps, long, (whole, all), e, count)) =
      let some_bytes : 0 < length bytes =
        rw e (omega (arith, length-append x.bytes (on_wire ps), whole.0)) in
      sent bytes (log ∙ put_in-whole bytes p.sink.1 some_bytes) count

  -- What a turn does to the log and the counter.
  abbrev Turned : ℕ → Tapped → Turn fl (tapped fl snk) → Type 0
  Turned n p t = Moves n p (left_by fl (tapped fl snk) t)

  emit-Moves :
      (n : ℕ) (p : Tapped) (now : ℕ)
      → Sends fl snk n p
      → output p.scheduler ≤ u64_max
      → Moves n p (emit fl (tapped fl snk) p now).1
  unfolding emit
  emit-Moves n p now h room =
      emitted-Moves n p (emit fl (tapped fl snk) p now).1 (emit_datagram fl p.scheduler now).scratch
        room (emit-log fl snk p now)
        (sized p.scheduler.packets_per_datagram h.size
          (emit_datagram-Tells fl p.scheduler now h.sound room))
    where
      sized :
          (m : ℕ)
          → m ≡ n
          → Tells p.scheduler (emit_datagram fl p.scheduler now) m
          → Tells p.scheduler (emit_datagram fl p.scheduler now) n
      sized m e t = rw e at t

  -- A turn that leaves the leg and the log of `q` has moved them as `q` has.
  as_left :
      (n : ℕ) (p q : Tapped) (t : Turn fl (tapped fl snk))
      → LeavesAs fl snk q t
      → Moves n p q
      → Turned n p t
  as_left n p q t (log, leg) (rested same count) = rested (log ∙ same) (ap output leg ∙ count)
  as_left n p q t (log, leg) (sent bytes more count) =
      sent bytes (log ∙ more) (ap output leg ∙ count)

  act-Turned :
      (n : ℕ) (p : Tapped) (b : Bool) (policy : StallPolicy) (current : SourceState) (now : ℕ)
      → Sends fl snk n p
      → output p.scheduler ≤ u64_max
      → Turned n p (act fl (tapped fl snk) p b policy current now)
  unfolding act
  act-Turned n p true mute current now h room =
      let muted = record p { scheduler = advance_muted p.scheduler now } in
      as_left n p muted (settle fl (tapped fl snk) muted current now)
        (settle-LeavesAs fl snk muted current now)
        (rested refl (advance_muted-Mute p.scheduler now).0)
  act-Turned n p true fail current now h room = rested refl refl
  act-Turned n p true continue current now h room =
      as_left n p (emit fl (tapped fl snk) p now).1
        (emit_and_settle fl (tapped fl snk) p current now)
        (emit_and_settle-LeavesAs fl snk p current now) (emit-Moves n p now h room)
  act-Turned n p false policy current now h room =
      as_left n p (emit fl (tapped fl snk) p now).1
        (emit_and_settle fl (tapped fl snk) p current now)
        (emit_and_settle-LeavesAs fl snk p current now) (emit-Moves n p now h room)

  either-Turned :
      (n : ℕ) (p : Tapped) (b : Bool) (s t : Turn fl (tapped fl snk))
      → Turned n p s
      → Turned n p t
      → Turned n p (if b then s else t)
  either-Turned n p true s t v w = v
  either-Turned n p false s t v w = w

  on_silent-Turned :
      (n : ℕ) (p : Tapped) (now : ℕ) → Turned n p (on_silent fl (tapped fl snk) p now)
  unfolding on_silent
  on_silent-Turned n p now =
      let polled = record p { scheduler = poll_start fl p.scheduler now } in
      let told = reported fl (tapped fl snk) polled (state polled.scheduler now) now in
      let count = (poll_start-Mute fl p.scheduler now).0 in
      either-Turned n p
        (stalls_hard p.config
          && timed_out (stall_timeout told.scheduler) (silence fl (tapped fl snk) told now))
        (stopped (err (source_stalled (silence fl (tapped fl snk) told now))) told) (running told)
        (rested refl count) (rested refl count)

  on_eof-Turned : (n : ℕ) (p : Tapped) (now : ℕ) → Turned n p (on_eof fl (tapped fl snk) p now)
  unfolding on_eof flush
  on_eof-Turned n p now =
      let flushed = flush p.scheduler in
      either-Turned n p (has_pending flushed)
        (running (record p { scheduler = start_now flushed now; closing = true }))
        (stopped (ok (snapshot fl flushed)) (record p { scheduler = flushed }))
        (rested refl (start_now-Mute flushed now).0) (rested refl refl)

  on_waited-Turned :
      (n : ℕ) (p : Tapped) (r : Result Arrival) (now : ℕ)
      → Turned n p (on_waited fl (tapped fl snk) p r now)
  unfolding on_waited
  on_waited-Turned n p (err e) now = rested refl refl
  on_waited-Turned n p (ok (packet received)) now =
      rested refl (enqueue-Mute fl p.scheduler received now).0
  on_waited-Turned n p (ok eof) now = on_eof-Turned n p now
  on_waited-Turned n p (ok silent) now = on_silent-Turned n p now

  on_received-Turned :
      (n : ℕ) (p : Tapped) (r : Result (Option Packet)) (now : ℕ)
      → Turned n p (on_received fl (tapped fl snk) p r now)
  unfolding on_received flush
  on_received-Turned n p (err e) now = rested refl refl
  on_received-Turned n p (ok (some received)) now =
      rested refl (enqueue-Mute fl p.scheduler received now).0
  on_received-Turned n p (ok none) now = rested refl refl

  Step-Turned :
      (n : ℕ) (p : Tapped) (t : Turn fl (tapped fl snk))
      → Step fl (tapped fl snk) p t
      → Sends fl snk n p
      → output p.scheduler ≤ u64_max
      → Turned n p t
  unfolding on_due on_over
  Step-Turned n p _ (waits r now e) h room = on_waited-Turned n p r now
  Step-Turned n p _ (ends due now e f) h room = rested refl refl
  Step-Turned n p _ (wakes due now e f g) h room =
      let current = state p.scheduler now in
      act-Turned n p (is_stalled current && not p.closing) p.config.stall_policy current now h room
  Step-Turned n p _ (receives due now r e f) h room = on_received-Turned n p r now

  Runs-both :
      (start n : ℕ) (p : Tapped) (t : Turn fl (tapped fl snk)) (run : Runs fl (tapped fl snk) p t)
      → start ≤ u64_max
      → Sends fl snk n p
      → Counts start n p
      → IsFed fl (tapped fl snk) p t run
      → Sends fl snk n (left_by fl (tapped fl snk) t)
        × Counts start n (left_by fl (tapped fl snk) t)
  Runs-both start n p _ rests room h c w = (h, c)
  Runs-both start n p t (goes q _ run step) room h c (w, v) =
      let (sends, counts) = Runs-both start n p (running q) run room h c w in
      let small : output q.scheduler ≤ u64_max = omega (arith, counts) in
      (
        Step-Left fl snk n q t step sends v,
        Moves-Counts start n q (left_by fl (tapped fl snk) t) room
            (Step-Turned n q t step sends small) counts,
      )

  -- The output counter tells what was sent. A run from a leg that holds whole packets only and has
  -- sent nothing, whose source delivers packets, has always moved the counter by just the packets of
  -- the datagrams that its sink was sent, whatever the sink answered: a datagram that is withheld or
  -- muted counts nothing. The counter stops at the end of u64.
  pub Runs-counts :
      (p : Tapped) (t : Turn fl (tapped fl snk)) (run : Runs fl (tapped fl snk) p t)
      → IsSound p.scheduler
      → p.sink.1 ≡ []
      → output p.scheduler ≤ u64_max
      → IsFed fl (tapped fl snk) p t run
      → let q = left_by fl (tapped fl snk) t in
        output q.scheduler
        ≡ sat_add (output p.scheduler) (length q.sink.1 * p.scheduler.packets_per_datagram)
  Runs-counts p t run v e room w =
      let begun : Sends fl snk p.scheduler.packets_per_datagram p = record {
        sound = v;
        size = refl;
        sent = rw e tt;
      } in
      (Runs-both (output p.scheduler) p.scheduler.packets_per_datagram p t run room begun
        (rw e (omega (arith, room))) w).1
