-- ===== src/Pacer/Run/Sent.antt =====
-- src/pacer.rs, a turn of `pace_with`: the datagrams that it sends.
use mpegts_pacer.Prelude.{
  ℕ, ◌≡◌, refl, ◌∙◌, Bool, true, false, ◌&&◌, Option, none, some, List, [], ◌∷◌, length, All,
  if◌then◌else◌,
}
use mpegts_pacer.Float.{Float}
use mpegts_pacer.Error.{Result, ok, err, source_stalled, source_pcr_position}
use mpegts_pacer.Config.{StallPolicy, mute, continue, fail}
use mpegts_pacer.Output.{Sink}
use mpegts_pacer.Packet.{Packet}
use mpegts_pacer.Source.{split_packets}
use mpegts_pacer.Source.Split.{IsPacket, on_wire}
use mpegts_pacer.Scheduler.{
  SourceState, Framing, framing, state, has_pending, snapshot, timed_out, stall_timeout,
  pcr_position_diverged,
}
use mpegts_pacer.Scheduler.Liveness.{advance_muted, flush, start_now, poll_start}
use mpegts_pacer.Scheduler.Enqueue.{enqueue}
use mpegts_pacer.Scheduler.Emit.{emit_datagram}
use mpegts_pacer.Scheduler.Emit.Whole.{IsSound, Keeps}
use mpegts_pacer.Scheduler.Emit.Whole.Datagram.{
  IsDatagram, nothing, packets, resized, then-Keeps, emit_datagram-Fills,
}
use mpegts_pacer.Scheduler.Enqueue.Whole.{
  enqueue-Keeps, flush-Keeps, start_now-Keeps, poll_start-Keeps, advance_muted-Keeps,
}
use mpegts_pacer.Pacer.{
  Arrival, packet, eof, silent, Pacer, Turn, running, stopped, on_waited, on_silent, on_eof,
  on_received, act, offer, send_if_any, emit, settle, emit_and_settle, refuses, stalls_hard,
  silence, reported,
}
use mpegts_pacer.Pacer.Run.Policy.{left_by}

-- Exactly the bytes of `n` packets, which a receiver reads back.
abbrev pub IsSent : ℕ → List ℕ → Type 0
IsSent n bytes =
    (ps : List Packet) × (length ps ≡ n)
    × All IsPacket ps
    × (bytes ≡ on_wire ps)
    × (split_packets [] bytes ≡ (ps, []))

-- A sink that also keeps what it has been sent, the latest first.
abbrev pub logging : Sink → Sink
logging snk = record {
  State = snk.State × List (List ℕ);
  send =
      λ s now bytes. let (answer, after) = snk.send s.0 now bytes in (answer, (after, bytes ∷ s.1));
  set_framing = λ s position. (snk.set_framing s.0 position, s.1);
}

abbrev pub FedOn : Result (Option Packet) → Type 0
FedOn (err e) = Unit {0}
FedOn (ok none) = Unit {0}
FedOn (ok (some p)) = IsPacket p

abbrev pub FedBy : Result Arrival → Type 0
FedBy (err e) = Unit {0}
FedBy (ok eof) = Unit {0}
FedBy (ok silent) = Unit {0}
FedBy (ok (packet p)) = IsPacket p

module _ (fl : Float) (snk : Sink) where
  open fl use {F}

  abbrev pub tapped : Sink
  tapped = logging snk

  -- The leg holds whole packets only, its datagrams are of `n`, and all that was sent is such datagrams.
  pub record Sends (n : ℕ) (p : Pacer fl tapped) : Type 0 where
    pub sound : IsSound p.scheduler
    pub size : p.scheduler.packets_per_datagram ≡ n
    pub sent : All (IsSent n) p.sink.1

  -- What leaves the sink and keeps the leg, keeps this.
  pub kept :
      (n : ℕ) (p q : Pacer fl tapped)
      → Sends n p
      → Keeps p.scheduler q.scheduler
      → q.sink ≡ p.sink
      → Sends n q
  kept n p q h (sound, size, same) e = record {
    sound = sound;
    size = size ∙ h.size;
    sent = rw e h.sent;
  }

  pub unmoved :
      (n : ℕ) (p q : Pacer fl tapped)
      → Sends n p
      → q.scheduler ≡ p.scheduler
      → q.sink ≡ p.sink
      → Sends n q
  unmoved n p q h e f = record { sound = rw e h.sound; size = rw e h.size; sent = rw f h.sent }

  sent_if_any :
      (n : ℕ) (s : tapped.State) (now : ℕ) (bytes : List ℕ)
      → IsDatagram n bytes
      → All (IsSent n) s.1
      → All (IsSent n) (send_if_any fl tapped s now bytes).1.1
  sent_if_any n s now [] is v = v
  sent_if_any n s now (b ∷ bytes) (nothing e) v = absurd (cc e)
  sent_if_any n s now (b ∷ bytes) (packets ps count all wire back) v =
      ((ps, count, all, wire, back), v)

  offered :
      (n : ℕ) (s : tapped.State) (o : Option Framing)
      → All (IsSent n) s.1
      → All (IsSent n) (offer fl tapped s o).1
  offered n s none v = v
  offered n s (some position) v = v

  emit-Sends :
      (n : ℕ) (p : Pacer fl tapped) (now : ℕ) → Sends n p → Sends n (emit fl tapped p now).1
  unfolding emit
  emit-Sends n p now h =
      let (sound, size, is) = emit_datagram-Fills fl p.scheduler now h.sound in
      record {
        sound = sound;
        size = size ∙ h.size;
        sent =
            sent_if_any n (offer fl tapped p.sink (framing p.scheduler)) now
              (emit_datagram fl p.scheduler now).scratch
              (resized p.scheduler.packets_per_datagram n _ h.size is)
              (offered n p.sink (framing p.scheduler) h.sent);
      }

  -- Whatever a turn returns, it leaves this.
  abbrev pub Left : ℕ → Turn fl tapped → Type 0
  Left n t = Sends n (left_by fl tapped t)

  pub either-Left :
      (n : ℕ) (b : Bool) (s t : Turn fl tapped) → Left n s → Left n t → Left n (if b then s else t)
  either-Left n true s t v w = v
  either-Left n false s t v w = w

  settle-Left :
      (n : ℕ) (p : Pacer fl tapped) (current : SourceState) (now : ℕ)
      → Sends n p
      → Left n (settle fl tapped p current now)
  unfolding settle
  settle-Left n p current now h =
      either-Left n (refuses p.config.pcr_position_policy && pcr_position_diverged p.scheduler)
        (stopped (err (source_pcr_position _ _)) (reported fl tapped p current now))
        (running (reported fl tapped p current now)) (unmoved n p _ h refl refl)
        (unmoved n p _ h refl refl)

  emit_and_settle-Left :
      (n : ℕ) (p : Pacer fl tapped) (current : SourceState) (now : ℕ)
      → Sends n p
      → Left n (emit_and_settle fl tapped p current now)
  unfolding emit_and_settle
  emit_and_settle-Left n p current now h = by_answer (emit fl tapped p now).0
    where
      after : Pacer fl tapped
      after = (emit fl tapped p now).1

      by_answer :
          (o : Result (Unit {0}))
          → Left n
              (elim o [ err e ↦ stopped (err e) after | ok _ ↦ settle fl tapped after current now ])
      by_answer (err e) = emit-Sends n p now h
      by_answer (ok u) = settle-Left n after current now (emit-Sends n p now h)

  pub act-Left :
      (n : ℕ) (p : Pacer fl tapped) (b : Bool) (policy : StallPolicy) (current : SourceState)
      (now : ℕ)
      → Sends n p
      → Left n (act fl tapped p b policy current now)
  unfolding act
  act-Left n p true mute current now h =
      let muted = record p { scheduler = advance_muted p.scheduler now } in
      settle-Left n muted current now
        (kept n p muted h (advance_muted-Keeps p.scheduler now h.sound) refl)
  act-Left n p true fail current now h = unmoved n p _ h refl refl
  act-Left n p true continue current now h = emit_and_settle-Left n p current now h
  act-Left n p false policy current now h = emit_and_settle-Left n p current now h

  on_eof-Left :
      (n : ℕ) (p : Pacer fl tapped) (now : ℕ) → Sends n p → Left n (on_eof fl tapped p now)
  unfolding on_eof
  on_eof-Left n p now h =
      let flushed = flush p.scheduler in
      let k = flush-Keeps p.scheduler h.sound in
      let started = record p { scheduler = start_now flushed now; closing = true } in
      either-Left n (has_pending flushed) (running started)
        (stopped (ok (snapshot fl flushed)) (record p { scheduler = flushed }))
        (kept n p started h
          (then-Keeps p.scheduler flushed (start_now flushed now) k
            (start_now-Keeps flushed now k.0))
          refl)
        (kept n p (record p { scheduler = flushed }) h k refl)

  on_silent-Left :
      (n : ℕ) (p : Pacer fl tapped) (now : ℕ) → Sends n p → Left n (on_silent fl tapped p now)
  unfolding on_silent
  on_silent-Left n p now h =
      let polled = record p { scheduler = poll_start fl p.scheduler now } in
      let told = reported fl tapped polled (state polled.scheduler now) now in
      let v = kept n p told h (poll_start-Keeps fl p.scheduler now h.sound) refl in
      either-Left n
        (stalls_hard p.config
          && timed_out (stall_timeout told.scheduler) (silence fl tapped told now))
        (stopped (err (source_stalled (silence fl tapped told now))) told) (running told) v v

  enqueued-Sends :
      (n : ℕ) (p : Pacer fl tapped) (received : Packet) (now : ℕ)
      → Sends n p
      → IsPacket received
      → Sends n (record p { scheduler = enqueue fl p.scheduler received now })
  enqueued-Sends n p received now h w =
      kept n p (record p { scheduler = enqueue fl p.scheduler received now }) h
        (enqueue-Keeps fl p.scheduler received now h.sound w) refl

  pub on_waited-Left :
      (n : ℕ) (p : Pacer fl tapped) (r : Result Arrival) (now : ℕ)
      → Sends n p
      → FedBy r
      → Left n (on_waited fl tapped p r now)
  unfolding on_waited
  on_waited-Left n p (err e) now h w = h
  on_waited-Left n p (ok (packet received)) now h w = enqueued-Sends n p received now h w
  on_waited-Left n p (ok eof) now h w = on_eof-Left n p now h
  on_waited-Left n p (ok silent) now h w = on_silent-Left n p now h

  pub on_received-Left :
      (n : ℕ) (p : Pacer fl tapped) (r : Result (Option Packet)) (now : ℕ)
      → Sends n p
      → FedOn r
      → Left n (on_received fl tapped p r now)
  unfolding on_received
  on_received-Left n p (err e) now h w = h
  on_received-Left n p (ok (some received)) now h w = enqueued-Sends n p received now h w
  on_received-Left n p (ok none) now h w =
      kept n p (record p { scheduler = flush p.scheduler; closing = true }) h
        (flush-Keeps p.scheduler h.sound) refl
