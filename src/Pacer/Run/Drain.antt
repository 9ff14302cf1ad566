-- ===== src/Pacer/Run/Drain.antt =====
-- src/pacer.rs, the loop of `pace_with` once its source has ended.
use mpegts_pacer.Prelude.{
  ℕ, suc, ◌+◌, ◌*◌, ◌≤◌, ◌<◌, ◌≡◌, refl, ◌∙◌, inl, inr, Bool, true, false, ◌&&◌, not, if◌then◌else◌,
  length, ◌-◌, Option, none, some, List, [], ◌∷◌, is_some, arith, Bool-cases, Option-cases, u64_max,
}
use native.Mathlib.Nat.{mul-le-mul_right}
use mpegts_pacer.Float.{Float}
use mpegts_pacer.Error.{Result, ok, err}
use mpegts_pacer.Config.{StallPolicy}
use mpegts_pacer.Packet.{Packet}
use mpegts_pacer.Output.{Sink}
use mpegts_pacer.Grid.{StreamGrid, Base, has_content}
use mpegts_pacer.Scheduler.{
  Scheduler, packets_to_duration, SourceState, state, snapshot, next_due, has_pending, any_deferred,
  has_more, framing,
}
use mpegts_pacer.Scheduler.Liveness.{is_stalled}
use mpegts_pacer.Scheduler.Emit.{emit_datagram}
use mpegts_pacer.Scheduler.Emit.Drain.{InOrder, IsDraining, holding, placed_on, work}
use mpegts_pacer.Scheduler.Emit.Drain.Moves.{horizon}
use mpegts_pacer.Scheduler.Emit.Finish.{emit_datagram-Sends}
use mpegts_pacer.Pacer.{
  Pacer, Turn, running, stopped, is_over, on_over, on_due, act, emit, offer, send_if_any,
  emit_and_settle, settle, refuses, reported,
}
use mpegts_pacer.Pacer.Run.{Step, Runs, waits, ends, wakes, receives, rests, goes, turns}

module _ {F : Type 0} where
  pending-held : (s : Scheduler F) → InOrder s.grid → has_pending s ≡ true → 0 < holding s
  unfolding has_pending has_content
  pending-held s o h = by_parts s.deferred s.grid o h
    where
      by_parts :
          (q : List (Packet × Base)) (g : Option StreamGrid)
          → InOrder g
          → (if any_deferred q then true else has_more g s.buffer) ≡ true
          → 0 < length q + placed_on g
      by_parts (x ∷ xs) g o h = omega arith
      by_parts [] none o h = absurd o
      by_parts [] (some g) o h = more g.placed h
        where
          more :
              (xs : List (ℕ × Packet))
              → (elim xs [ [] ↦ false | _ ∷ _ ↦ true ]) ≡ true
              → 0 < 0 + length xs
          more [] h = ground arith
          more (x ∷ xs) h = omega arith

  next_due-anchor :
      (s : Scheduler F) → is_some s.anchor ≡ true → (due : ℕ) × (next_due s ≡ some due)
  unfolding next_due
  next_due-anchor s h = elim (Option-cases s.anchor) [
    | inl e ↦ absurd (ground (arith, rw e at h))
    | inr (a, e) ↦ (a + packets_to_duration s (s.slot - s.anchor_slot), rw e refl)
  ]

  due-armed : (s : Scheduler F) (due : ℕ) → next_due s ≡ some due → is_some s.anchor ≡ true
  unfolding next_due
  due-armed s due h = elim (Option-cases s.anchor) [
    | inl e ↦ absurd (ground (arith, rw e at h))
    | inr (a, e) ↦ rw e refl
  ]

module _ (fl : Float) (snk : Sink) where
  open fl use {F}

  -- A sink that takes every datagram.
  abbrev pub Accepts : Type 0
  Accepts = (s : snk.State) (now : ℕ) (datagram : List ℕ) → (snk.send s now datagram).0 ≡ ok tt

  -- A closing run on the grid, `n` turns on, with `goal` the work that was left at its start.
  record Closing (p : Pacer fl snk) (goal width edge n : ℕ) : Type 0 where
    closing : p.closing ≡ true
    lenient : refuses p.config.pcr_position_policy ≡ false
    armed : is_some p.scheduler.anchor ≡ true
    drains : IsDraining p.scheduler
    bounded : n ≤ goal
    nearer : 0 < holding p.scheduler → work p.scheduler + n ≤ goal
    size : p.scheduler.packets_per_datagram ≡ width
    reach : horizon p.scheduler ≤ edge + n * width

  emit-accepted : (p : Pacer fl snk) (now : ℕ) → Accepts → (emit fl snk p now).0 ≡ ok tt
  unfolding emit
  emit-accepted p now a =
      sent (offer fl snk p.sink (framing p.scheduler)) (emit_datagram fl p.scheduler now).scratch
    where
      sent : (s : snk.State) (bytes : List ℕ) → (send_if_any fl snk s now bytes).0 ≡ ok tt
      sent s [] = refl
      sent s (b ∷ bytes) = a s now (b ∷ bytes)

  settle-running :
      (q : Pacer fl snk) (current : SourceState) (now : ℕ)
      → refuses q.config.pcr_position_policy ≡ false
      → settle fl snk q current now ≡ running (reported fl snk q current now)
  unfolding settle
  settle-running q current now l = rw l refl

  -- What a slot that is due does in a closing run: the datagram, and the run goes on.
  pub closing-emits :
      (p : Pacer fl snk) (now : ℕ)
      → Accepts
      → p.closing ≡ true
      → refuses p.config.pcr_position_policy ≡ false
      → on_due fl snk p now
        ≡ running (reported fl snk (emit fl snk p now).1 (state p.scheduler now) now)
  unfolding on_due act emit_and_settle settle
  closing-emits p now a c l =
      by_stall (is_stalled (state p.scheduler now) && not p.closing) p.config.stall_policy
        (ground (arith, c))
    where
      current : SourceState
      current = state p.scheduler now

      told : Pacer fl snk
      told = reported fl snk (emit fl snk p now).1 current now

      sent :
          (o : Result (Unit {0}))
          → o ≡ ok tt
          → (elim o [
            | err e ↦ stopped (err e) (emit fl snk p now).1
            | ok _ ↦ settle fl snk (emit fl snk p now).1 current now
          ])
            ≡ running told
      sent (err e) h = absurd (cc h)
      sent (ok _) h = settle-running (emit fl snk p now).1 current now (unfold emit in l)

      by_stall :
          (b : Bool) (policy : StallPolicy)
          → b ≡ false
          → act fl snk p b policy current now ≡ running told
      by_stall true policy h = ground (arith, h)
      by_stall false policy h = sent (emit fl snk p now).0 (emit-accepted p now a)

  -- The run as it starts, and after one more slot.
  starts :
      (p : Pacer fl snk)
      → p.closing ≡ true
      → refuses p.config.pcr_position_policy ≡ false
      → is_some p.scheduler.anchor ≡ true
      → IsDraining p.scheduler
      → Closing p (work p.scheduler) p.scheduler.packets_per_datagram (horizon p.scheduler) 0
  starts p c l a d = record {
    closing = c;
    lenient = l;
    armed = a;
    drains = d;
    bounded = omega arith;
    nearer = λ h. omega arith;
    size = refl;
    reach = omega arith;
  }

  emitted-Closing :
      (p : Pacer fl snk) (current : SourceState) (now goal width edge n : ℕ)
      → 0 < width
      → edge + suc n * width ≤ u64_max
      → 0 < holding p.scheduler
      → Closing p goal width edge n
      → Closing (reported fl snk (emit fl snk p now).1 current now) goal width edge (suc n)
  unfolding emit
  emitted-Closing p current now goal width edge n w room h k =
      let s =
        emit_datagram-Sends fl p.scheduler now k.drains (omega (arith, k.reach, k.size, room)) in
      record {
        closing = k.closing;
        lenient = k.lenient;
        armed = s.anchored k.armed;
        drains = s.drains;
        bounded = omega (arith, k.nearer h, h);
        nearer = λ h'. omega (arith, s.nearer h', k.nearer h, k.size, w);
        size = s.size ∙ k.size;
        reach = omega (arith, s.reach, k.reach, k.size);
      }

  -- After `n` turns: the run is still closing, or it has returned with nothing left.
  abbrev Reached : Turn fl snk → ℕ → ℕ → ℕ → ℕ → Type 0
  Reached (running q) goal width edge n = Closing q goal width edge n
  Reached (stopped r q) goal width edge n =
      (r ≡ ok (snapshot fl q.scheduler)) × (has_pending q.scheduler ≡ false)

  Step-Reached :
      (p : Pacer fl snk) (t : Turn fl snk) (goal width edge n : ℕ)
      → Accepts
      → 0 < width
      → edge + goal * width ≤ u64_max
      → Closing p goal width edge n
      → Step fl snk p t
      → Reached t goal width edge (suc n)
  unfolding on_over is_over
  Step-Reached p _ goal width edge n a w room k (waits r now e) =
      let (due, f) = next_due-anchor p.scheduler k.armed in absurd (cc (e, f))
  Step-Reached p _ goal width edge n a w room k (ends due now e o) = (refl, ground (arith, o))
  Step-Reached p _ goal width edge n a w room k (receives due now r e c) =
      absurd (ground (arith, c, k.closing))
  Step-Reached p _ goal width edge n a w room k (wakes due now e o le) =
      let pending : has_pending p.scheduler ≡ true = ground (arith, o, k.closing) in
      let h = pending-held p.scheduler k.drains.in_order pending in
      let turns_left : suc n ≤ goal = omega (arith, k.nearer h, h) in
      rw (closing-emits p now a k.closing k.lenient) (
        emitted-Closing p (state p.scheduler now) now goal width edge n w
          (omega (arith, mul-le-mul_right width turns_left, room)) h k)

  Runs-Reached :
      (p : Pacer fl snk) (t : Turn fl snk) (goal width edge : ℕ)
      → Accepts
      → 0 < width
      → edge + goal * width ≤ u64_max
      → Closing p goal width edge 0
      → (run : Runs fl snk p t) → Reached t goal width edge (turns fl snk p t run)
  Runs-Reached p _ goal width edge a w room k rests = k
  Runs-Reached p t goal width edge a w room k (goes q _ run step) =
      Step-Reached q t goal width edge (turns fl snk p (running q) run) a w room
        (Runs-Reached p (running q) goal width edge a w room k run) step

  -- What is known of a run from `p` after `n` turns.
  abbrev pub Drained : Pacer fl snk → Turn fl snk → ℕ → Type 0
  Drained p (running q) n = (n ≤ work p.scheduler) × ((t : Turn fl snk) × Step fl snk q t)
  Drained p (stopped r q) n = (r ≡ ok (snapshot fl q.scheduler)) × (has_pending q.scheduler ≡ false)

  closing-Step :
      (p : Pacer fl snk) → is_some p.scheduler.anchor ≡ true → (t : Turn fl snk) × Step fl snk p t
  closing-Step p h =
      let (due, e) = next_due-anchor p.scheduler h in
      elim (Bool-cases (is_over fl snk p)) [
        | inl o ↦ (on_over fl snk p due, ends due due e o)
        | inr o ↦ (on_due fl snk p due, wakes due due e o (omega arith))
      ]

  -- Once the source of a leg on the stream grid has ended, the run ends too, with all that was held
  -- put out. Take a run from a closing leg whose clock is armed, whose placed packets are in order,
  -- with datagrams of one packet or more, a PCR limit of two slots or more, a policy that reports
  -- misplaced PCRs, a sink that takes every datagram, and slot numbers that fit 64 bits. Wherever the
  -- run stands, either it has taken no more turns than the work at its start and a turn can be taken,
  -- or it has returned the statistics, not an error, and nothing is pending.
  pub closing_Runs-Drained :
      (p : Pacer fl snk) (t : Turn fl snk) (run : Runs fl snk p t)
      → p.closing ≡ true
      → is_some p.scheduler.anchor ≡ true
      → IsDraining p.scheduler
      → 0 < p.scheduler.packets_per_datagram
      → horizon p.scheduler + work p.scheduler * p.scheduler.packets_per_datagram ≤ u64_max
      → refuses p.config.pcr_position_policy ≡ false
      → Accepts
      → Drained p t (turns fl snk p t run)
  closing_Runs-Drained p t run c armed d w room l a = drained t (turns fl snk p t run) (
      Runs-Reached p t (work p.scheduler) p.scheduler.packets_per_datagram (horizon p.scheduler) a w
        room (starts p c l armed d) run)
    where
      drained :
          (t : Turn fl snk) (n : ℕ)
          → Reached t (work p.scheduler) p.scheduler.packets_per_datagram (horizon p.scheduler) n
          → Drained p t n
      drained (running q) n k = (k.bounded, closing-Step q k.armed)
      drained (stopped r q) n k = k
