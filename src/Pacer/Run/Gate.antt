-- ===== src/Pacer/Run/Gate.antt =====
-- src/pacer.rs and src/scheduler.rs: the start gate in the loop of `pace_with`, before the clock is armed.
pub mod Stuffing
use mpegts_pacer.Prelude.{
  ℕ, ◌+◌, ◌-◌, ◌≤◌, ◌≡◌, ◌≢◌, refl, ap, ◌∙◌, ◌⊎◌, inl, inr, Bool, true, false, ◌&&◌, ◌||◌, not,
  Option, none, some, leb, ◌==◌, if◌then◌else◌, is_some, is_none, Bool-cases, Option-cases,
  unwrap_or, max, sat_add, le→leb, arith,
}
use mpegts_pacer.Float.{Float}
use mpegts_pacer.Error.{Result, ok, err, source_stalled}
use mpegts_pacer.Config.{start_deadline, target, is_adaptive}
use mpegts_pacer.Packet.{Packet, pid, has_pcr, null_pid}
use mpegts_pacer.Jitter
use mpegts_pacer.Arrival
use mpegts_pacer.Media
use mpegts_pacer.Media.{estimated_rate_pps, zero_f}
use mpegts_pacer.Grid.{StreamGrid}
use mpegts_pacer.Output.{Sink}
use mpegts_pacer.Scheduler.{
  Scheduler, packets_to_duration, state, next_due, silent_for, millis, timed_out, stall_timeout,
}
use mpegts_pacer.Scheduler.Liveness.{
  note_content_gap, resume, resize, resize_to, grow_grid, start_at, arm, poll_start, expired,
}
use mpegts_pacer.Scheduler.Enqueue.{
  mark_arrival, learn_pid, admit_content, enqueue_buffer, enqueue_at, enqueue, note_depth,
}
use mpegts_pacer.Scheduler.Enqueue.Shape.{Grown, no_grid, raised, admit_content-shape}
use mpegts_pacer.Pacer.{
  Arrival, packet, silent, Pacer, Turn, running, stopped, on_waited, on_silent, stalls_hard,
  reported, silence,
}
use mpegts_pacer.Pacer.Run.Policy.{left_by}

module _ {F : Type 0} where
  -- What the start gate reads, the first content but for its instant.
  abbrev SameGate : Scheduler F → Scheduler F → Type 0
  SameGate s t =
      (t.first_content_at ≡ s.first_content_at)
      × (t.latency ≡ s.latency)
      × (t.align ≡ s.align)
      × (is_none t.grid ≡ is_none s.grid)

  -- An unaligned leg whose start deadline has passed.
  pub record IsExpired (fl_deadline : Option ℕ) (s : Scheduler F) (now : ℕ) : Type 0 where
    pub deadline : ℕ
    pub limited : fl_deadline ≡ some deadline
    pub begun : ℕ
    pub first : s.first_content_at ≡ some begun
    pub passed : deadline ≤ now - begun
    pub unaligned : s.align ≡ none

Grown-is_none : (o o' : Option StreamGrid) → Grown o o' → is_none o' ≡ is_none o
Grown-is_none _ _ no_grid = refl
Grown-is_none _ _ (raised g room more) = refl

module _ (fl : Float) where
  open fl use {F}

  or_true : (a b : Bool) → (a || b || true) ≡ true
  or_true a b = ground arith

  start_at-expired :
      (s : Scheduler F) (now : ℕ)
      → IsExpired (start_deadline fl s.latency) s now
      → start_at fl s now (start_deadline fl s.latency) ≡ some now
  unfolding start_at
  start_at-expired s now v =
      let late : expired fl s.first_content_at now v.deadline ≡ true =
        rw v.first (le→leb v.deadline (now - v.begun) v.passed) in
      rw (v.limited, late, or_true) refl

  arm-Opens :
      (s : Scheduler F) (now : ℕ)
      → IsExpired (start_deadline fl s.latency) s now
      → is_some (arm fl s now).anchor ≡ true
  unfolding arm
  arm-Opens s now v = elim (Bool-cases (is_some s.anchor)) [
    | inl e ↦ rw e e
    | inr e ↦ rw (e, v.unaligned, start_at-expired s now v) refl
  ]

  poll_start-Opens :
      (s : Scheduler F) (now : ℕ)
      → IsExpired (start_deadline fl s.latency) s now
      → is_some (poll_start fl s now).anchor ≡ true
  unfolding poll_start
  poll_start-Opens s now v =
      let begun : is_some s.first_content_at ≡ true = rw v.first refl in
      rw begun (arm-Opens s now v)

  -- Content does not move the first arrival.
  admit_content-SameGate :
      (s : Scheduler F) (p : Packet) (now first : ℕ)
      → s.first_content_at ≡ some first
      → SameGate s (admit_content fl s p now)
  admit_content-SameGate s p now first begun =
      admit_content-shape fl s p now (λ t. SameGate s t)
        (λ stalled regen media gap pcr_pid profile target latency most buffer grid same more grown.
          (rw begun refl, refl, refl, Grown-is_none s.grid grid grown))

  enqueue-Opens :
      (s : Scheduler F) (p : Packet) (now : ℕ)
      → (pid p == null_pid) ≡ false
      → is_none s.grid ≡ true
      → IsExpired (start_deadline fl s.latency) s now
      → is_some (enqueue fl s p now).anchor ≡ true
  unfolding enqueue enqueue_buffer note_depth
  enqueue-Opens s p now content gridless v =
      let s' = admit_content fl s p now in
      let k = admit_content-SameGate s p now v.begun v.first in
      let expired' : IsExpired (start_deadline fl s'.latency) s' now = record {
        deadline = v.deadline;
        limited = rw k.1 v.limited;
        begun = v.begun;
        first = k.0 ∙ v.first;
        passed = v.passed;
        unaligned = k.2 ∙ v.unaligned;
      } in
      rw content (by_grid s'.grid (k.3 ∙ gridless) expired')
    where
      by_grid :
          (o : Option StreamGrid)
          → is_none o ≡ true
          → (let s' = admit_content fl s p now in IsExpired (start_deadline fl s'.latency) s' now)
          → is_some (enqueue_at fl (admit_content fl s p now) o p now).anchor ≡ true
      by_grid none e x = arm-Opens _ now (record {
        deadline = x.deadline;
        limited = x.limited;
        begun = x.begun;
        first = x.first;
        passed = x.passed;
        unaligned = x.unaligned;
      })
      by_grid (some g) e x = ground (arith, e)

next_due-some :
    {F : Type 0} (s : Scheduler F) → is_some s.anchor ≡ true → (due : ℕ) × (next_due s ≡ some due)
unfolding next_due
next_due-some s e = elim (Option-cases s.anchor) [
  | inl f ↦ absurd (ground (arith, rw f at e))
  | inr (a, f) ↦ (a + packets_to_duration s (s.slot - s.anchor_slot), rw f refl)
]

module _ (fl : Float) (snk : Sink) where
  open fl use {F}

  -- What makes the loop test the gate: a silence, or content that goes into the buffer.
  pub data TestsGate (p : Pacer fl snk) : Result Arrival → Type 0 where
    by_silence : TestsGate p (ok silent)
    by_content :
        (received : Packet)
        → (pid received == null_pid) ≡ false
        → is_none p.scheduler.grid ≡ true
        → TestsGate p (ok (packet received))

  -- Once the start deadline of an unaligned leg has passed since its first content, the next silence,
  -- and in arrival clocking the next content, leaves the clock armed, however small the cushion.
  pub on_waited-Opens :
      (p : Pacer fl snk) (r : Result Arrival) (now : ℕ)
      → TestsGate p r
      → IsExpired (start_deadline fl p.scheduler.latency) p.scheduler now
      → (due : ℕ) × (next_due (left_by fl snk (on_waited fl snk p r now)).scheduler ≡ some due)
  unfolding on_waited on_silent
  on_waited-Opens p _ now by_silence v =
      let polled = record p { scheduler = poll_start fl p.scheduler now } in
      let told = reported fl snk polled (state polled.scheduler now) now in
      let armed = next_due-some polled.scheduler (poll_start-Opens fl p.scheduler now v) in
      elim (Bool-cases (
        stalls_hard p.config
        && timed_out (stall_timeout told.scheduler) (silence fl snk told now))) [
          | inl e ↦ rw e armed
          | inr e ↦ rw e armed
        ]
  on_waited-Opens p _ now (by_content received content gridless) v =
      next_due-some (enqueue fl p.scheduler received now)
        (enqueue-Opens fl p.scheduler received now content gridless v)
