-- ===== src/Scheduler/Enqueue/Whole.antt =====
-- src/scheduler.rs: `enqueue` and the methods that start, resume, mute and flush a leg keep what it
-- holds whole packets.
use mpegts_pacer.Prelude.{
  ℕ, ◌≡◌, refl, ◌||◌, Option, none, some, List, [], ◌∷◌, ◌++◌, All, leb, ltb, ◌==◌, if◌then◌else◌,
  is_none, is_some, length, tail, sat_add, inl, inr, Bool-cases,
}
use mpegts_pacer.Float.{Float}
use mpegts_pacer.Config.{start_deadline}
use mpegts_pacer.Packet.{Packet, pid, null_pid}
use mpegts_pacer.Source.Split.{IsPacket}
use mpegts_pacer.Jitter
use mpegts_pacer.Jitter.{JitterBuffer}
use mpegts_pacer.Grid
use mpegts_pacer.Grid.{StreamGrid}
use mpegts_pacer.Grid.Whole.{push-Holds}
use mpegts_pacer.Media
use mpegts_pacer.Media.{estimated_rate_pps, zero_f}
use mpegts_pacer.Scheduler.{Scheduler}
use mpegts_pacer.Scheduler.Liveness.{
  start_at, arm, poll_start, start_now, flush, flush_grid, advance_muted,
}
use mpegts_pacer.Scheduler.Enqueue.{
  note_depth, sent, store_grid, after_push, enqueue_grid, enqueue_buffer, enqueue_at, admit_content,
  enqueue,
}
use mpegts_pacer.Scheduler.Enqueue.Shape.{
  Grown, no_grid, raised, after_push-shape, admit_content-shape,
}
use mpegts_pacer.Scheduler.Emit.Whole.{OnGrid, IsSound, Keeps}
use mpegts_pacer.Scheduler.Emit.Whole.Datagram.{either-Keeps, then-Keeps, observe_state-Keeps}

flush_grid-OnGrid : (o : Option StreamGrid) → OnGrid o → OnGrid (flush_grid o)
unfolding Grid.flush
flush_grid-OnGrid none h = h
flush_grid-OnGrid (some g) (run, placed) = (tt, placed)

Grown-OnGrid : (o o' : Option StreamGrid) → Grown o o' → OnGrid o → OnGrid o'
Grown-OnGrid _ _ no_grid h = h
Grown-OnGrid _ _ (raised g room more) h = h

push-All :
    (b : JitterBuffer Packet) (p : Packet)
    → All IsPacket b.queue
    → IsPacket p
    → All IsPacket (Jitter.push b p).0.queue
unfolding Jitter.push
push-All b p v w = elim (Bool-cases (leb b.capacity (length b.queue))) [
  | inl e ↦ rw e (dropped b.queue v)
  | inr e ↦ rw e (behind b.queue v)
]
  where
    behind : (xs : List Packet) → All IsPacket xs → All IsPacket (xs ++ (p ∷ []))
    behind [] v = (w, tt)
    behind (x ∷ xs) (v, vs) = (v, behind xs vs)

    dropped : (xs : List Packet) → All IsPacket xs → All IsPacket (tail xs ++ (p ∷ []))
    dropped [] v = (w, tt)
    dropped (x ∷ xs) (v, vs) = behind xs vs

module _ {F : Type 0} where
  pub start_now-Keeps : (s : Scheduler F) (now : ℕ) → IsSound s → Keeps s (start_now s now)
  unfolding start_now
  start_now-Keeps s now v =
      either-Keeps (is_none s.anchor) s
        (record s { anchor = some now; media = record (s.media) { anchor = some now } }) s
        (v, refl, refl) (v, refl, refl)

  pub flush-Keeps : (s : Scheduler F) → IsSound s → Keeps s (flush s)
  unfolding flush
  flush-Keeps s (null, queued, grid, buffer) =
      ((null, queued, flush_grid-OnGrid s.grid grid, buffer), refl, refl)

  pub advance_muted-Keeps : (s : Scheduler F) (now : ℕ) → IsSound s → Keeps s (advance_muted s now)
  unfolding advance_muted
  advance_muted-Keeps s now v = observe_state-Keeps s now v

module _ (fl : Float) where
  open fl use {F}

  arm-Keeps : (s : Scheduler F) (now : ℕ) → IsSound s → Keeps s (arm fl s now)
  unfolding arm
  arm-Keeps s now v = elim (Bool-cases (is_some s.anchor || is_some s.align)) [
    | inl e ↦ rw e (v, refl, refl)
    | inr e ↦ rw e (by_start (start_at fl s now (start_deadline fl s.latency)))
  ]
    where
      by_start :
          (o : Option ℕ)
          → Keeps s (elim o [
            | none ↦ s
            | some anchor ↦ record s {
              anchor = some anchor;
              media = record (s.media) { anchor = some anchor };
            }
          ])
      by_start none = (v, refl, refl)
      by_start (some anchor) = (v, refl, refl)

  pub poll_start-Keeps : (s : Scheduler F) (now : ℕ) → IsSound s → Keeps s (poll_start fl s now)
  unfolding poll_start
  poll_start-Keeps s now v =
      either-Keeps (is_some s.first_content_at) s (arm fl s now) s (arm-Keeps s now v)
        (v, refl, refl)

  after_push-Keeps :
      (s : Scheduler F) (first last : Option ℕ) (now : ℕ)
      → IsSound s
      → Keeps s (after_push fl s first last now)
  after_push-Keeps s first last now v =
      after_push-shape fl s first last now (λ t. Keeps s t)
        (λ anchor anchor_slot slot soonest backlog gain. (v, refl, refl))

  enqueue_at-Keeps :
      (s : Scheduler F) (o : Option StreamGrid) (p : Packet) (now : ℕ)
      → IsSound s
      → s.grid ≡ o
      → IsPacket p
      → Keeps s (enqueue_at fl s o p now)
  unfolding enqueue_grid enqueue_buffer note_depth
  enqueue_at-Keeps s (some g) p now (null, queued, grid, buffer) e w =
      let horizon = if ltb 0 (sent s) then some (sat_add s.slot s.max_latency_packets) else none in
      let (g', dropped) = Grid.push g p now horizon in
      let held = push-Holds IsPacket g p now horizon (rw e at grid) w in
      after_push-Keeps (store_grid s g' dropped) (Grid.first_slot g') (Grid.last_slot g') now
        (null, queued, held, buffer)
  enqueue_at-Keeps s none p now (null, queued, grid, buffer) e w =
      let (buffer', dropped) = Jitter.push s.buffer p in
      let stats' =
        if dropped
        then record (s.stats) { dropped_packets = sat_add s.stats.dropped_packets 1 }
        else s.stats in
      arm-Keeps
        (note_depth
          (record s { media = Media.observe fl s.media p; buffer = buffer'; stats = stats' }))
        now (null, queued, grid, push-All s.buffer p buffer w)

  admit_content-Keeps :
      (s : Scheduler F) (p : Packet) (now : ℕ) → IsSound s → Keeps s (admit_content fl s p now)
  admit_content-Keeps s p now (null, queued, grid, buffer) =
      admit_content-shape fl s p now (λ t. Keeps s t)
        (λ stalled regen media gap pcr_pid profile target latency most buffer' grid' same more
            grown.
          ((null, queued, Grown-OnGrid s.grid grid' grown grid, rw same buffer), refl, refl))

  -- A packet that comes in leaves all that a leg holds whole packets, and the datagram's size as it is.
  pub enqueue-Keeps :
      (s : Scheduler F) (p : Packet) (now : ℕ)
      → IsSound s
      → IsPacket p
      → Keeps s (enqueue fl s p now)
  unfolding enqueue
  enqueue-Keeps s p now v w =
      let s' = admit_content fl s p now in
      let k = admit_content-Keeps s p now v in
      either-Keeps (pid p == null_pid) s
        (record s {
          stats = record (s.stats) {
            input_nulls_stripped = sat_add s.stats.input_nulls_stripped 1;
          };
        })
        (enqueue_at fl s' s'.grid p now) (v, refl, refl)
        (then-Keeps s s' (enqueue_at fl s' s'.grid p now) k
          (enqueue_at-Keeps s' s'.grid p now k.0 refl w))
