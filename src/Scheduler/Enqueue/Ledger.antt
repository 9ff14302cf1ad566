-- ===== src/Scheduler/Enqueue/Ledger.antt =====
-- src/scheduler.rs, `enqueue`: where every content packet goes.
use mpegts_pacer.Prelude.{
  ℕ, ◌+◌, ◌≤◌, ◌<◌, ◌≡◌, refl, ap, ◌∙◌, inl, inr, Bool, true, false, ◌||◌, Option, none, some, [],
  ◌∷◌, length, length-append, leb, ltb, ◌==◌, if◌then◌else◌, tail, sat_add, u64_max, Bool-cases,
  arith, is_some,
}
use mpegts_pacer.Float.{Float}
use mpegts_pacer.Config.{start_deadline}
use mpegts_pacer.Packet.{Packet, pid, pcr, null_pid}
use mpegts_pacer.Jitter
use mpegts_pacer.Jitter.{JitterBuffer}
use mpegts_pacer.Jitter.Queue.{length-tail}
use mpegts_pacer.Grid
use mpegts_pacer.Grid.{StreamGrid, note_continuity}
use mpegts_pacer.Grid.Place.{held}
use mpegts_pacer.Grid.Push.{IsGrid, Fits, slot_given, push_lem}
use mpegts_pacer.Media
use mpegts_pacer.Scheduler.{Scheduler, held_back, cut_of}
use mpegts_pacer.Scheduler.Liveness.{arm, start_at}
use mpegts_pacer.Scheduler.Enqueue.{
  sent, store_grid, note_depth, enqueue_grid, enqueue_buffer, enqueue_at, admit_content, enqueue,
}
use mpegts_pacer.Scheduler.Enqueue.Shape.{
  Grown, no_grid, raised, after_push-shape, admit_content-shape,
}

push-counts :
    (b : JitterBuffer Packet) (p : Packet)
    → 0 < b.capacity
    → length (Jitter.push b p).0.queue + (if (Jitter.push b p).1 then 1 else 0) ≡ length b.queue + 1
unfolding Jitter.push
push-counts b p positive = elim (Bool-cases (leb b.capacity (length b.queue))) [
  | inl e ↦ rw e (omega (arith, length-append (tail b.queue) (p ∷ []), length-tail b.queue, full e))
  | inr e ↦ rw e (omega (arith, length-append b.queue (p ∷ [])))
]
  where
    full : leb b.capacity (length b.queue) ≡ true → 0 < length b.queue
    full e = ground arith

raised-IsGrid :
    (g : StreamGrid) (capacity : ℕ)
    → g.capacity ≤ capacity
    → IsGrid g
    → IsGrid (record g { capacity = capacity })
raised-IsGrid g capacity more v = record {
  ordered = v.ordered;
  bounded = omega (arith, v.bounded);
  positive = omega (arith, v.positive);
  opened_first = v.opened_first;
}

module _ {F : Type 0} where
  -- The packets that are held, on the grid, in the buffer or next to go out, with those counted as
  -- dropped and those counted as cut.
  abbrev pub account : Scheduler F → ℕ
  account s =
      held_back s.grid s.buffer + length s.deferred + s.stats.dropped_packets + cut_of s.grid

  -- No counter is at its end, and on the grid no slot that the packet can be given is near 2^64.
  pub data IsReady (s : Scheduler F) (p : Packet) (now : ℕ) : Option StreamGrid → Type 0 where
    into_buffer : 0 < s.buffer.capacity → s.stats.dropped_packets < u64_max → IsReady s p now none
    onto_grid :
        (g : StreamGrid) (top : ℕ)
        → IsGrid g
        → ((capacity : ℕ) (horizon : Option ℕ)
            → let g' = record g { capacity = capacity } in
              Fits g' (slot_given (note_continuity g' p) p now horizon (pcr p)) top)
        → s.stats.dropped_packets + held g + g.cut < u64_max
        → IsReady s p now (some g)

module _ (fl : Float) where
  open fl use {F}

  arm-account : (s : Scheduler F) (now : ℕ) → account (arm fl s now) ≡ account s
  unfolding arm
  arm-account s now = elim (Bool-cases (is_some s.anchor || is_some s.align)) [
    | inl e ↦ rw e refl
    | inr e ↦ rw e (by_start (start_at fl s now (start_deadline fl s.latency)))
  ]
    where
      by_start :
          (o : Option ℕ)
          → account (elim o [
            | none ↦ s
            | some anchor ↦ record s {
              anchor = some anchor;
              media = record (s.media) { anchor = some anchor };
            }
          ])
            ≡ account s
      by_start none = refl
      by_start (some anchor) = refl

  buffer-account :
      (s : Scheduler F) (p : Packet) (now : ℕ)
      → s.grid ≡ none
      → 0 < s.buffer.capacity
      → s.stats.dropped_packets < u64_max
      → account (enqueue_buffer fl s p now) ≡ account s + 1
  unfolding enqueue_buffer note_depth Jitter.len
  buffer-account s p now e positive room =
      let (buffer', dropped) = Jitter.push s.buffer p in
      let stats' =
        if dropped
        then record (s.stats) { dropped_packets = sat_add s.stats.dropped_packets 1 }
        else s.stats in
      arm-account
        (note_depth
          (record s { media = Media.observe fl s.media p; buffer = buffer'; stats = stats' }))
        now
      ∙ by_drop dropped (push-counts s.buffer p positive)
    where
      by_drop :
          (dropped : Bool)
          → length (Jitter.push s.buffer p).0.queue + (if dropped then 1 else 0)
            ≡ length s.buffer.queue + 1
          → let stats' =
              if dropped
              then record (s.stats) { dropped_packets = sat_add s.stats.dropped_packets 1 }
              else s.stats in
            account (record s { buffer = (Jitter.push s.buffer p).0; stats = stats' })
            ≡ account s + 1
      by_drop true h = rw e (omega (arith, h, room))
      by_drop false h = rw e (omega (arith, h))

  grid-account :
      (s : Scheduler F) (g : StreamGrid) (p : Packet) (now top : ℕ)
      → s.grid ≡ some g
      → IsGrid g
      → ((horizon : Option ℕ) → Fits g (slot_given (note_continuity g p) p now horizon (pcr p)) top)
      → s.stats.dropped_packets + held g + g.cut < u64_max
      → account (enqueue_grid fl s g p now) ≡ account s + 1
  unfolding enqueue_grid note_depth
  grid-account s g p now top e v fits room =
      let horizon = if ltb 0 (sent s) then some (sat_add s.slot s.max_latency_packets) else none in
      let (g', dropped) = Grid.push g p now horizon in
      let (is, counts) = push_lem g p now horizon top v (fits horizon) in
      after_push-shape fl (store_grid s g' dropped) (Grid.first_slot g') (Grid.last_slot g') now
        (λ t. account t ≡ account s + 1)
        (λ anchor anchor_slot slot soonest backlog gain. rw e (omega (arith, counts, room)))

  -- The packet stored on a leg that has only got more room.
  stored-account :
      (s t : Scheduler F) (p : Packet) (now : ℕ) (o o' : Option StreamGrid)
      → s.grid ≡ o
      → t.grid ≡ o'
      → Grown o o'
      → IsReady s p now o
      → length t.buffer.queue ≡ length s.buffer.queue
      → s.buffer.capacity ≤ t.buffer.capacity
      → t.deferred ≡ s.deferred
      → t.stats.dropped_packets ≡ s.stats.dropped_packets
      → account (enqueue_at fl t o' p now) ≡ account s + 1
  unfolding Jitter.len
  stored-account s t p now _ _ e e' no_grid (into_buffer positive room) queue more deferred
        dropped =
      let before : account s ≡ length s.buffer.queue + length s.deferred + s.stats.dropped_packets =
        rw e (omega arith) in
      let between : account t
          ≡ length t.buffer.queue + length t.deferred + t.stats.dropped_packets =
        rw e' (omega arith) in
      buffer-account t p now e' (omega (arith, positive, more)) (rw dropped room)
      ∙ omega (arith, before, between, queue, ap length deferred, dropped)
  stored-account s t p now _ _ e e' (raised _ capacity wider) (onto_grid g top v fits room) queue
        more deferred dropped =
      let g' = record g { capacity = capacity } in
      let before : account s ≡ held g + length s.deferred + s.stats.dropped_packets + g.cut =
        rw e refl in
      let between : account t ≡ held g + length t.deferred + t.stats.dropped_packets + g.cut =
        rw e' refl in
      grid-account t g' p now top e' (raised-IsGrid g capacity wider v)
        (λ horizon. fits capacity horizon) (rw dropped room)
      ∙ omega (arith, before, between, ap length deferred, dropped)

  admitted-account :
      (s : Scheduler F) (p : Packet) (now : ℕ)
      → IsReady s p now s.grid
      → let t = admit_content fl s p now in account (enqueue_at fl t t.grid p now) ≡ account s + 1
  admitted-account s p now ready =
      admit_content-shape fl s p now (λ t. account (enqueue_at fl t t.grid p now) ≡ account s + 1)
        (λ stalled regen media gap pcr_pid profile target latency most buffer grid same more grown.
          stored-account s _ p now s.grid grid refl refl grown ready (ap length same) more refl
            refl)

  -- Every content packet that comes in is accounted for: with those held before it is held, counted as
  -- dropped or counted as cut, whatever the stall, the resizing and the start of the clock do; a null
  -- packet changes nothing of that.
  pub enqueue-accounts :
      (s : Scheduler F) (p : Packet) (now : ℕ)
      → IsReady s p now s.grid
      → account (enqueue fl s p now) ≡ account s + (if pid p == null_pid then 0 else 1)
  unfolding enqueue
  enqueue-accounts s p now ready = elim (Bool-cases (pid p == null_pid)) [
    | inl e ↦ rw e (omega arith)
    | inr e ↦ rw e (admitted-account s p now ready)
  ]
