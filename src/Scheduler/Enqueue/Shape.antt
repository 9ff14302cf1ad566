-- ===== src/Scheduler/Enqueue/Shape.antt =====
-- src/scheduler.rs, `enqueue`: which fields its parts change.
use mpegts_pacer.Prelude.{
  ℕ, ◌≤◌, ◌≡◌, refl, Bool, true, false, ◌&&◌, ◌||◌, not, Option, none, some, max, is_some, is_none,
  if◌then◌else◌, unwrap_or, wrap_sub, ◌==◌, arith,
}
use mpegts_pacer.Float.{Float}
use mpegts_pacer.Config.{target, is_adaptive}
use mpegts_pacer.Packet.{Packet, pid, has_pcr}
use mpegts_pacer.Pcr.Regen.{PcrRegen}
use mpegts_pacer.Jitter
use mpegts_pacer.Jitter.{JitterBuffer}
use mpegts_pacer.Grid
use mpegts_pacer.Grid.{StreamGrid}
use mpegts_pacer.Arrival
use mpegts_pacer.Arrival.{ArrivalProfile}
use mpegts_pacer.Media.{MediaClock, estimated_rate_pps, zero_f}
use mpegts_pacer.Scheduler.{Scheduler, silent_for, millis}
use mpegts_pacer.Scheduler.Liveness.{note_content_gap, resume, resize, resize_to, grow_grid}
use mpegts_pacer.Scheduler.Enqueue.{
  arrived_sooner, sent, learn_pid, mark_arrival, start_at_edge, tie_clock, tie_to, align_start,
  place_clock, note_gain, after_push, admit_content, watched,
}

either-shape :
    {A : Type 0} (P : A → Type 0) (b : Bool) (x y : A) → P x → P y → P (if b then x else y)
either-shape P true x y v w = v
either-shape P false x y v w = w

-- A grid as it is, or with its bound raised.
pub data Grown : Option StreamGrid → Option StreamGrid → Type 0 where
  no_grid : Grown none none
  raised :
      (g : StreamGrid) (capacity : ℕ)
      → g.capacity ≤ capacity
      → Grown (some g) (some (record g { capacity = capacity }))

grow_grid-Grown : (o : Option StreamGrid) (room : ℕ) → Grown o (grow_grid o room)
unfolding Grid.grow_to
grow_grid-Grown none room = no_grid
grow_grid-Grown (some g) room = raised g (max g.capacity (max room 1)) (omega arith)

Grown-refl : (o : Option StreamGrid) → Grown o o
Grown-refl none = no_grid
Grown-refl (some g) = raised g g.capacity (omega arith)

module _ (fl : Float) where
  open fl use {F}

  -- Setting the start touches the clock, the content it is tied to, and two counters.
  pub after_push-shape :
      (s : Scheduler F) (first last : Option ℕ) (now : ℕ) (P : Scheduler F → Type 0)
      → ((anchor : Option ℕ) (anchor_slot slot : ℕ) (soonest : Option (ℕ × ℕ)) (backlog gain : ℕ)
          → P (record s {
            anchor = anchor;
            anchor_slot = anchor_slot;
            slot = slot;
            soonest = soonest;
            stats = record (s.stats) { start_backlog = backlog; align_gain_us = gain };
          }))
      → P (after_push fl s first last now)
  unfolding after_push start_at_edge align_start tie_clock
  after_push-shape s none last now P all = all s.anchor s.anchor_slot s.slot s.soonest _ _
  after_push-shape s (some first) none now P all = all s.anchor s.anchor_slot s.slot s.soonest _ _
  after_push-shape s (some first) (some edge) now P all =
      either-shape P (sent s == 0)
        (place_clock fl
          (record s { stats = record (s.stats) { start_backlog = wrap_sub edge first } }) s.align
          first edge now)
        (if is_some s.align then note_gain fl s (arrived_sooner s s.soonest edge now) else s)
        (placed s.align)
        (either-shape P (is_some s.align) (note_gain fl s (arrived_sooner s s.soonest edge now)) s
          (gained (arrived_sooner s s.soonest edge now))
          (all s.anchor s.anchor_slot s.slot s.soonest _ _))
    where
      backed : Scheduler F
      backed = record s { stats = record (s.stats) { start_backlog = wrap_sub edge first } }

      gained : (o : Option ℕ) → P (note_gain fl s o)
      gained none = all s.anchor s.anchor_slot s.slot s.soonest _ _
      gained (some gain) = all s.anchor s.anchor_slot s.slot s.soonest _ _

      tied :
          (soonest o : Option (ℕ × ℕ))
          → P (tie_to fl (record backed { soonest = soonest }) o first now)
      tied soonest none = all s.anchor s.anchor_slot s.slot soonest _ _
      tied soonest (some (arrived, reference)) = all _ _ _ soonest _ _

      watched_for :
          (soonest : Option (ℕ × ℕ)) (window : ℕ)
          → let s' = record backed { soonest = soonest } in
            P (
              if watched fl s'.first_content_at now window
              then tie_to fl s' s'.soonest first now
              else s')
      watched_for soonest window =
          either-shape P (watched fl s.first_content_at now window)
            (tie_to fl (record backed { soonest = soonest }) soonest first now)
            (record backed { soonest = soonest }) (tied soonest soonest)
            (all s.anchor s.anchor_slot s.slot soonest _ _)

      placed : (o : Option ℕ) → P (place_clock fl backed o first edge now)
      placed none = all _ _ _ s.soonest _ _
      placed (some window) =
          either-shape
            (λ s'. P (
              if watched fl s'.first_content_at now window
              then tie_to fl s' s'.soonest first now
              else s'))
            (is_none s.soonest || is_some (arrived_sooner backed s.soonest edge now))
            (record backed { soonest = some (now, edge) }) backed
            (watched_for (some (now, edge)) window) (watched_for s.soonest window)

  resized-shape :
      (s : Scheduler F) (P : Scheduler F → Type 0)
      → ((target latency_packets most : ℕ) (buffer : JitterBuffer Packet) (grid : Option StreamGrid)
          → buffer.queue ≡ s.buffer.queue
          → s.buffer.capacity ≤ buffer.capacity
          → Grown s.grid grid
          → P (record s {
            target = target;
            latency_packets = latency_packets;
            max_latency_packets = most;
            buffer = buffer;
            grid = grid;
          }))
      → P (resize fl s)
  unfolding resize resize_to Jitter.grow_to
  resized-shape s P all =
      either-shape P (not (is_adaptive s.latency)) s _ kept
        (by_target (target fl s.latency (Arrival.lead s.profile)))
    where
      kept : P s
      kept =
          all s.target s.latency_packets s.max_latency_packets s.buffer s.grid refl (omega arith)
            (Grown-refl s.grid)

      by_target : (o : Option ℕ) → P (elim o [ none ↦ s | some cushion ↦ resize_to fl s cushion ])
      by_target none = kept
      by_target (some cushion) =
          all _ _ _ _ (grow_grid s.grid _) refl (omega arith) (grow_grid-Grown s.grid _)

  -- What content does to a leg before it is placed: it is no longer stalled, and has a first and a
  -- latest arrival; what is held only gets more room.
  pub admit_content-shape :
      (s : Scheduler F) (p : Packet) (now : ℕ) (P : Scheduler F → Type 0)
      → ((stalled : Bool) (regen : Option PcrRegen) (media : MediaClock F) (gap : ℕ)
            (pcr_pid : Option ℕ) (profile : ArrivalProfile) (target latency_packets most : ℕ)
            (buffer : JitterBuffer Packet) (grid : Option StreamGrid)
          → buffer.queue ≡ s.buffer.queue
          → s.buffer.capacity ≤ buffer.capacity
          → Grown s.grid grid
          → P (record s {
            is_stalled = stalled;
            pcr_regen = regen;
            media = media;
            stats = record (s.stats) { content_gap_max_ms = gap };
            first_content_at = some (unwrap_or s.first_content_at now);
            last_content_at = some now;
            pcr_pid = pcr_pid;
            profile = profile;
            target = target;
            latency_packets = latency_packets;
            max_latency_packets = most;
            buffer = buffer;
            grid = grid;
          }))
      → P (admit_content fl s p now)
  unfolding admit_content mark_arrival note_content_gap resume
  admit_content-shape s p now P all =
      either-shape (λ r. P (after (mark_arrival r now))) s.is_stalled (resume fl s now) s
        (resumed (is_some s.grid)) (gapped s.is_stalled s.pcr_regen s.media)
    where
      -- The rest, once the arrival is marked.
      after : Scheduler F → Scheduler F
      after marked =
          let s' = learn_pid marked p in
          let rate = unwrap_or (estimated_rate_pps fl s'.media) (zero_f fl) in
          resize fl (record s' { profile = Arrival.observe fl s'.profile now rate })

      marked : Bool → Option PcrRegen → MediaClock F → ℕ → Scheduler F
      marked stalled regen media gap = record s {
        is_stalled = stalled;
        pcr_regen = regen;
        media = media;
        stats = record (s.stats) { content_gap_max_ms = gap };
        first_content_at = some (unwrap_or s.first_content_at now);
        last_content_at = some now;
      }

      learnt :
          (stalled : Bool) (regen : Option PcrRegen) (media : MediaClock F) (gap : ℕ)
          → P (after (marked stalled regen media gap))
      learnt stalled regen media gap =
          let m = marked stalled regen media gap in
          either-shape
            (λ s'.
              let rate = unwrap_or (estimated_rate_pps fl s'.media) (zero_f fl) in
              P (resize fl (record s' { profile = Arrival.observe fl s'.profile now rate })))
            (is_none m.pcr_pid && has_pcr p) (record m { pcr_pid = some (pid p) }) m
            (resized-shape _ P (all stalled regen media gap (some (pid p)) _))
            (resized-shape _ P (all stalled regen media gap s.pcr_pid _))

      gapped :
          (stalled : Bool) (regen : Option PcrRegen) (media : MediaClock F)
          → let r = record s { is_stalled = stalled; pcr_regen = regen; media = media } in
            P (after (mark_arrival r now))
      gapped stalled regen media =
          let r = record s { is_stalled = stalled; pcr_regen = regen; media = media } in
          either-shape
            (λ t. P (
              after (record t {
                first_content_at = some (unwrap_or t.first_content_at now);
                last_content_at = some now;
              })))
            (is_none r.last_content_at) r
            (record r {
              stats = record (r.stats) {
                content_gap_max_ms = max r.stats.content_gap_max_ms (millis (silent_for r now));
              };
            })
            (learnt stalled regen media _) (learnt stalled regen media _)

      resumed : (b : Bool) → P (after (mark_arrival (resume fl s now) now))
      resumed b =
          either-shape (λ r. P (after (mark_arrival r now))) (is_some s.grid)
            (record s { is_stalled = false }) _ (gapped false s.pcr_regen s.media)
            (gapped false _ _)
