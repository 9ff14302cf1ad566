-- ===== src/Scheduler/Enqueue/Output.antt =====
-- src/scheduler.rs: `enqueue` and the methods that start and flush a leg count nothing as output.
use mpegts_pacer.Prelude.{
  ℕ, refl, ◌||◌, Option, none, some, ltb, ◌==◌, if◌then◌else◌, is_none, is_some, sat_add, inl, inr,
  Bool, true, false, Bool-cases,
}
use mpegts_pacer.Float.{Float}
use mpegts_pacer.Config.{start_deadline}
use mpegts_pacer.Packet.{Packet, pid, null_pid}
use mpegts_pacer.Jitter
use mpegts_pacer.Grid
use mpegts_pacer.Grid.{StreamGrid}
use mpegts_pacer.Media
use mpegts_pacer.Scheduler.{Scheduler}
use mpegts_pacer.Scheduler.Liveness.{start_at, arm, poll_start, start_now}
use mpegts_pacer.Scheduler.Enqueue.{
  note_depth, sent, store_grid, after_push, enqueue_grid, enqueue_buffer, enqueue_at, admit_content,
  enqueue,
}
use mpegts_pacer.Scheduler.Enqueue.Shape.{after_push-shape, admit_content-shape}
use mpegts_pacer.Scheduler.Emit.Output.{Mute, either-Mute, then-Mute}

module _ {F : Type 0} where
  pub start_now-Mute : (s : Scheduler F) (now : ℕ) → Mute s (start_now s now)
  unfolding start_now
  start_now-Mute s now =
      either-Mute (is_none s.anchor) s
        (record s { anchor = some now; media = record (s.media) { anchor = some now } }) s
        (refl, refl) (refl, refl)

module _ (fl : Float) where
  open fl use {F}

  arm-Mute : (s : Scheduler F) (now : ℕ) → Mute s (arm fl s now)
  unfolding arm
  arm-Mute s now = elim (Bool-cases (is_some s.anchor || is_some s.align)) [
    | inl e ↦ rw e (refl, refl)
    | inr e ↦ rw e (by_start (start_at fl s now (start_deadline fl s.latency)))
  ]
    where
      by_start :
          (o : Option ℕ)
          → Mute s (elim o [
            | none ↦ s
            | some anchor ↦ record s {
              anchor = some anchor;
              media = record (s.media) { anchor = some anchor };
            }
          ])
      by_start none = (refl, refl)
      by_start (some anchor) = (refl, refl)

  pub poll_start-Mute : (s : Scheduler F) (now : ℕ) → Mute s (poll_start fl s now)
  unfolding poll_start
  poll_start-Mute s now =
      either-Mute (is_some s.first_content_at) s (arm fl s now) s (arm-Mute s now) (refl, refl)

  after_push-Mute :
      (s : Scheduler F) (first last : Option ℕ) (now : ℕ) → Mute s (after_push fl s first last now)
  after_push-Mute s first last now =
      after_push-shape fl s first last now (λ t. Mute s t)
        (λ anchor anchor_slot slot soonest backlog gain. (refl, refl))

  enqueue_at-Mute :
      (s : Scheduler F) (o : Option StreamGrid) (p : Packet) (now : ℕ)
      → Mute s (enqueue_at fl s o p now)
  unfolding enqueue_grid enqueue_buffer note_depth
  enqueue_at-Mute s (some g) p now =
      let horizon = if ltb 0 (sent s) then some (sat_add s.slot s.max_latency_packets) else none in
      let (g', dropped) = Grid.push g p now horizon in
      after_push-Mute (store_grid s g' dropped) (Grid.first_slot g') (Grid.last_slot g') now
  enqueue_at-Mute s none p now =
      let (buffer', dropped) = Jitter.push s.buffer p in
      let pushed = record s { media = Media.observe fl s.media p; buffer = buffer' } in
      let counted =
        if dropped
        then record (s.stats) { dropped_packets = sat_add s.stats.dropped_packets 1 }
        else s.stats in
      let s' = note_depth (record pushed { stats = counted }) in
      then-Mute s s' (arm fl s' now) (by_drop dropped) (arm-Mute s' now)
    where
      by_drop :
          (b : Bool)
          → Mute s (
              note_depth (record s {
                media = Media.observe fl s.media p;
                buffer = (Jitter.push s.buffer p).0;
                stats =
                    if b
                    then record (s.stats) { dropped_packets = sat_add s.stats.dropped_packets 1 }
                    else s.stats;
              }))
      by_drop true = (refl, refl)
      by_drop false = (refl, refl)

  admit_content-Mute : (s : Scheduler F) (p : Packet) (now : ℕ) → Mute s (admit_content fl s p now)
  admit_content-Mute s p now =
      admit_content-shape fl s p now (λ t. Mute s t)
        (λ stalled regen media gap pcr_pid profile target latency most buffer grid same more grown.
          (refl, refl))

  -- A packet that comes in is not output.
  pub enqueue-Mute : (s : Scheduler F) (p : Packet) (now : ℕ) → Mute s (enqueue fl s p now)
  unfolding enqueue
  enqueue-Mute s p now =
      let s' = admit_content fl s p now in
      either-Mute (pid p == null_pid) s
        (record s {
          stats = record (s.stats) {
            input_nulls_stripped = sat_add s.stats.input_nulls_stripped 1;
          };
        })
        (enqueue_at fl s' s'.grid p now) (refl, refl)
        (then-Mute s s' (enqueue_at fl s' s'.grid p now) (admit_content-Mute s p now)
          (enqueue_at-Mute s' s'.grid p now))
