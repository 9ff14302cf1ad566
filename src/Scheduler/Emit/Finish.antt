-- ===== src/Scheduler/Emit/Finish.antt =====
-- src/scheduler.rs, `emit_datagram`: what a datagram does to a leg that drains.
use mpegts_pacer.Prelude.{
  ℕ, ◌+◌, ◌≤◌, ◌<◌, ◌≡◌, refl, Bool, true, false, Option, [], if◌then◌else◌, is_some, ◌∙◌, arith,
  u64_max,
}
use mpegts_pacer.Float.{Float, as_secs}
use mpegts_pacer.Jitter
use mpegts_pacer.Media
use mpegts_pacer.Scheduler.{Scheduler}
use mpegts_pacer.Scheduler.Liveness.{observe_state, is_stalled}
use mpegts_pacer.Scheduler.Emit.{
  edge_of, catch_up, emit_slots, withhold, fill_datagram, emit_datagram, determined_for,
  known_false, may_send,
}
use mpegts_pacer.Scheduler.Emit.Drain.{holding, work, IsDraining}
use mpegts_pacer.Scheduler.Emit.Drain.Slots.{emit_slots-Went}
use mpegts_pacer.Scheduler.Emit.Drain.Moves.{
  horizon, Moves, still, either-Moves, then-Moves, untouched-Moves, catch_up_to-Moves,
  observe_state-Moves,
}

module _ {F : Type 0} where
  -- A datagram of a draining leg: the move to its first slot, then its slots.
  pub record Sends (s t : Scheduler F) : Type 0 where
    pub drains : IsDraining t
    pub nearer : 0 < holding t → work t + s.packets_per_datagram ≤ work s
    pub reach : horizon t ≤ horizon s + s.packets_per_datagram
    pub size : t.packets_per_datagram ≡ s.packets_per_datagram
    pub anchored : is_some s.anchor ≡ true → is_some t.anchor ≡ true

  slots-Sends :
      (s : Scheduler F) (due : ℕ) (st : Bool) (d : Option Bool) (send : Bool)
      → IsDraining s
      → horizon s + s.packets_per_datagram ≤ u64_max
      → Sends s (withhold (emit_slots s.packets_per_datagram s due st d send) send)
  slots-Sends s due st d send h room =
      let n = s.packets_per_datagram in
      let w = emit_slots-Went n s due st d send h (omega (arith, room)) in
      kept send (emit_slots n s due st d send) record {
        drains = w.drains;
        nearer = w.nearer;
        reach = omega (arith, w.left, w.slot);
        size = w.size;
        anchored = λ a. rw w.anchor a;
      }
    where
      kept : (send : Bool) (t : Scheduler F) → Sends s t → Sends s (withhold t send)
      kept true t k = k
      kept false t k = record {
        drains = record { in_order = k.drains.in_order; limit = k.drains.limit };
        nearer = k.nearer;
        reach = k.reach;
        size = k.size;
        anchored = k.anchored;
      }

  moved-Sends : (s t u : Scheduler F) → Moves s t → Sends t u → Sends s u
  moved-Sends s t u m k = record {
    drains = k.drains;
    nearer = λ h. omega (arith, k.nearer h, m.less, m.size);
    reach = omega (arith, k.reach, m.reach, m.size);
    size = k.size ∙ m.size;
    anchored = λ a. k.anchored (m.anchored a);
  }

  fill_datagram-Sends :
      (s : Scheduler F) (due : ℕ) (st : Bool)
      → IsDraining s
      → horizon s + s.packets_per_datagram ≤ u64_max
      → Sends s (fill_datagram s due st)
  unfolding fill_datagram
  fill_datagram-Sends s due st h room =
      let known = determined_for s s.grid st in
      let s' = if known_false known then record s { phased = false } else s in
      let m =
        either-Moves (known_false known) s (record s { phased = false }) s
          (untouched-Moves s (record s { phased = false }) h refl refl refl refl refl refl refl)
          (still s h) in
      let send = may_send known s'.phased in
      moved-Sends s s' (withhold (emit_slots s'.packets_per_datagram s' due st known send) send) m
        (slots-Sends s' due st known send m.drains (omega (arith, m.reach, m.size, room)))

module _ (fl : Float) where
  open fl use {F, mul}

  -- A datagram keeps a leg draining. While something is held afterwards, the work left has shrunk by
  -- the datagram's packets at least.
  pub emit_datagram-Sends :
      (s : Scheduler F) (now : ℕ)
      → IsDraining s
      → horizon s + s.packets_per_datagram ≤ u64_max
      → Sends s (emit_datagram fl s now)
  unfolding emit_datagram catch_up
  emit_datagram-Sends s now h room =
      let caught = catch_up s now in
      let s0 = record caught { scratch = [] } in
      let cushion = mul s0.media.rate_pps (as_secs fl s0.target) in
      let (media', due) = Media.due fl s0.media now (Jitter.len s0.buffer) cushion in
      let m = catch_up_to-Moves s (edge_of s.grid) now h refl in
      let s' = record s0 { media = media' } in
      let m' : Moves s s' = record {
        drains = record { in_order = m.drains.in_order; limit = m.drains.limit };
        less = m.less;
        reach = m.reach;
        size = m.size;
        anchored = m.anchored;
      } in
      let s1 = (observe_state s' now).0 in
      let m1 = then-Moves s s' s1 m' (observe_state-Moves s' now m'.drains) in
      moved-Sends s s1 (fill_datagram s1 due (is_stalled (observe_state s' now).1)) m1 (
        fill_datagram-Sends s1 due (is_stalled (observe_state s' now).1) m1.drains
          (omega (arith, m1.reach, m1.size, room)))
