-- ===== src/Scheduler/Emit/Drain/Moves.antt =====
-- src/scheduler.rs, `catch_up` and `observe_state`: they leave a draining leg no more to do.
use mpegts_pacer.Prelude.{
  ℕ, suc, ◌+◌, ◌-◌, ◌*◌, ◌%◌, ◌≤◌, ◌<◌, ◌≡◌, refl, inl, inr, Bool, true, false, ◌||◌, Option, none,
  some, List, [], ◌∷◌, length, leb, ◌==◌, if◌then◌else◌, is_some, is_none, sat_add, max, ◌∙◌, last?,
  arith, Bool-cases, Option-cases,
}
use mpegts_pacer.Packet.{Packet}
use mpegts_pacer.Grid.{StreamGrid, last_slot}
use mpegts_pacer.Grid.Take.{Ordered}
use mpegts_pacer.Scheduler.{Scheduler, state, silent_for, millis}
use mpegts_pacer.Scheduler.Liveness.{observe_state, note_content_gap, counted_stall, is_stalled}
use mpegts_pacer.Scheduler.Emit.{edge_of, catch_up_to}
use mpegts_pacer.Scheduler.Emit.Drain.{
  slots_left, InOrder, may_insert, may_insert-bound, placed_on, work, IsDraining,
}

Ordered-last :
    (lo : ℕ) (xs : List (ℕ × Packet)) (hi e : ℕ) (p : Packet)
    → Ordered lo xs hi
    → last? xs ≡ some (e, p)
    → e < hi
Ordered-last lo [] hi e p o h = ground arith
Ordered-last lo ((s, q) ∷ []) hi e p (le, o) h = let same : s ≡ e = cc h in omega (arith, o, same)
Ordered-last lo ((s, q) ∷ y ∷ ys) hi e p (le, o) h = Ordered-last (suc s) (y ∷ ys) hi e p o h

-- Up to the live edge, a slot further on is a slot less to go.
jump-room :
    (o : Option StreamGrid) (edge slot target : ℕ)
    → InOrder o
    → edge_of o ≡ some edge
    → slot ≤ target
    → target ≤ edge
    → slots_left o target + (target - slot) ≡ slots_left o slot
unfolding last_slot
jump-room none edge slot target o e le le' = absurd o
jump-room (some g) edge slot target o e le le' = room g.placed g.next_free o e
  where
    room :
        (xs : List (ℕ × Packet)) (hi : ℕ)
        → Ordered 0 xs hi
        → (elim (last? xs) [ none ↦ none | some (s, _) ↦ some s ]) ≡ some edge
        → (if length xs == 0 then 0 else hi - target) + (target - slot)
          ≡ (if length xs == 0 then 0 else hi - slot)
    room [] hi o e = ground arith
    room (x ∷ xs) hi o e = elim (Option-cases (last? (x ∷ xs))) [
      | inl f ↦ ground (arith, rw f at e)
      | inr ((s, p), f) ↦
          let edge_eq : s ≡ edge = cc (rw f at e) in
          ground (arith, Ordered-last 0 (x ∷ xs) hi s p o f, edge_eq)
    ]

-- The arithmetic of the jump: the queue `d` is dropped and some slots are skipped.
jump-arith :
    (d p l l' m m' gap : ℕ)
    → l' + gap ≡ l
    → 0 < gap
    → m' ≤ 1
    → 2 * (0 + p) + 2 * l' + m' ≤ 2 * (d + p) + 2 * l + m
jump-arith d p l l' m m' gap e lt b = omega (arith, e, lt, b)

module _ {F : Type 0} where
  -- Where the slots end that what is placed needs.
  abbrev pub horizon : Scheduler F → ℕ
  horizon s = s.slot + slots_left s.grid s.slot

  -- A move that leaves a leg draining, with no more to do.
  pub record Moves (s t : Scheduler F) : Type 0 where
    pub drains : IsDraining t
    pub less : work t ≤ work s
    pub reach : horizon t ≤ horizon s
    pub size : t.packets_per_datagram ≡ s.packets_per_datagram
    pub anchored : is_some s.anchor ≡ true → is_some t.anchor ≡ true

  pub still : (s : Scheduler F) → IsDraining s → Moves s s
  still s h = record {
    drains = h;
    less = omega arith;
    reach = omega arith;
    size = refl;
    anchored = λ a. a;
  }

  -- A change of none of the fields that draining reads.
  pub untouched-Moves :
      (s t : Scheduler F)
      → IsDraining s
      → t.grid ≡ s.grid
      → t.slot ≡ s.slot
      → length t.deferred ≡ length s.deferred
      → t.last_pcr_index ≡ s.last_pcr_index
      → t.pcr_max_packets ≡ s.pcr_max_packets
      → t.packets_per_datagram ≡ s.packets_per_datagram
      → t.anchor ≡ s.anchor
      → Moves s t
  untouched-Moves s t h grid slot queue last limit size anchor = record {
    drains = record { in_order = rw grid h.in_order; limit = rw limit h.limit };
    less = rw (grid, slot, last) (omega (arith, queue));
    reach = rw (grid, slot) (omega arith);
    size = size;
    anchored = λ a. rw anchor a;
  }

  pub catch_up_to-Moves :
      (s : Scheduler F) (o : Option ℕ) (now : ℕ)
      → IsDraining s
      → edge_of s.grid ≡ o
      → Moves s (catch_up_to s o now)
  catch_up_to-Moves s none now h e = still s h
  catch_up_to-Moves s (some edge) now h e =
      let back = edge - s.latency_packets in
      let target = back - back % s.packets_per_datagram in
      elim (Bool-cases (leb (edge - s.slot) s.max_latency_packets || leb target s.slot)) [
        | inl f ↦ rw f (still s h)
        | inr f ↦
            let later : s.slot < target = ground (arith, f) in
            let room =
              jump-room s.grid edge s.slot target h.in_order e (omega (arith, later))
                (omega arith) in
            rw f record {
              drains = record { in_order = h.in_order; limit = h.limit };
              less =
                  jump-arith (length s.deferred) (placed_on s.grid) (slots_left s.grid s.slot)
                    (slots_left s.grid target) (may_insert s.last_pcr_index s.slot)
                    (may_insert s.last_pcr_index target) (target - s.slot) room
                    (omega (arith, later)) (may_insert-bound s.last_pcr_index target);
              reach = omega (arith, room, later);
              size = refl;
              anchored = λ a. refl;
            }
      ]

  pub either-Moves :
      (b : Bool) (s t u : Scheduler F) → Moves s t → Moves s u → Moves s (if b then t else u)
  either-Moves true s t u m n = m
  either-Moves false s t u m n = n

  pub then-Moves : (s t u : Scheduler F) → Moves s t → Moves t u → Moves s u
  then-Moves s t u m n = record {
    drains = n.drains;
    less = omega (arith, m.less, n.less);
    reach = omega (arith, m.reach, n.reach);
    size = n.size ∙ m.size;
    anchored = λ a. n.anchored (m.anchored a);
  }

  counted_stall-Moves : (s : Scheduler F) → IsDraining s → Moves s (counted_stall s)
  counted_stall-Moves s h =
      either-Moves s.is_stalled s s
        (record s { stats = record (s.stats) { stalls = sat_add s.stats.stalls 1 } }) (still s h)
        (untouched-Moves s
          (record s { stats = record (s.stats) { stalls = sat_add s.stats.stalls 1 } }) h refl refl
          refl refl refl refl refl)

  note_content_gap-Moves :
      (s : Scheduler F) (now : ℕ) → IsDraining s → Moves s (note_content_gap s now)
  unfolding note_content_gap
  note_content_gap-Moves s now h =
      let t = record s {
        stats = record (s.stats) {
          content_gap_max_ms = max s.stats.content_gap_max_ms (millis (silent_for s now));
        };
      } in
      either-Moves (is_none s.last_content_at) s s t (still s h)
        (untouched-Moves s t h refl refl refl refl refl refl refl)

  pub observe_state-Moves :
      (s : Scheduler F) (now : ℕ) → IsDraining s → Moves s (observe_state s now).0
  unfolding observe_state
  observe_state-Moves s now h =
      let counted = counted_stall-Moves s h in
      let m =
        either-Moves (is_stalled (state s now)) s (note_content_gap (counted_stall s) now) s
          (then-Moves s (counted_stall s) (note_content_gap (counted_stall s) now) counted
            (note_content_gap-Moves (counted_stall s) now counted.drains))
          (still s h) in
      record {
        drains = record { in_order = m.drains.in_order; limit = m.drains.limit };
        less = m.less;
        reach = m.reach;
        size = m.size;
        anchored = m.anchored;
      }
