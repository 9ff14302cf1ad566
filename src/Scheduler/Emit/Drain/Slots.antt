-- ===== src/Scheduler/Emit/Drain/Slots.antt =====
-- src/scheduler.rs, the loop of `emit_datagram`: its rounds on a leg that drains.
use mpegts_pacer.Prelude.{
  ℕ, zero, suc, ◌+◌, ◌-◌, ◌≤◌, ◌<◌, ◌≡◌, refl, sym, ap, ◌∙◌, inl, inr, Bool, true, ◌&&◌, ◌||◌, not,
  Option, none, some, length, ltb, is_some, arith, Bool-cases, u64_max, sat_add,
}
use mpegts_pacer.Pcr.Regen.{PcrRegen}
use mpegts_pacer.Scheduler.{Scheduler}
use mpegts_pacer.Scheduler.Emit.{
  reinsert_at, reinsert_pcr, fill_slot, admit, emit_slot, emit_slots, next_slot,
}
use mpegts_pacer.Scheduler.Emit.Drain.{
  slots_left, placed_on, may_insert, may_insert-bound, may_insert-next, nearer-arith, holding, work,
  IsDraining, Admits, admit-Admits, Fills, fill_slot-Fills,
}

module _ {F : Type 0} where
  -- A re-insertion comes only where the last PCR lies `pcr_max_packets` slots back or more.
  reinsert_at-late :
      (s : Scheduler F) (r : Option PcrRegen) (q o : Option ℕ) (i : ℕ) (st : Bool)
      → 2 ≤ s.pcr_max_packets
      → is_some (reinsert_at s r q o i st) ≡ true
      → may_insert o i ≡ 1
  unfolding reinsert_at
  reinsert_at-late s none q o i st k h = ground arith
  reinsert_at-late s (some r) none o i st k h = ground arith
  reinsert_at-late s (some r) (some q) none i st k h = ground arith
  reinsert_at-late s (some r) (some q) (some l) i st k h =
      elim (Bool-cases (st || (is_some s.grid && not s.phased))) [
        | inl e ↦ absurd (ground (arith, rw e at h))
        | inr e ↦ elim (Bool-cases (ltb (i - l) s.pcr_max_packets)) [
          | inl f ↦ absurd (ground (arith, rw (e, f) at h))
          | inr f ↦ ground arith
        ]
      ]

  -- A slot of a draining leg: it still drains, holds no more, and is nearer the end.
  record Goes (s t : Scheduler F) : Type 0 where
    drains : IsDraining t
    holds : holding t ≤ holding s
    nearer : 0 < holding s → work t < work s
    left : slots_left t.grid t.slot ≤ slots_left s.grid s.slot
    slot : t.slot ≡ s.slot + 1
    size : t.packets_per_datagram ≡ s.packets_per_datagram
    anchor : t.anchor ≡ s.anchor

  filled-Goes :
      (s u t : Scheduler F) (o : Option ℕ) (send : Bool)
      → 2 ≤ s.pcr_max_packets
      → s.slot < u64_max
      → Admits s s.grid u
      → Fills u t o s.slot
      → (is_some o ≡ true → may_insert s.last_pcr_index s.slot ≡ 1)
      → Goes s (next_slot t send)
  filled-Goes s u t o send limit room a f late =
      let slot : sat_add t.slot 1 ≡ s.slot + 1 = rw (f.slot ∙ a.slot) (ground (arith, room)) in
      let placed : placed_on t.grid ≡ placed_on u.grid = ap placed_on f.grid in
      let near : 0 < holding s → work (next_slot t send) < work s = λ h.
        rw (slot, f.grid)
          (nearer-arith (is_some o) (length s.deferred) (placed_on s.grid)
            (slots_left s.grid s.slot) (may_insert s.last_pcr_index s.slot) (length u.deferred)
            (placed_on u.grid) (slots_left u.grid (s.slot + 1)) (length t.deferred)
            (may_insert t.last_pcr_index (s.slot + 1)) a.fewer a.kept a.sooner a.moves f.held
            (may_insert-bound t.last_pcr_index (s.slot + 1))
            (λ e. (late e, may_insert-next t.last_pcr_index s.slot (f.marked e))) h) in
      let less : length t.deferred ≤ length u.deferred = rw f.held (ground arith) in
      record {
        drains = record { in_order = rw f.grid a.in_order; limit = rw (f.limit ∙ a.limit) limit };
        holds = omega (arith, less, placed, a.fewer);
        nearer = near;
        left = rw (slot, f.grid) a.sooner;
        slot = slot;
        size = f.size ∙ a.size;
        anchor = f.anchor ∙ a.anchor;
      }

  emit_slot-Goes :
      (s : Scheduler F) (due : ℕ) (st : Bool) (d : Option Bool) (send : Bool)
      → IsDraining s
      → s.slot < u64_max
      → Goes s (emit_slot s due st d send)
  unfolding emit_slot reinsert_pcr
  emit_slot-Goes s due st d send h room =
      let w = ltb s.media.released due in
      let u = (admit s s.slot w).0 in
      let a = admit-Admits s w h.in_order in
      let o = reinsert_at u u.pcr_regen u.pcr_pid u.last_pcr_index s.slot st in
      let f = fill_slot-Fills u o u.deferred s.slot w (admit s s.slot w).1 st d send refl in
      let late : is_some o ≡ true → may_insert s.last_pcr_index s.slot ≡ 1 = λ e. rw (sym a.last) (
        reinsert_at-late u u.pcr_regen u.pcr_pid u.last_pcr_index s.slot st (rw a.limit h.limit)
          e) in
      filled-Goes s u (fill_slot u o u.deferred s.slot w (admit s s.slot w).1 st d send) o send
        h.limit room a f late

  -- A run of slots of a draining leg.
  pub record Went (s t : Scheduler F) (n : ℕ) : Type 0 where
    pub drains : IsDraining t
    pub holds : holding t ≤ holding s
    pub nearer : 0 < holding t → work t + n ≤ work s
    pub left : slots_left t.grid t.slot ≤ slots_left s.grid s.slot
    pub slot : t.slot ≡ s.slot + n
    pub size : t.packets_per_datagram ≡ s.packets_per_datagram
    pub anchor : t.anchor ≡ s.anchor

  one-more : (s u t : Scheduler F) (n : ℕ) → Goes s u → Went u t n → Went s t (suc n)
  one-more s u t n g w = record {
    drains = w.drains;
    holds = omega (arith, w.holds, g.holds);
    nearer = λ h. omega (arith, w.nearer h, g.nearer (omega (arith, w.holds, g.holds)));
    left = omega (arith, w.left, g.left);
    slot = omega (arith, w.slot, g.slot);
    size = w.size ∙ g.size;
    anchor = w.anchor ∙ g.anchor;
  }

  pub emit_slots-Went :
      (n : ℕ) (s : Scheduler F) (due : ℕ) (st : Bool) (d : Option Bool) (send : Bool)
      → IsDraining s
      → s.slot + n ≤ u64_max
      → Went s (emit_slots n s due st d send) n
  unfolding emit_slots
  emit_slots-Went zero s due st d send h room = record {
    drains = h;
    holds = omega arith;
    nearer = λ k. omega arith;
    left = omega arith;
    slot = omega arith;
    size = refl;
    anchor = refl;
  }
  emit_slots-Went (suc n) s due st d send h room =
      let g = emit_slot-Goes s due st d send h (omega (arith, room)) in
      let u = emit_slot s due st d send in
      one-more s u (emit_slots n u due st d send) n g
        (emit_slots-Went n u due st d send g.drains (omega (arith, room, g.slot)))
