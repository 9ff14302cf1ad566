-- ===== src/Scheduler/Emit/Starve.antt =====
-- src/scheduler.rs, `reinsert_pcr` where `pcr_max_packets` is one.
use mpegts_pacer.Prelude.{
  ℕ, zero, suc, ◌+◌, ◌-◌, ◌≤◌, ◌<◌, ◌≡◌, refl, ◌∙◌, Bool, true, false, ◌&&◌, not, Option, none,
  some, List, [], ◌∷◌, ◌++◌, ltb, is_some, arith, sat_add, u64_max,
}
use mpegts_pacer.Packet.{Packet, has_pcr}
use mpegts_pacer.Pcr.Regen.{PcrRegen}
use mpegts_pacer.Grid
use mpegts_pacer.Grid.{StreamGrid, Base}
use mpegts_pacer.Scheduler.{Scheduler}
use mpegts_pacer.Scheduler.Emit.{
  reinsert_at, reinsert_pcr, front_has_pcr, emit_pcr, fill_slot, content_at, next_content,
  queue_content, admit, emit_slot, emit_slots, next_slot, inserted_value,
}

-- A packet without a PCR is next.
abbrev pub Waits : List (Packet × Base) → Type 0
Waits [] = ⊥
Waits ((packet, base) ∷ rest) = has_pcr packet ≡ false

-- The last PCR left before the slot.
abbrev pub Before : Option ℕ → ℕ → Type 0
Before none slot = ⊥
Before (some last) slot = last < slot

Before-at : (o : Option ℕ) (i j : ℕ) → i ≡ j → Before o i → Before o j
Before-at none i j e b = absurd b
Before-at (some last) i j e b = omega (arith, e, b)

Waits-append : (xs ys : List (Packet × Base)) → Waits xs → Waits (xs ++ ys)
Waits-append [] ys w = absurd w
Waits-append ((p, b) ∷ rest) ys w = w

Waits-front : (xs : List (Packet × Base)) → Waits xs → front_has_pcr xs ≡ false
Waits-front [] w = absurd w
Waits-front ((p, b) ∷ rest) w = w

module _ {F : Type 0} where
  -- A phased leg on the grid, limited to a PCR in every slot, with content next that has none.
  pub record IsPinned (s : Scheduler F) : Type 0 where
    pub regenerates : is_some s.pcr_regen ≡ true
    pub identified : is_some s.pcr_pid ≡ true
    pub on_grid : is_some s.grid ≡ true
    pub phased : s.phased ≡ true
    pub limit : s.pcr_max_packets ≤ 1
    pub before : Before s.last_pcr_index s.slot
    pub waits : Waits s.deferred

  -- The state after a slot, but for what takes it.
  record Kept (s t : Scheduler F) : Type 0 where
    pinned : IsPinned t
    slot : t.slot ≡ s.slot
    counted : t.stats.content_packets ≡ s.stats.content_packets

  queue_content-Kept :
      (s t : Scheduler F) (o : Option (Packet × Base)) → Kept s t → Kept s (queue_content (t, o)).0
  queue_content-Kept s t none k = k
  queue_content-Kept s t (some c) k = record {
    pinned = record {
      regenerates = k.pinned.regenerates;
      identified = k.pinned.identified;
      on_grid = k.pinned.on_grid;
      phased = k.pinned.phased;
      limit = k.pinned.limit;
      before = k.pinned.before;
      waits = Waits-append t.deferred (c ∷ []) k.pinned.waits;
    };
    slot = k.slot;
    counted = k.counted;
  }

  admit-Kept : (s : Scheduler F) (w : Bool) → IsPinned s → Kept s (admit s s.slot w).0
  unfolding admit next_content
  admit-Kept s w h = on_grid s.grid h.on_grid
    where
      on_grid :
          (g : Option StreamGrid)
          → is_some g ≡ true
          → Kept s (queue_content (content_at s g s.slot w)).0
      on_grid none e = ground (arith, e)
      on_grid (some g) e =
          queue_content-Kept s (content_at s (some g) s.slot w).0 (Grid.take g s.slot).1 record {
            pinned = record {
              regenerates = h.regenerates;
              identified = h.identified;
              on_grid = refl;
              phased = h.phased;
              limit = h.limit;
              before = h.before;
              waits = h.waits;
            };
            slot = refl;
            counted = refl;
          }

  -- A re-insertion is due in the slot.
  reinsert_at-due :
      (s : Scheduler F) (r : Option PcrRegen) (q o : Option ℕ) (i : ℕ)
      → is_some r ≡ true
      → is_some q ≡ true
      → is_some s.grid ≡ true
      → s.phased ≡ true
      → s.pcr_max_packets ≤ 1
      → Before o i
      → front_has_pcr s.deferred ≡ false
      → is_some (reinsert_at s r q o i false) ≡ true
  unfolding reinsert_at
  reinsert_at-due s none q o i a b c d e f w = ground (arith, a)
  reinsert_at-due s (some r) none o i a b c d e f w = ground (arith, b)
  reinsert_at-due s (some r) (some q) none i a b c d e f w = absurd f
  reinsert_at-due s (some r) (some q) (some l) i a b c d e f w =
      let late : ltb (i - l) s.pcr_max_packets ≡ false = ground (arith, e, f) in
      let open_grid : (is_some s.grid && not s.phased) ≡ false = ground (arith, c, d) in
      rw (w, late, open_grid) (placed s.grid c)
    where
      placed : (g : Option StreamGrid) → is_some g ≡ true → is_some (inserted_value s g r i) ≡ true
      placed none c = ground (arith, c)
      placed (some g) c = refl

  inserted-Kept :
      (s u : Scheduler F) (o : Option ℕ) (q : List (Packet × Base)) (w a : Bool) (d : Option Bool)
      (send : Bool)
      → is_some o ≡ true
      → s.slot < u64_max
      → Kept s u
      → let t = next_slot (fill_slot u o q s.slot w a false d send) send in
        IsPinned t × (t.slot ≡ s.slot + 1) × (t.stats.content_packets ≡ s.stats.content_packets)
  unfolding fill_slot emit_pcr
  inserted-Kept s u none q w a d send i room k = ground (arith, i)
  inserted-Kept s u (some v) q w a d send i room k = by_count send
    where
      ahead : s.slot < sat_add u.slot 1
      ahead = ground (arith, k.slot, room)

      next : sat_add u.slot 1 ≡ s.slot + 1
      next = ground (arith, k.slot, room)

      by_count :
          (send : Bool)
          → let t = next_slot (fill_slot u (some v) q s.slot w a false d send) send in
            IsPinned t × (t.slot ≡ s.slot + 1) × (t.stats.content_packets ≡ s.stats.content_packets)
      by_count true = (
        record {
          regenerates = k.pinned.regenerates;
          identified = k.pinned.identified;
          on_grid = k.pinned.on_grid;
          phased = k.pinned.phased;
          limit = k.pinned.limit;
          before = ahead;
          waits = k.pinned.waits;
        },
        next,
        k.counted,
      )
      by_count false = (
        record {
          regenerates = k.pinned.regenerates;
          identified = k.pinned.identified;
          on_grid = k.pinned.on_grid;
          phased = k.pinned.phased;
          limit = k.pinned.limit;
          before = ahead;
          waits = k.pinned.waits;
        },
        next,
        k.counted,
      )

  emit_slot-IsPinned :
      (s : Scheduler F) (due : ℕ) (d : Option Bool) (send : Bool)
      → IsPinned s
      → s.slot < u64_max
      → let t = emit_slot s due false d send in
        IsPinned t × (t.slot ≡ s.slot + 1) × (t.stats.content_packets ≡ s.stats.content_packets)
  unfolding emit_slot reinsert_pcr
  emit_slot-IsPinned s due d send h room =
      let w = ltb s.media.released due in
      let u = (admit s s.slot w).0 in
      let k = admit-Kept s w h in
      let v = k.pinned in
      inserted-Kept s u (reinsert_at u u.pcr_regen u.pcr_pid u.last_pcr_index s.slot false)
        u.deferred w (admit s s.slot w).1 d send
        (reinsert_at-due u u.pcr_regen u.pcr_pid u.last_pcr_index s.slot v.regenerates v.identified
          v.on_grid v.phased v.limit (Before-at u.last_pcr_index u.slot s.slot k.slot v.before)
          (Waits-front u.deferred v.waits))
        room k

  -- A limit of one slot starves the content: from a phased leg on the grid that has sent a PCR and
  -- has a packet without one next, no number of slots puts out a content packet, and the packet is
  -- still there, while the slots number no more than 64 bits and the source is not stalled.
  pub emit_slots-IsPinned :
      (n : ℕ) (s : Scheduler F) (due : ℕ) (d : Option Bool) (send : Bool)
      → IsPinned s
      → s.slot + n ≤ u64_max
      → let t = emit_slots n s due false d send in
        (t.stats.content_packets ≡ s.stats.content_packets) × IsPinned t
  unfolding emit_slots
  emit_slots-IsPinned zero s due d send h room = (refl, h)
  emit_slots-IsPinned (suc n) s due d send h room =
      let (h', next, same) = emit_slot-IsPinned s due d send h (omega (arith, room)) in
      let (all, pinned) =
        emit_slots-IsPinned n (emit_slot s due false d send) due d send h'
          (omega (arith, room, next)) in
      (all ∙ same, pinned)
