-- ===== src/Scheduler/Emit/Drain.antt =====
-- src/scheduler.rs, the loop of `emit_datagram` on a leg whose source has ended: what is left to do.
pub mod Slots
pub mod Moves
use mpegts_pacer.Prelude.{
  ℕ, zero, suc, ◌+◌, ◌-◌, ◌*◌, ◌≤◌, ◌<◌, ◌≡◌, refl, sym, ap, ◌∙◌, inl, inr, Bool, true, false, ◌&&◌,
  ◌||◌, not, Option, none, some, List, [], ◌∷◌, length, length-append, ltb, ◌==◌, if◌then◌else◌,
  is_some, arith, Bool-cases, u64_max, sat_add,
}
use mpegts_pacer.Packet.{Packet}
use mpegts_pacer.Pcr.Regen.{PcrRegen}
use mpegts_pacer.Grid.{StreamGrid, Base, take}
use mpegts_pacer.Grid.Take.{Ordered, Ordered-bound, from_slot, take_lem, take-conserves}
use mpegts_pacer.Scheduler.{Scheduler}
use mpegts_pacer.Scheduler.Emit.{
  reinsert_at, reinsert_pcr, write_content, open_content, close_content, emit_content, emit_pcr,
  emit_null, fill_slot, content_at, next_content, queue_content, admit, emit_slot, emit_slots,
  next_slot,
}

from_slot-room :
    (n lo : ℕ) (xs : List (ℕ × Packet)) (hi : ℕ)
    → Ordered lo xs hi
    → 0 < length (from_slot n xs)
    → n < hi
unfolding from_slot
from_slot-room n lo [] hi o h = absurd (omega arith)
from_slot-room n lo ((s, p) ∷ rest) hi (le, o) h = elim (Bool-cases (ltb s n)) [
  | inl e ↦ from_slot-room n (suc s) rest hi o (rw e at h)
  | inr e ↦ ground (arith, Ordered-bound (suc s) rest hi o)
]

-- The slots until nothing placed is left.
abbrev pub slots_left : Option StreamGrid → ℕ → ℕ
slots_left none slot = 0
slots_left (some g) slot = if length g.placed == 0 then 0 else g.next_free - slot

abbrev pub placed_on : Option StreamGrid → ℕ
placed_on none = 0
placed_on (some g) = length g.placed

abbrev pub InOrder : Option StreamGrid → Type 0
InOrder none = ⊥
InOrder (some g) = Ordered 0 g.placed g.next_free

-- Whether a re-insertion may come next, where the limit is two slots or more.
abbrev pub may_insert : Option ℕ → ℕ → ℕ
may_insert none slot = 0
may_insert (some last) slot = if ltb (slot - last) 2 then 0 else 1

taken_on :
    (g : StreamGrid) (slot : ℕ)
    → Ordered 0 g.placed g.next_free
    → let g' = (take g slot).0 in
      (slots_left (some g') (slot + 1) ≤ slots_left (some g) slot)
      × (0 < length g'.placed → slots_left (some g') (slot + 1) + 1 ≤ slots_left (some g) slot)
unfolding take
taken_on g slot o =
    let (due, late, placed, order) = take_lem g slot o in
    let all = take-conserves g slot o in
    let room : 0 < length (take g slot).0.placed → slot + 1 < g.next_free =
      λ h. omega (arith, from_slot-room (suc slot) 0 g.placed g.next_free o (rw placed at h)) in
    (ground (arith, all, room), λ h. ground (arith, all, room h))

pub may_insert-bound : (o : Option ℕ) (slot : ℕ) → may_insert o slot ≤ 1
may_insert-bound none slot = omega arith
may_insert-bound (some last) slot = ground arith

may_insert-next : (o : Option ℕ) (slot : ℕ) → o ≡ some slot → may_insert o (slot + 1) ≡ 0
may_insert-next o slot e = rw e (ground arith)

-- The two cases as arithmetic: `d`, `p`, `l`, `m` are the queue, the placed packets, the slots left
-- and whether a re-insertion may come, `d1` the queue once the slot's packets are admitted.
nearer-arith :
    (inserted : Bool) (d p l m d1 p1 l1 d2 m2 : ℕ)
    → d1 + p1 ≤ d + p
    → d ≤ d1
    → l1 ≤ l
    → (0 < p1 → l1 + 1 ≤ l)
    → d2 ≡ (if inserted then d1 else d1 - 1)
    → m2 ≤ 1
    → (inserted ≡ true → (m ≡ 1) × (m2 ≡ 0))
    → 0 < d + p
    → 2 * (d2 + p1) + 2 * l1 + m2 < 2 * (d + p) + 2 * l + m
nearer-arith true d p l m d1 p1 l1 d2 m2 fewer kept sooner moves held bound late some_held =
    let (may, next) = late refl in omega (arith, fewer, sooner, held, may, next)
nearer-arith false d p l m d1 p1 l1 d2 m2 fewer kept sooner moves held bound late some_held =
    ground (arith, fewer, kept, sooner, moves, held, bound, some_held)

module _ {F : Type 0} where
  abbrev pub holding : Scheduler F → ℕ
  holding s = length s.deferred + placed_on s.grid

  -- Slots that are enough to put out all that is held.
  abbrev pub work : Scheduler F → ℕ
  work s = 2 * holding s + 2 * slots_left s.grid s.slot + may_insert s.last_pcr_index s.slot

  -- A leg on the grid that can drain: its placed packets in order, and the limit two slots or more.
  pub record IsDraining (s : Scheduler F) : Type 0 where
    pub in_order : InOrder s.grid
    pub limit : 2 ≤ s.pcr_max_packets

  -- What is left of the packets, on the grid `o` before, once those for a slot are admitted.
  record Admits (s : Scheduler F) (o : Option StreamGrid) (t : Scheduler F) : Type 0 where
    in_order : InOrder t.grid
    fewer : length t.deferred + placed_on t.grid ≤ length s.deferred + placed_on o
    kept : length s.deferred ≤ length t.deferred
    sooner : slots_left t.grid (s.slot + 1) ≤ slots_left o s.slot
    moves : 0 < placed_on t.grid → slots_left t.grid (s.slot + 1) + 1 ≤ slots_left o s.slot
    last : t.last_pcr_index ≡ s.last_pcr_index
    limit : t.pcr_max_packets ≡ s.pcr_max_packets
    slot : t.slot ≡ s.slot
    size : t.packets_per_datagram ≡ s.packets_per_datagram
    anchor : t.anchor ≡ s.anchor

  queue_content-deferred :
      (s : Scheduler F) (o : Option (Packet × Base))
      → let t = (queue_content (s, o)).0 in
        (length t.deferred ≡ length s.deferred + (if is_some o then 1 else 0))
        × (t.grid ≡ s.grid)
        × (t.last_pcr_index ≡ s.last_pcr_index)
        × (t.pcr_max_packets ≡ s.pcr_max_packets)
        × (t.slot ≡ s.slot)
        × (t.packets_per_datagram ≡ s.packets_per_datagram)
        × (t.anchor ≡ s.anchor)
  queue_content-deferred s none = (omega arith, refl, refl, refl, refl, refl, refl)
  queue_content-deferred s (some c) =
      (length-append s.deferred (c ∷ []), refl, refl, refl, refl, refl, refl)

  content_at-Admits :
      (s : Scheduler F) (o : Option StreamGrid) (w : Bool)
      → InOrder o
      → Admits s o (queue_content (content_at s o s.slot w)).0
  content_at-Admits s none w h = absurd h
  content_at-Admits s (some g) w h =
      let (due, late, placed, order) = take_lem g s.slot h in
      let all = take-conserves g s.slot h in
      let (sooner, moves) = taken_on g s.slot h in
      let (d, grid, last, limit, slot, size, anchor) =
        queue_content-deferred (content_at s (some g) s.slot w).0 (take g s.slot).1 in
      record {
        in_order = rw grid order;
        fewer = rw grid (omega (arith, d, all));
        kept = omega (arith, d);
        sooner = rw grid sooner;
        moves = rw grid moves;
        last = last;
        limit = limit;
        slot = slot;
        size = size;
        anchor = anchor;
      }

  admit-Admits :
      (s : Scheduler F) (w : Bool) → InOrder s.grid → Admits s s.grid (admit s s.slot w).0
  unfolding admit next_content
  admit-Admits s w h = content_at-Admits s s.grid w h

  -- What a slot does to what is held: a re-inserted PCR leaves it, anything else puts out the front.
  record Fills (s t : Scheduler F) (inserted : Option ℕ) (index : ℕ) : Type 0 where
    grid : t.grid ≡ s.grid
    limit : t.pcr_max_packets ≡ s.pcr_max_packets
    slot : t.slot ≡ s.slot
    size : t.packets_per_datagram ≡ s.packets_per_datagram
    anchor : t.anchor ≡ s.anchor
    held :
        length t.deferred ≡ (if is_some inserted then length s.deferred else length s.deferred - 1)
    marked : is_some inserted ≡ true → t.last_pcr_index ≡ some index

  written-keeps :
      (s : Scheduler F) (r : Option PcrRegen) (g : Option StreamGrid) (p : Packet) (b : Base)
      (i : ℕ)
      → let t = write_content s r g p b i in
        (t.grid ≡ s.grid)
        × (t.pcr_max_packets ≡ s.pcr_max_packets)
        × (t.slot ≡ s.slot)
        × (t.packets_per_datagram ≡ s.packets_per_datagram)
        × (t.deferred ≡ s.deferred)
        × (t.anchor ≡ s.anchor)
  unfolding write_content
  written-keeps s none g p b i = (refl, refl, refl, refl, refl, refl)
  written-keeps s (some r) none p b i = (refl, refl, refl, refl, refl, refl)
  written-keeps s (some r) (some g) p b i = (refl, refl, refl, refl, refl, refl)

  closed-keeps :
      (s : Scheduler F) (p : Packet) (i : ℕ) (send : Bool)
      → let t = close_content s p i send in
        (t.grid ≡ s.grid)
        × (t.pcr_max_packets ≡ s.pcr_max_packets)
        × (t.slot ≡ s.slot)
        × (t.packets_per_datagram ≡ s.packets_per_datagram)
        × (t.deferred ≡ s.deferred)
        × (t.anchor ≡ s.anchor)
  closed-keeps s p i true = (refl, refl, refl, refl, refl, refl)
  closed-keeps s p i false = (refl, refl, refl, refl, refl, refl)

  fill_slot-Fills :
      (s : Scheduler F) (o : Option ℕ) (q : List (Packet × Base)) (i : ℕ) (w a st : Bool)
      (d : Option Bool) (send : Bool)
      → q ≡ s.deferred
      → Fills s (fill_slot s o q i w a st d send) o i
  unfolding fill_slot emit_pcr emit_null emit_content open_content
  fill_slot-Fills s (some v) q i w a st d true e = record {
    grid = refl;
    limit = refl;
    slot = refl;
    size = refl;
    anchor = refl;
    held = refl;
    marked = λ h. refl;
  }
  fill_slot-Fills s (some v) q i w a st d false e = record {
    grid = refl;
    limit = refl;
    slot = refl;
    size = refl;
    anchor = refl;
    held = refl;
    marked = λ h. refl;
  }
  fill_slot-Fills s none [] i w a st d send e =
      let empty : length s.deferred ≡ 0 = ap length (sym e) in
      record {
        grid = refl;
        limit = refl;
        slot = refl;
        size = refl;
        anchor = refl;
        held = omega (arith, empty);
        marked = λ h. ground arith;
      }
  fill_slot-Fills s none ((p, b) ∷ rest) i w a st d send e =
      let o = open_content s p rest a d in
      let t = write_content o o.pcr_regen o.grid p b i in
      let (grid, limit, slot, size, held, anchor) = written-keeps o o.pcr_regen o.grid p b i in
      let (grid', limit', slot', size', held', anchor') = closed-keeps t p i send in
      let one : suc (length rest) ≡ length s.deferred = ap length e in
      record {
        grid = grid' ∙ grid;
        limit = limit' ∙ limit;
        slot = slot' ∙ slot;
        size = size' ∙ size;
        anchor = anchor' ∙ anchor;
        held = omega (arith, ap length (held' ∙ held), one);
        marked = λ h. ground arith;
      }
