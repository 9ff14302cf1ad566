-- ===== src/Scheduler/Emit/Ledger.antt =====
-- src/scheduler.rs, the loop of `emit_datagram`: no content leaves a leg uncounted.
use mpegts_pacer.Prelude.{
  ℕ, zero, suc, ◌+◌, ◌≤◌, ◌≡◌, refl, ap, ◌∙◌, Bool, true, false, Option, none, some, List, [], ◌∷◌,
  length, length-append, ltb, if◌then◌else◌, is_some, first?, tail, u64_max, arith,
}
use mpegts_pacer.Packet.{Packet}
use mpegts_pacer.Pcr.Regen.{PcrRegen}
use mpegts_pacer.Jitter
use mpegts_pacer.Grid.{StreamGrid, Base, take}
use mpegts_pacer.Grid.Take.{Ordered, take_lem, take-conserves}
use mpegts_pacer.Scheduler.{Scheduler}
use mpegts_pacer.Scheduler.Enqueue.Ledger.{account}
use mpegts_pacer.Scheduler.Emit.{
  with_base, content_at, next_content, queue_content, admit, reinsert_pcr, emit_pcr, emit_null,
  write_content, open_content, emit_content, fill_slot, emit_slot, emit_slots,
}

abbrev pub PlacedInOrder : Option StreamGrid → Type 0
PlacedInOrder none = Unit {0}
PlacedInOrder (some g) = Ordered 0 g.placed g.next_free

abbrev one_if : {A : Type 0} → Option A → ℕ
one_if none = 0
one_if (some a) = 1

one_if-is_some : {A : Type 0} (o : Option A) → (if is_some o then 1 else 0) ≡ one_if o
one_if-is_some none = refl
one_if-is_some (some a) = refl

pop-counts :
    (queue : List Packet) → length (tail queue) + one_if (with_base (first? queue)) ≡ length queue
pop-counts [] = refl
pop-counts (p ∷ rest) = omega arith

take-beside :
    (g : StreamGrid) (slot : ℕ)
    → (length (take g slot).0.run ≡ length g.run) × ((take g slot).0.cut ≡ g.cut)
unfolding take
take-beside g slot = (refl, refl)

module _ {F : Type 0} where
  -- The account of a leg with the content that went out or missed its slot.
  abbrev pub ledger : Scheduler F → ℕ
  ledger s = account s + s.stats.late_drops + s.stats.content_packets

  -- As much in the books, and what is placed in order.
  abbrev Balances : Scheduler F → Scheduler F → Type 0
  Balances s t = (ledger t ≡ ledger s) × PlacedInOrder t.grid

  queue_content-ledger :
      (s : Scheduler F) (o : Option (Packet × Base))
      → (ledger (queue_content (s, o)).0 ≡ ledger s + one_if o)
        × ((queue_content (s, o)).0.grid ≡ s.grid)
  queue_content-ledger s none = (omega arith, refl)
  queue_content-ledger s (some c) = (omega (arith, length-append s.deferred (c ∷ [])), refl)

  content_at-ledger :
      (s : Scheduler F) (o : Option StreamGrid) (i : ℕ) (w : Bool)
      → s.grid ≡ o
      → PlacedInOrder o
      → ledger s ≤ u64_max
      → let (t, c) = content_at s o i w in (ledger t + one_if c ≡ ledger s) × PlacedInOrder t.grid
  unfolding Jitter.pop Jitter.len
  content_at-ledger s none i true e v room =
      (rw e (omega (arith, pop-counts s.buffer.queue)), rw e tt)
  content_at-ledger s none i false e v room = (omega arith, rw e tt)
  content_at-ledger s (some g) i w e v room =
      let (due, late, placed, order) = take_lem g i v in
      let (run, cut) = take-beside g i in
      let before : ledger s
          ≡ length g.placed
            + length g.run
            + length s.deferred
            + s.stats.dropped_packets
            + g.cut
            + s.stats.late_drops
            + s.stats.content_packets =
        rw e refl in
      (
        omega (arith, before, take-conserves g i v, one_if-is_some (take g i).1, run, cut, room),
        order,
      )

  admit-Balances :
      (s : Scheduler F) (i : ℕ) (w : Bool)
      → PlacedInOrder s.grid
      → ledger s ≤ u64_max
      → Balances s (admit s i w).0
  unfolding admit next_content
  admit-Balances s i w v room =
      let (t, c) = content_at s s.grid i w in
      let (counts, order) = content_at-ledger s s.grid i w refl v room in
      let (counts', grid) = queue_content-ledger t c in
      (omega (arith, counts, counts'), rw grid order)

  written-ledger :
      (s : Scheduler F) (r : Option PcrRegen) (g : Option StreamGrid) (p : Packet) (b : Base)
      (i : ℕ)
      → let t = write_content s r g p b i in
        (ledger t ≡ ledger s)
        × (t.grid ≡ s.grid)
        × (t.stats.content_packets ≡ s.stats.content_packets)
  unfolding write_content
  written-ledger s none g p b i = (refl, refl, refl)
  written-ledger s (some r) none p b i = (refl, refl, refl)
  written-ledger s (some r) (some g) p b i = (refl, refl, refl)

  fill_slot-Balances :
      (s : Scheduler F) (o : Option ℕ) (q : List (Packet × Base)) (i : ℕ) (w a st : Bool)
      (d : Option Bool)
      → q ≡ s.deferred
      → PlacedInOrder s.grid
      → ledger s ≤ u64_max
      → Balances s (fill_slot s o q i w a st d true)
  unfolding fill_slot emit_pcr emit_null emit_content open_content
  fill_slot-Balances s (some value) q i w a st d e v room = (refl, v)
  fill_slot-Balances s none [] i w a st d e v room = (refl, v)
  fill_slot-Balances s none ((p, b) ∷ rest) i w a st d e v room =
      let o = open_content s p rest a d in
      let (same, grid, count) = written-ledger o o.pcr_regen o.grid p b i in
      let one : suc (length rest) ≡ length s.deferred = ap length e in
      (omega (arith, same, count, one, room), rw grid v)

  emit_slot-Balances :
      (s : Scheduler F) (due : ℕ) (st : Bool) (d : Option Bool)
      → PlacedInOrder s.grid
      → ledger s ≤ u64_max
      → Balances s (emit_slot s due st d true)
  unfolding emit_slot
  emit_slot-Balances s due st d v room =
      let w = ltb s.media.released due in
      let (t, admitted) = admit s s.slot w in
      let (same, order) = admit-Balances s s.slot w v room in
      let (same', order') =
        fill_slot-Balances t (reinsert_pcr t s.slot st) t.deferred s.slot w admitted st d refl order
          (omega (arith, same, room)) in
      (same' ∙ same, order')

  -- In the slots of a datagram that is sent, however many, every content packet is still held, or is
  -- counted: as sent, or as too late for its slot. The placed packets are in order, and the counts
  -- together fit 64 bits.
  pub emit_slots-ledger :
      (n : ℕ) (s : Scheduler F) (due : ℕ) (st : Bool) (d : Option Bool)
      → PlacedInOrder s.grid
      → ledger s ≤ u64_max
      → ledger (emit_slots n s due st d true) ≡ ledger s
  unfolding emit_slots
  emit_slots-ledger zero s due st d v room = refl
  emit_slots-ledger (suc n) s due st d v room =
      let (same, order) = emit_slot-Balances s due st d v room in
      emit_slots-ledger n (emit_slot s due st d true) due st d order (omega (arith, same, room))
      ∙ same
