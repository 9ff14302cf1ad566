-- ===== src/Scheduler/Emit/Whole.antt =====
-- src/scheduler.rs, `emit_datagram`: what goes out is whole packets.
pub mod Datagram
use mpegts_pacer.Prelude.{
  ℕ, zero, suc, ◌+◌, ◌-◌, ◌%◌, ◌≡◌, refl, sym, ap, ◌∙◌, ◌⊎◌, inl, inr, Bool, true, false, ◌&&◌,
  ◌||◌, not, Option, none, some, List, [], ◌∷◌, ◌++◌, append-nil, append_assoc, length, ltb, leb,
  if◌then◌else◌, is_none, is_some, sat_add, max, All, tail, first?, Bool-cases, unwrap_or,
}
use mpegts_pacer.Prelude.Int.{ℤ}
use mpegts_pacer.Float.{Float, as_secs}
use mpegts_pacer.Pcr.{set_discontinuity_indicator}
use mpegts_pacer.Pcr.Regen.{PcrRegen, rewrite, rewrite_absolute}
use mpegts_pacer.Packet.{Packet, has_pcr, pcr_only_packet}
use mpegts_pacer.Packet.Whole.{
  IsWhole, pcr_only_packet-IsWhole, indicator-IsWhole, rewrite-IsWhole, rewrite_absolute-IsWhole,
}
use mpegts_pacer.Source.{split_packets}
use mpegts_pacer.Source.Split.{IsPacket, on_wire, split_packets-on_wire}
use mpegts_pacer.Jitter
use mpegts_pacer.Media
use mpegts_pacer.Grid.{StreamGrid, Base, Taken, take, take_from, pass_bases, pcr_on}
use mpegts_pacer.Grid.Whole.{AllPlaced, Holds}
use mpegts_pacer.Scheduler.{Scheduler, state, silent_for, millis}
use mpegts_pacer.Scheduler.Liveness.{observe_state, note_content_gap, counted_stall, is_stalled}
use mpegts_pacer.Scheduler.Emit.{
  edge_of, catch_up_to, catch_up, content_at, next_content, queue_content, admit, reinsert_pcr,
  emit_pcr, count_inserted, write_on_grid, write_byte_locked, write_content, open_content,
  close_content, emit_content, emit_null, fill_slot, next_slot, emit_slot, emit_slots,
  determined_for, known_false, may_send, withhold, fill_datagram, emit_datagram, with_base,
}

abbrev pub AllQueued : List (Packet × Base) → Type 0
AllQueued queue = All (λ c. IsPacket c.0) queue

abbrev pub OnGrid : Option StreamGrid → Type 0
OnGrid none = Unit {0}
OnGrid (some g) = Holds IsPacket g

abbrev Given : Option (Packet × Base) → Type 0
Given none = Unit {0}
Given (some c) = IsPacket c.0

take_from-Given :
    (placed : List (ℕ × Packet)) (bases : List (ℕ × ℤ)) (taken : ℤ) (slot late : ℕ)
    → AllPlaced IsPacket placed
    → let t = take_from placed bases taken slot late in AllPlaced IsPacket t.placed × Given t.due
unfolding take_from
take_from-Given [] bases taken slot late v = (tt, tt)
take_from-Given ((s, p) ∷ rest) bases taken slot late (v, vs) =
    let later =
      take_from-Given rest (pass_bases bases taken false s).2 (pass_bases bases taken false s).0
        slot (late + 1) vs in
    elim (Bool-cases (ltb slot s)) [
      | inl a ↦ rw a ((v, vs), tt)
      | inr a ↦ elim (Bool-cases (ltb s slot)) [
        | inl b ↦ rw (a, b) later
        | inr b ↦ rw (a, b) (vs, v)
      ]
    ]

pop-Given :
    (queue : List Packet)
    → All IsPacket queue
    → All IsPacket (tail queue) × Given (with_base (first? queue))
pop-Given [] v = (tt, tt)
pop-Given (p ∷ rest) (v, vs) = (vs, v)

AllQueued-append :
    (queue : List (Packet × Base)) (c : Packet × Base)
    → AllQueued queue
    → IsPacket c.0
    → AllQueued (queue ++ (c ∷ []))
AllQueued-append [] c v w = (w, tt)
AllQueued-append (x ∷ queue) c (v, vs) w = (v, AllQueued-append queue c vs w)

marked-IsWhole :
    (b : Bool) (p : List ℕ)
    → IsWhole p
    → IsWhole (if b then (set_discontinuity_indicator p).0 else p)
marked-IsWhole true p w = indicator-IsWhole p w
marked-IsWhole false p w = w

module _ {F : Type 0} where
  -- All that a leg may put out is packets.
  abbrev pub IsSound : Scheduler F → Type 0
  IsSound s = IsWhole s.null × AllQueued s.deferred × OnGrid s.grid × All IsPacket s.buffer.queue

  -- A move that keeps all packets whole, the size of a datagram and the bytes written.
  abbrev pub Keeps : Scheduler F → Scheduler F → Type 0
  Keeps s t =
      IsSound t × (t.packets_per_datagram ≡ s.packets_per_datagram) × (t.scratch ≡ s.scratch)

  -- A slot's packet behind what is there.
  abbrev Appends : Scheduler F → Scheduler F → Type 0
  Appends s t =
      IsSound t
      × (t.packets_per_datagram ≡ s.packets_per_datagram)
      × (p : Packet) × IsPacket p
      × (t.scratch ≡ s.scratch ++ p.bytes)

  queue_content-Keeps :
      (s : Scheduler F) (o : Option (Packet × Base))
      → IsSound s
      → Given o
      → Keeps s (queue_content (s, o)).0
  queue_content-Keeps s none v w = (v, refl, refl)
  queue_content-Keeps s (some c) (null, queued, grid, buffer) w =
      ((null, AllQueued-append s.deferred c queued w, grid, buffer), refl, refl)

  content_at-Keeps :
      (s : Scheduler F) (o : Option StreamGrid) (i : ℕ) (w : Bool)
      → IsSound s
      → s.grid ≡ o
      → let t = content_at s o i w in Keeps s t.0 × Given t.1
  unfolding Jitter.pop take
  content_at-Keeps s none i true (null, queued, grid, buffer) e =
      let (rest, first) = pop-Given s.buffer.queue buffer in
      (((null, queued, grid, rest), refl, refl), first)
  content_at-Keeps s none i false v e = ((v, refl, refl), tt)
  content_at-Keeps s (some g) i w (null, queued, grid, buffer) e =
      let (run, placed) = rw e at grid in
      let (left, due) = take_from-Given g.placed g.bases g.taken_base i 0 placed in
      (((null, queued, (run, left), buffer), refl, refl), due)

  admit-Keeps : (s : Scheduler F) (i : ℕ) (w : Bool) → IsSound s → Keeps s (admit s i w).0
  unfolding admit next_content
  admit-Keeps s i w v =
      let c = content_at s s.grid i w in
      let ((sound, size, same), given) = content_at-Keeps s s.grid i w v refl in
      let (sound', size', same') = queue_content-Keeps c.0 c.1 sound given in
      (sound', size' ∙ size, same' ∙ same)

  emit_pcr-Appends :
      (s : Scheduler F) (i value : ℕ) (send : Bool)
      → IsSound s
      → Appends s (emit_pcr s i value send)
  unfolding emit_pcr
  emit_pcr-Appends s i value send v =
      let p : Packet = record {
        bytes = pcr_only_packet (unwrap_or s.pcr_pid 0) s.pcr_pid_cc value;
      } in
      counted send (record s { scratch = s.scratch ++ p.bytes; last_pcr_index = some i })
        (v, refl, p, pcr_only_packet-IsWhole (unwrap_or s.pcr_pid 0) s.pcr_pid_cc value, refl)
    where
      counted : (send : Bool) (t : Scheduler F) → Appends s t → Appends s (count_inserted t send)
      counted true t a = a
      counted false t a = a

  write_content-Appends :
      (s : Scheduler F) (r : Option PcrRegen) (g : Option StreamGrid) (p : Packet) (b : Base)
      (i : ℕ)
      → IsSound s
      → IsPacket p
      → Appends s (write_content s r g p b i)
  unfolding write_content
  write_content-Appends s none g p b i v w = (v, refl, p, w, refl)
  write_content-Appends s (some r) (some g) p b i v w =
      let bytes = (rewrite_absolute r p.bytes (pcr_on g i b.offset)).1 in
      let marked = if has_pcr p && b.starts then (set_discontinuity_indicator bytes).0 else bytes in
      (
        v,
        refl,
        record { bytes = marked },
        marked-IsWhole (has_pcr p && b.starts) bytes
            (rewrite_absolute-IsWhole r p.bytes (pcr_on g i b.offset) w),
        refl,
      )
  write_content-Appends s (some r) none p b i v w =
      (v, refl, record { bytes = (rewrite r p.bytes i).1 }, rewrite-IsWhole r p.bytes i w, refl)

  close_content-Appends :
      (s t : Scheduler F) (p : Packet) (i : ℕ) (send : Bool)
      → Appends s t
      → Appends s (close_content t p i send)
  close_content-Appends s t p i true a = a
  close_content-Appends s t p i false a = a

  fill_slot-Appends :
      (s : Scheduler F) (o : Option ℕ) (q : List (Packet × Base)) (i : ℕ) (w a st : Bool)
      (d : Option Bool) (send : Bool)
      → IsSound s
      → AllQueued q
      → Appends s (fill_slot s o q i w a st d send)
  unfolding fill_slot emit_null emit_content open_content
  fill_slot-Appends s (some value) q i w a st d send v vs = emit_pcr-Appends s i value send v
  fill_slot-Appends s none [] i w a st d send v vs = (v, refl, record { bytes = s.null }, v.0, refl)
  fill_slot-Appends s none ((p, b) ∷ rest) i w a st d send (null, queued, grid, buffer) (v, vs) =
      let o = open_content s p rest a d in
      close_content-Appends s (write_content o o.pcr_regen o.grid p b i) p i send
        (write_content-Appends o o.pcr_regen o.grid p b i (null, vs, grid, buffer) v)

  emit_slot-Appends :
      (s : Scheduler F) (due : ℕ) (st : Bool) (d : Option Bool) (send : Bool)
      → IsSound s
      → Appends s (emit_slot s due st d send)
  unfolding emit_slot
  emit_slot-Appends s due st d send v =
      let w = ltb s.media.released due in
      let t = (admit s s.slot w).0 in
      let (sound, size, same) = admit-Keeps s s.slot w v in
      let (after, size', p, is, e) =
        fill_slot-Appends t (reinsert_pcr t s.slot st) t.deferred s.slot w (admit s s.slot w).1 st d
          send sound sound.1 in
      (after, size' ∙ size, p, is, e ∙ ap (λ b. b ++ p.bytes) same)

  -- Packets behind what is there, as many as slots.
  abbrev pub AppendsAll : Scheduler F → Scheduler F → ℕ → Type 0
  AppendsAll s t n =
      IsSound t
      × (t.packets_per_datagram ≡ s.packets_per_datagram)
      × (ps : List Packet) × (length ps ≡ n)
      × All IsPacket ps
      × (t.scratch ≡ s.scratch ++ on_wire ps)

  pub emit_slots-AppendsAll :
      (n : ℕ) (s : Scheduler F) (due : ℕ) (st : Bool) (d : Option Bool) (send : Bool)
      → IsSound s
      → AppendsAll s (emit_slots n s due st d send) n
  unfolding emit_slots
  emit_slots-AppendsAll zero s due st d send v = (v, refl, [], refl, tt, sym (append-nil s.scratch))
  emit_slots-AppendsAll (suc n) s due st d send v =
      let (sound, size, p, is, e) = emit_slot-Appends s due st d send v in
      let (after, size', ps, count, all, e') =
        emit_slots-AppendsAll n (emit_slot s due st d send) due st d send sound in
      (
        after,
        size' ∙ size,
        p ∷ ps,
        ap suc count,
        (is, all),
        e' ∙ ap (λ b. b ++ on_wire ps) e ∙ append_assoc s.scratch p.bytes (on_wire ps),
      )
