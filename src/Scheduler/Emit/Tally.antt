-- ===== src/Scheduler/Emit/Tally.antt =====
-- Every slot of a datagram that is sent is counted once, as content, stuffing or a re-inserted PCR.
use mpegts_pacer.Prelude.{
  ℕ, zero, suc, ◌+◌, ◌≤◌, ◌<◌, ◌≡◌, refl, sym, ◌∙◌, Bool, true, false, Option, none, some, List, [],
  ◌∷◌, ltb, if◌then◌else◌, arith, u64_max, Bool-cases, ◌⊎◌, inl, inr,
}
use mpegts_pacer.Packet.{Packet}
use mpegts_pacer.Pcr.Regen.{PcrRegen}
use mpegts_pacer.Grid.{StreamGrid, Base}
use mpegts_pacer.Scheduler.{Scheduler}
use mpegts_pacer.Scheduler.Emit.{
  content_at, next_content, open_content, close_content, queue_content, admit, write_content,
  fill_slot, emit_pcr, emit_content, emit_null, next_slot, emit_slot, emit_slots, reinsert_pcr,
  fill_datagram, determined_for, known_false, may_send, withhold,
}

module _ {F : Type 0} where
  -- The packets counted by what they carried.
  abbrev pub tally : Scheduler F → ℕ
  tally s = s.stats.content_packets + s.stats.null_packets + s.stats.pcr_inserted

  -- The counters and the position that every slot moves, unchanged.
  abbrev pub Same : Scheduler F → Scheduler F → Type 0
  Same s t =
      (t.stats.output_packets ≡ s.stats.output_packets)
      × (t.slot ≡ s.slot)
      × (t.stats.content_packets ≡ s.stats.content_packets)
      × (t.stats.null_packets ≡ s.stats.null_packets)
      × (t.stats.pcr_inserted ≡ s.stats.pcr_inserted)
      × (t.stats.withheld_packets ≡ s.stats.withheld_packets)
      × (t.packets_per_datagram ≡ s.packets_per_datagram)

  content_at-Same :
      (s : Scheduler F) (g : Option StreamGrid) (i : ℕ) (w : Bool) → Same s (content_at s g i w).0
  content_at-Same s none i true = (refl, refl, refl, refl, refl, refl, refl)
  content_at-Same s none i false = (refl, refl, refl, refl, refl, refl, refl)
  content_at-Same s (some g) i w = (refl, refl, refl, refl, refl, refl, refl)

  queue_content-Same :
      (s t : Scheduler F) (o : Option (Packet × Base)) → Same s t → Same s (queue_content (t, o)).0
  queue_content-Same s t none h = h
  queue_content-Same s t (some c) h = h

  pub admit-Same : (s : Scheduler F) (i : ℕ) (w : Bool) → Same s (admit s i w).0
  unfolding admit next_content
  admit-Same s i w =
      queue_content-Same s (next_content s i w).0 (next_content s i w).1
        (content_at-Same s s.grid i w)

  pub open_content-Same :
      (s : Scheduler F) (p : Packet) (q : List (Packet × Base)) (a : Bool) (d : Option Bool)
      → Same s (open_content s p q a d)
  unfolding open_content
  open_content-Same s p q a d = (refl, refl, refl, refl, refl, refl, refl)

  pub write_content-Same :
      (s : Scheduler F) (r : Option PcrRegen) (g : Option StreamGrid) (p : Packet) (b : Base)
      (i : ℕ)
      → Same s (write_content s r g p b i)
  unfolding write_content
  write_content-Same s none g p b i = (refl, refl, refl, refl, refl, refl, refl)
  write_content-Same s (some r) none p b i = (refl, refl, refl, refl, refl, refl, refl)
  write_content-Same s (some r) (some g) p b i = (refl, refl, refl, refl, refl, refl, refl)

  pub Same-trans : (s t u : Scheduler F) → Same s t → Same t u → Same s u
  Same-trans s t u (a, b, c, d, e, k, l) (a', b', c', d', e', k', l') =
      (a' ∙ a, b' ∙ b, c' ∙ c, d' ∙ d, e' ∙ e, k' ∙ k, l' ∙ l)

  -- One packet counted, if it is sent, and nothing else moved.
  abbrev pub Counted : Scheduler F → Scheduler F → Bool → Type 0
  Counted s t send =
      (tally t ≡ tally s + (if send then 1 else 0))
      × (t.stats.output_packets ≡ s.stats.output_packets)
      × (t.slot ≡ s.slot)
      × (t.stats.withheld_packets ≡ s.stats.withheld_packets)
      × (t.packets_per_datagram ≡ s.packets_per_datagram)

  Counted-Same :
      (s t u : Scheduler F) (send : Bool) → Same s t → Counted t u send → Counted s u send
  Counted-Same s t u true (a, b, c, d, e, k, l) (x, y, z, k', l') =
      (omega arith, y ∙ a, z ∙ b, k' ∙ k, l' ∙ l)
  Counted-Same s t u false (a, b, c, d, e, k, l) (x, y, z, k', l') =
      (omega arith, y ∙ a, z ∙ b, k' ∙ k, l' ∙ l)

  close_content-Counted :
      (t : Scheduler F) (p : Packet) (i : ℕ) (send : Bool)
      → tally t < u64_max
      → Counted t (close_content t p i send) send
  close_content-Counted t p i true h = (omega arith, refl, refl, refl, refl)
  close_content-Counted t p i false h = (omega arith, refl, refl, refl, refl)

  -- What takes the slot is counted once, if the datagram is sent.
  pub fill_slot-Counted :
      (s : Scheduler F) (o : Option ℕ) (q : List (Packet × Base)) (i : ℕ) (w a st : Bool)
      (d : Option Bool) (send : Bool)
      → tally s < u64_max
      → Counted s (fill_slot s o q i w a st d send) send
  unfolding fill_slot emit_pcr emit_null emit_content
  fill_slot-Counted s (some v) q i w a st d true h = (omega arith, refl, refl, refl, refl)
  fill_slot-Counted s (some v) q i w a st d false h = (omega arith, refl, refl, refl, refl)
  fill_slot-Counted s none [] i w a st d true h = (omega arith, refl, refl, refl, refl)
  fill_slot-Counted s none [] i w a st d false h = (omega arith, refl, refl, refl, refl)
  fill_slot-Counted s none ((p, b) ∷ rest) i w a st d send h =
      let o = open_content s p rest a d in
      let t = write_content o o.pcr_regen o.grid p b i in
      let e : Same s t =
        Same-trans s o t (open_content-Same s p rest a d)
          (write_content-Same o o.pcr_regen o.grid p b i) in
      Counted-Same s t (close_content t p i send) send e
        (close_content-Counted t p i send (tally-Same s t e h))
    where
      tally-Same : (s t : Scheduler F) → Same s t → tally s < u64_max → tally t < u64_max
      tally-Same s t (a, b, c, d, e, k, l) h = omega arith

  -- One round of the loop: the position moves by one slot, and a slot that is sent is counted once
  -- as output and once by what it carried.
  abbrev pub Advanced : Scheduler F → Scheduler F → ℕ → Bool → Type 0
  Advanced s t n send =
      (t.slot ≡ s.slot + n)
      × (t.stats.output_packets ≡ s.stats.output_packets + (if send then n else 0))
      × (tally t ≡ tally s + (if send then n else 0))
      × (t.stats.withheld_packets ≡ s.stats.withheld_packets)
      × (t.packets_per_datagram ≡ s.packets_per_datagram)

  -- No counter of the state is near the end of its word for `n` more packets.
  abbrev pub Room : Scheduler F → ℕ → Type 0
  Room s n =
      (s.slot + n ≤ u64_max) × (s.stats.output_packets + n ≤ u64_max) × (tally s + n ≤ u64_max)

  next_slot-Advanced :
      (s t : Scheduler F) (n : ℕ) (send : Bool)
      → Room s (suc n)
      → Counted s t send
      → Advanced s (next_slot t send) 1 send
  next_slot-Advanced s t n true (r, o, k) (x, y, z, v, w) =
      (omega arith, omega arith, omega arith, v, w)
  next_slot-Advanced s t n false (r, o, k) (x, y, z, v, w) =
      (omega arith, y ∙ omega arith, omega arith, v, w)

  pub emit_slot-Advanced :
      (s : Scheduler F) (due : ℕ) (st : Bool) (d : Option Bool) (send : Bool) (n : ℕ)
      → Room s (suc n)
      → Advanced s (emit_slot s due st d send) 1 send
  unfolding emit_slot
  emit_slot-Advanced s due st d send n room =
      let i = s.slot in
      let w = ltb s.media.released due in
      let t = (admit s i w).0 in
      let a = (admit s i w).1 in
      let e : Same s t = admit-Same s i w in
      let u = fill_slot t (reinsert_pcr t i st) t.deferred i w a st d send in
      next_slot-Advanced s u n send room (
        Counted-Same s t u send e (
          fill_slot-Counted t (reinsert_pcr t i st) t.deferred i w a st d send
            (small s t n room e)))
    where
      small : (s t : Scheduler F) (n : ℕ) → Room s (suc n) → Same s t → tally t < u64_max
      small s t n (r, o, k) (a, b, c, d, e, l, m) = omega arith

  pub emit_slots-Advanced :
      (n : ℕ) (s : Scheduler F) (due : ℕ) (st : Bool) (d : Option Bool) (send : Bool)
      → Room s n
      → Advanced s (emit_slots n s due st d send) n send
  unfolding emit_slots
  emit_slots-Advanced zero s due st d true room =
      (omega arith, omega arith, omega arith, refl, refl)
  emit_slots-Advanced zero s due st d false room =
      (omega arith, omega arith, omega arith, refl, refl)
  emit_slots-Advanced (suc n) s due st d send room =
      let t = emit_slot s due st d send in
      let one : Advanced s t 1 send = emit_slot-Advanced s due st d send n room in
      chain s t (emit_slots n t due st d send) n send room one
        (emit_slots-Advanced n t due st d send (left s t n send room one))
    where
      left :
          (s t : Scheduler F) (n : ℕ) (send : Bool)
          → Room s (suc n)
          → Advanced s t 1 send
          → Room t n
      left s t n true (r, o, k) (x, y, z, v, w) = (omega arith, omega arith, omega arith)
      left s t n false (r, o, k) (x, y, z, v, w) = (omega arith, omega arith, omega arith)

      chain :
          (s t u : Scheduler F) (n : ℕ) (send : Bool)
          → Room s (suc n)
          → Advanced s t 1 send
          → Advanced t u n send
          → Advanced s u (suc n) send
      chain s t u n true r (a, b, c, k, l) (x, y, z, k', l') =
          (omega arith, omega arith, omega arith, k' ∙ k, l' ∙ l)
      chain s t u n false r (a, b, c, k, l) (x, y, z, k', l') =
          (omega arith, omega arith, omega arith, k' ∙ k, l' ∙ l)

  -- A datagram of `n` packets is done: the position has moved by them, every packet that was output
  -- is counted by what it carried, and the packets were output or withheld all together.
  abbrev pub Settled : Scheduler F → Scheduler F → ℕ → Type 0
  Settled s t n =
      (t.slot ≡ s.slot + n)
      × (t.stats.output_packets ≡ tally t)
      × (t.stats.output_packets + t.stats.withheld_packets
          ≡ s.stats.output_packets + s.stats.withheld_packets + n)
      × ((t.stats.output_packets ≡ s.stats.output_packets + n)
          ⊎ (t.stats.withheld_packets ≡ s.stats.withheld_packets + n) × (t.scratch ≡ []))

  -- The state after the loop, and the datagram sent or withheld.
  close :
      (s t : Scheduler F) (n : ℕ) (send : Bool)
      → (n ≡ s.packets_per_datagram)
      → s.stats.withheld_packets + n ≤ u64_max
      → s.stats.output_packets ≡ tally s
      → Advanced s t n send
      → Settled s (withhold t send) n
  close s t n true e wide even (a, b, c, d, f) = (a, omega arith, omega arith, inl b)
  close s t n false e wide even (a, b, c, d, f) =
      let g : t.packets_per_datagram ≡ n = f ∙ sym e in
      (a, omega arith, omega arith, inr (omega arith, refl))

  -- A datagram moves the position by its packets; its packets are output or withheld, all together,
  -- and each one that is output is counted as content, stuffing or a re-inserted PCR, from a state
  -- whose counters have room for one more datagram.
  pub fill_datagram-counts :
      (s : Scheduler F) (due : ℕ) (st : Bool)
      → Room s s.packets_per_datagram
      → s.stats.withheld_packets + s.packets_per_datagram ≤ u64_max
      → s.stats.output_packets ≡ tally s
      → Settled s (fill_datagram s due st) s.packets_per_datagram
  unfolding fill_datagram
  fill_datagram-counts s due st room wide even =
      let known = determined_for s s.grid st in
      let n = s.packets_per_datagram in
      let muted = record s { phased = false } in
      elim (Bool-cases (known_false known)) [
        | inl e ↦ rw e (
            close s (emit_slots n muted due st known (may_send known false)) n
              (may_send known false) refl wide even
              (emit_slots-Advanced n muted due st known (may_send known false) room))
        | inr e ↦ rw e (
            close s (emit_slots n s due st known (may_send known s.phased)) n
              (may_send known s.phased) refl wide even
              (emit_slots-Advanced n s due st known (may_send known s.phased) room))
      ]
