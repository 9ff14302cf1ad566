-- ===== src/Scheduler/Emit/Output.antt =====
-- src/scheduler.rs, `emit_datagram`: what the output counter says of the datagram.
use mpegts_pacer.Prelude.{
  ℕ, zero, suc, ◌-◌, ◌%◌, ◌≤◌, ◌≡◌, refl, ◌∙◌, ap, ◌⊎◌, inl, inr, Bool, true, false, ◌||◌, Option,
  none, some, List, [], ◌∷◌, length, All, ◌++◌, sym, leb, ltb, if◌then◌else◌, arith, is_none,
  sat_add, u64_max,
}
use mpegts_pacer.Float.{Float, as_secs}
use mpegts_pacer.Packet.{Packet}
use mpegts_pacer.Source.Split.{IsPacket, on_wire}
use mpegts_pacer.Jitter
use mpegts_pacer.Media
use mpegts_pacer.Grid.{Base}
use mpegts_pacer.Scheduler.{Scheduler, state}
use mpegts_pacer.Scheduler.Liveness.{
  advance_muted, observe_state, note_content_gap, counted_stall, is_stalled,
}
use mpegts_pacer.Scheduler.Emit.{
  admit, write_content, close_content, open_content, fill_slot, emit_pcr, emit_content, emit_null,
  emit_slot, emit_slots, reinsert_pcr, fill_datagram, determined_for, known_false, may_send,
  withhold, catch_up_to, catch_up, edge_of, emit_datagram, jump_to,
}
use mpegts_pacer.Scheduler.Emit.Tally.{
  admit-Same, open_content-Same, write_content-Same, Same-trans,
}
use mpegts_pacer.Scheduler.Emit.Whole.{IsSound, emit_slots-AppendsAll}
use mpegts_pacer.Scheduler.Emit.Whole.Datagram.{catch_up_to-Keeps, observe_state-Keeps}

module _ {F : Type 0} where
  abbrev pub output : Scheduler F → ℕ
  output s = s.stats.output_packets

  -- The output counter and the size of a datagram are as they were.
  abbrev pub Mute : Scheduler F → Scheduler F → Type 0
  Mute s t = (output t ≡ output s) × (t.packets_per_datagram ≡ s.packets_per_datagram)

  pub either-Mute :
      (b : Bool) (s t u : Scheduler F) → Mute s t → Mute s u → Mute s (if b then t else u)
  either-Mute true s t u v w = v
  either-Mute false s t u v w = w

  pub then-Mute : (s t u : Scheduler F) → Mute s t → Mute t u → Mute s u
  then-Mute s t u (a, b) (a', b') = (a' ∙ a, b' ∙ b)

  close_content-Mute :
      (t : Scheduler F) (p : Packet) (i : ℕ) (send : Bool) → Mute t (close_content t p i send)
  close_content-Mute t p i true = (refl, refl)
  close_content-Mute t p i false = (refl, refl)

  -- What takes a slot does not count it as output.
  fill_slot-Mute :
      (s : Scheduler F) (o : Option ℕ) (q : List (Packet × Base)) (i : ℕ) (w a st : Bool)
      (d : Option Bool) (send : Bool)
      → Mute s (fill_slot s o q i w a st d send)
  unfolding fill_slot emit_pcr emit_null emit_content
  fill_slot-Mute s (some v) q i w a st d true = (refl, refl)
  fill_slot-Mute s (some v) q i w a st d false = (refl, refl)
  fill_slot-Mute s none [] i w a st d send = (refl, refl)
  fill_slot-Mute s none ((p, b) ∷ rest) i w a st d send =
      let o = open_content s p rest a d in
      let t = write_content o o.pcr_regen o.grid p b i in
      let (count, _, _, _, _, _, size) =
        Same-trans s o t (open_content-Same s p rest a d)
          (write_content-Same o o.pcr_regen o.grid p b i) in
      then-Mute s t (close_content t p i send) (count, size) (close_content-Mute t p i send)

  -- `n` packets more, if they are sent.
  abbrev Grows : Scheduler F → Scheduler F → ℕ → Bool → Type 0
  Grows s t n send = output t ≡ (if send then sat_add (output s) n else output s)

  emit_slot-Grows :
      (s : Scheduler F) (due : ℕ) (st : Bool) (d : Option Bool) (send : Bool)
      → Grows s (emit_slot s due st d send) 1 send
  unfolding emit_slot
  emit_slot-Grows s due st d send =
      let i = s.slot in
      let w = ltb s.media.released due in
      let (t, a) = admit s i w in
      let filled = fill_slot-Mute t (reinsert_pcr t i st) t.deferred i w a st d send in
      let same = filled.0 ∙ (admit-Same s i w).0 in by_send send _ same
    where
      by_send :
          (b : Bool) (x : ℕ)
          → x ≡ output s
          → (if b then sat_add x 1 else x) ≡ (if b then sat_add (output s) 1 else output s)
      by_send true x e = ap (λ y. sat_add y 1) e
      by_send false x e = e

  emit_slots-Grows :
      (n : ℕ) (s : Scheduler F) (due : ℕ) (st : Bool) (d : Option Bool) (send : Bool)
      → output s ≤ u64_max
      → Grows s (emit_slots n s due st d send) n send
  unfolding emit_slots
  emit_slots-Grows zero s due st d true h = omega arith
  emit_slots-Grows zero s due st d false h = refl
  emit_slots-Grows (suc n) s due st d true h =
      let one = emit_slot-Grows s due st d true in
      let rest =
        emit_slots-Grows n (emit_slot s due st d true) due st d true (omega (arith, one)) in
      omega (arith, one, rest)
  emit_slots-Grows (suc n) s due st d false h =
      let one = emit_slot-Grows s due st d false in
      let rest =
        emit_slots-Grows n (emit_slot s due st d false) due st d false (omega (arith, one, h)) in
      omega (arith, one, rest)

  -- A datagram is nothing, and not counted, or `n` packets, and counted.
  abbrev pub Tells : Scheduler F → Scheduler F → ℕ → Type 0
  Tells s t n =
      ((t.scratch ≡ []) × (output t ≡ output s))
      ⊎ ((ps : List Packet) × (length ps ≡ n)
          × All IsPacket ps
          × (t.scratch ≡ on_wire ps)
          × (output t ≡ sat_add (output s) n))

  withheld-Tells :
      (s : Scheduler F) (due : ℕ) (st : Bool) (d : Option Bool) (send : Bool)
      → IsSound s
      → s.scratch ≡ []
      → output s ≤ u64_max
      → let n = s.packets_per_datagram in Tells s (withhold (emit_slots n s due st d send) send) n
  withheld-Tells s due st d false v e h =
      inl (refl, emit_slots-Grows s.packets_per_datagram s due st d false h)
  withheld-Tells s due st d true v e h =
      let n = s.packets_per_datagram in
      let (sound, size, ps, count, all, bytes) = emit_slots-AppendsAll n s due st d true v in
      inr
        (ps, count, all, bytes ∙ ap (λ b. b ++ on_wire ps) e, emit_slots-Grows n s due st d true h)

  fill_datagram-Tells :
      (s : Scheduler F) (due : ℕ) (st : Bool)
      → IsSound s
      → s.scratch ≡ []
      → output s ≤ u64_max
      → Tells s (fill_datagram s due st) s.packets_per_datagram
  unfolding fill_datagram
  fill_datagram-Tells s due st v e h = by_phase (known_false known)
    where
      known : Option Bool
      known = determined_for s s.grid st

      by_phase :
          (b : Bool)
          → let s' = if b then record s { phased = false } else s in
            let send = may_send known s'.phased in
            Tells s
              (withhold (emit_slots s'.packets_per_datagram s' due st known send) send)
              s.packets_per_datagram
      by_phase true =
          withheld-Tells (record s { phased = false }) due st known (may_send known false) v e h
      by_phase false = withheld-Tells s due st known (may_send known s.phased) v e h

  observe_state-Mute : (s : Scheduler F) (now : ℕ) → Mute s (observe_state s now).0
  unfolding observe_state note_content_gap
  observe_state-Mute s now =
      let c = counted_stall s in
      let counted : Mute s c = either-Mute s.is_stalled s s _ (refl, refl) (refl, refl) in
      either-Mute (is_stalled (state s now)) s (note_content_gap c now) s
        (then-Mute s c (note_content_gap c now) counted
          (either-Mute (is_none c.last_content_at) c c _ (refl, refl) (refl, refl)))
        (refl, refl)

  -- A muted datagram is not counted as output.
  pub advance_muted-Mute : (s : Scheduler F) (now : ℕ) → Mute s (advance_muted s now)
  unfolding advance_muted
  advance_muted-Mute s now = observe_state-Mute s now

  catch_up_to-Mute : (s : Scheduler F) (o : Option ℕ) (now : ℕ) → Mute s (catch_up_to s o now)
  catch_up_to-Mute s none now = (refl, refl)
  catch_up_to-Mute s (some edge) now =
      let back = edge - s.latency_packets in
      let target = back - back % s.packets_per_datagram in
      either-Mute (leb (edge - s.slot) s.max_latency_packets || leb target s.slot) s s
        (jump_to s target now) (refl, refl) (refl, refl)

  Tells-after :
      (s t u : Scheduler F)
      → Mute s t
      → Tells t u t.packets_per_datagram
      → Tells s u s.packets_per_datagram
  Tells-after s t u (count, size) (inl (bytes, same)) = inl (bytes, same ∙ count)
  Tells-after s t u (count, size) (inr (ps, long, all, bytes, more)) =
      inr (ps, long ∙ size, all, bytes, rw (sym count, sym size) more)

module _ (fl : Float) where
  open fl use {F, mul}

  -- What a datagram holds is what the counter says that it holds.
  pub emit_datagram-Tells :
      (s : Scheduler F) (now : ℕ)
      → IsSound s
      → output s ≤ u64_max
      → Tells s (emit_datagram fl s now) s.packets_per_datagram
  unfolding emit_datagram catch_up
  emit_datagram-Tells s now v h =
      let caught = catch_up s now in
      let (sound, size, same) = catch_up_to-Keeps s (edge_of s.grid) now v in
      let s0 = record caught { scratch = [] } in
      let cushion = mul s0.media.rate_pps (as_secs fl s0.target) in
      let (media', due) = Media.due fl s0.media now (Jitter.len s0.buffer) cushion in
      let s' = record s0 { media = media' } in
      let (sound', size', same') = observe_state-Keeps s' now sound in
      let (s1, current) = observe_state s' now in
      let quiet : Mute s s1 =
        then-Mute s s' s1 (catch_up_to-Mute s (edge_of s.grid) now) (observe_state-Mute s' now) in
      Tells-after s s1 (fill_datagram s1 due (is_stalled current)) quiet
        (fill_datagram-Tells s1 due (is_stalled current) sound' same' (omega (arith, quiet.0, h)))
