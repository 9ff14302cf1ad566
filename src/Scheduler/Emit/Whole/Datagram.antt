-- ===== src/Scheduler/Emit/Whole/Datagram.antt =====
-- src/scheduler.rs, `emit_datagram`: the bytes of a datagram are whole packets, or none.
use mpegts_pacer.Prelude.{
  ℕ, ◌-◌, ◌%◌, ◌≡◌, refl, ap, ◌∙◌, Bool, true, false, ◌||◌, Option, none, some, List, [], ◌++◌,
  length, leb, if◌then◌else◌, is_none, sat_add, max, All,
}
use mpegts_pacer.Float.{Float, as_secs}
use mpegts_pacer.Packet.{Packet}
use mpegts_pacer.Source.{split_packets}
use mpegts_pacer.Source.Split.{IsPacket, on_wire, split_packets-on_wire}
use mpegts_pacer.Jitter
use mpegts_pacer.Media
use mpegts_pacer.Scheduler.{Scheduler, state, silent_for, millis}
use mpegts_pacer.Scheduler.Liveness.{observe_state, note_content_gap, counted_stall, is_stalled}
use mpegts_pacer.Scheduler.Emit.{
  edge_of, catch_up_to, catch_up, jump_to, emit_slots, determined_for, known_false, may_send,
  withhold, fill_datagram, emit_datagram,
}
use mpegts_pacer.Scheduler.Emit.Whole.{IsSound, Keeps, AppendsAll, emit_slots-AppendsAll}

-- Nothing, or `n` packets, which a receiver reads back.
pub data IsDatagram (n : ℕ) (bytes : List ℕ) : Type 0 where
  nothing : bytes ≡ [] → IsDatagram n bytes
  packets :
      (ps : List Packet)
      → length ps ≡ n
      → All IsPacket ps
      → bytes ≡ on_wire ps
      → split_packets [] bytes ≡ (ps, [])
      → IsDatagram n bytes

pub resized : (n m : ℕ) (bytes : List ℕ) → n ≡ m → IsDatagram n bytes → IsDatagram m bytes
resized n m bytes e is = rw e at is

module _ {F : Type 0} where
  pub either-Keeps :
      (b : Bool) (s t u : Scheduler F) → Keeps s t → Keeps s u → Keeps s (if b then t else u)
  either-Keeps true s t u k l = k
  either-Keeps false s t u k l = l

  pub then-Keeps : (s t u : Scheduler F) → Keeps s t → Keeps t u → Keeps s u
  then-Keeps s t u (v, size, same) (v', size', same') = (v', size' ∙ size, same' ∙ same)

  pub note_content_gap-Keeps :
      (s : Scheduler F) (now : ℕ) → IsSound s → Keeps s (note_content_gap s now)
  unfolding note_content_gap
  note_content_gap-Keeps s now v =
      either-Keeps (is_none s.last_content_at) s s
        (record s {
          stats = record (s.stats) {
            content_gap_max_ms = max s.stats.content_gap_max_ms (millis (silent_for s now));
          };
        })
        (v, refl, refl) (v, refl, refl)

  pub catch_up_to-Keeps :
      (s : Scheduler F) (o : Option ℕ) (now : ℕ) → IsSound s → Keeps s (catch_up_to s o now)
  catch_up_to-Keeps s none now v = (v, refl, refl)
  catch_up_to-Keeps s (some edge) now (null, queued, grid, buffer) =
      let back = edge - s.latency_packets in
      let target = back - back % s.packets_per_datagram in
      either-Keeps (leb (edge - s.slot) s.max_latency_packets || leb target s.slot) s s
        (jump_to s target now) ((null, queued, grid, buffer), refl, refl)
        ((null, tt, grid, buffer), refl, refl)

  pub observe_state-Keeps :
      (s : Scheduler F) (now : ℕ) → IsSound s → Keeps s (observe_state s now).0
  unfolding observe_state
  observe_state-Keeps s now v =
      let c = counted_stall s in
      let counted : Keeps s c =
        either-Keeps s.is_stalled s s
          (record s { stats = record (s.stats) { stalls = sat_add s.stats.stalls 1 } })
          (v, refl, refl) (v, refl, refl) in
      either-Keeps (is_stalled (state s now)) s (note_content_gap c now) s
        (then-Keeps s c (note_content_gap c now) counted (note_content_gap-Keeps c now counted.0))
        (v, refl, refl)

  -- A datagram written from nothing.
  abbrev pub Fills : Scheduler F → Scheduler F → Type 0
  Fills s t =
      IsSound t
      × (t.packets_per_datagram ≡ s.packets_per_datagram)
      × IsDatagram s.packets_per_datagram t.scratch

  withheld-Fills :
      (s t : Scheduler F) (send : Bool)
      → s.scratch ≡ []
      → AppendsAll s t s.packets_per_datagram
      → Fills s (withhold t send)
  withheld-Fills s t false e (v, size, ps, count, all, bytes) = (v, size, nothing refl)
  withheld-Fills s t true e (v, size, ps, count, all, bytes) =
      let wire : t.scratch ≡ on_wire ps = bytes ∙ ap (λ b. b ++ on_wire ps) e in
      (
        v,
        size,
        packets ps count all wire (ap (split_packets []) wire ∙ split_packets-on_wire ps all),
      )

  filled-Fills :
      (s : Scheduler F) (due : ℕ) (st : Bool) (d : Option Bool) (send : Bool)
      → IsSound s
      → s.scratch ≡ []
      → Fills s (withhold (emit_slots s.packets_per_datagram s due st d send) send)
  filled-Fills s due st d send v e =
      let n = s.packets_per_datagram in
      withheld-Fills s (emit_slots n s due st d send) send e
        (emit_slots-AppendsAll n s due st d send v)

  fill_datagram-Fills :
      (s : Scheduler F) (due : ℕ) (st : Bool)
      → IsSound s
      → s.scratch ≡ []
      → Fills s (fill_datagram s due st)
  unfolding fill_datagram
  fill_datagram-Fills s due st v e = by_phase (known_false known)
    where
      known : Option Bool
      known = determined_for s s.grid st

      by_phase :
          (b : Bool)
          → let s' = if b then record s { phased = false } else s in
            let send = may_send known s'.phased in
            Fills s (withhold (emit_slots s'.packets_per_datagram s' due st known send) send)
      by_phase true =
          filled-Fills (record s { phased = false }) due st known (may_send known false) v e
      by_phase false = filled-Fills s due st known (may_send known s.phased) v e

module _ (fl : Float) where
  open fl use {F, mul}

  -- A datagram is nothing or exactly the packets of a datagram, each 188 bytes with its sync byte, which
  -- the splitter of a receiver reads back with nothing left over; this holds whatever the leg was told
  -- to do with the PCR, on the grid or the buffer, and all that the leg holds stays whole packets.
  pub emit_datagram-Fills :
      (s : Scheduler F) (now : ℕ) → IsSound s → Fills s (emit_datagram fl s now)
  unfolding emit_datagram catch_up
  emit_datagram-Fills s now v =
      let caught = catch_up s now in
      let (sound, size, same) = catch_up_to-Keeps s (edge_of s.grid) now v in
      let s0 = record caught { scratch = [] } in
      let cushion = mul s0.media.rate_pps (as_secs fl s0.target) in
      let (media', due) = Media.due fl s0.media now (Jitter.len s0.buffer) cushion in
      let s' = record s0 { media = media' } in
      let (sound', size', same') = observe_state-Keeps s' now sound in
      let (s1, current) = observe_state s' now in
      let (sound'', size'', is) = fill_datagram-Fills s1 due (is_stalled current) sound' same' in
      (
        sound'',
        size'' ∙ size' ∙ size,
        resized s1.packets_per_datagram s.packets_per_datagram _ (size' ∙ size) is,
      )
