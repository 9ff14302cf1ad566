-- ===== src/Scheduler/Emit/Phase.antt =====
-- src/scheduler.rs, `catch_up` in `emit_datagram`: the phase that a jump to the live edge loses.
use mpegts_pacer.Prelude.{
  ℕ, ◌-◌, ◌%◌, ◌≡◌, refl, ◌∙◌, ◌⊎◌, inl, inr, Bool, true, false, ◌&&◌, ◌||◌, Option, none, some, [],
  leb, if◌then◌else◌, is_some, is_none, Bool-cases, arith,
}
use mpegts_pacer.Float.{Float, as_secs}
use mpegts_pacer.Jitter
use mpegts_pacer.Media
use mpegts_pacer.Grid.{StreamGrid}
use mpegts_pacer.Scheduler.{Scheduler, state}
use mpegts_pacer.Scheduler.Liveness.{observe_state, note_content_gap, counted_stall, is_stalled}
use mpegts_pacer.Scheduler.Emit.{
  edge_of, catch_up_to, catch_up, emit_slots, withhold, fill_datagram, emit_datagram,
  determined_for, known_false, may_send,
}

module _ {F : Type 0} where
  -- The leg stands where it stood, or it has jumped and is out of phase.
  caught-up :
      (s : Scheduler F) (o : Option ℕ) (now : ℕ)
      → ((catch_up_to s o now).slot ≡ s.slot) ⊎ ((catch_up_to s o now).phased ≡ false)
  caught-up s none now = inl refl
  caught-up s (some edge) now =
      let back = edge - s.latency_packets in
      let target = back - back % s.packets_per_datagram in
      elim (Bool-cases (leb (edge - s.slot) s.max_latency_packets || leb target s.slot)) [
        | inl e ↦ rw e (inl refl)
        | inr e ↦ rw e (inr refl)
      ]

  caught-grid : (s : Scheduler F) (o : Option ℕ) (now : ℕ) → (catch_up_to s o now).grid ≡ s.grid
  caught-grid s none now = refl
  caught-grid s (some edge) now =
      let back = edge - s.latency_packets in
      let target = back - back % s.packets_per_datagram in
      elim (Bool-cases (leb (edge - s.slot) s.max_latency_packets || leb target s.slot)) [
        | inl e ↦ rw e refl
        | inr e ↦ rw e refl
      ]

  -- The grid and the phase are as they were.
  abbrev Keeps : Scheduler F → Scheduler F → Type 0
  Keeps s t = (t.grid ≡ s.grid) × (t.phased ≡ s.phased)

  either-Keeps :
      (b : Bool) (s t u : Scheduler F) → Keeps s t → Keeps s u → Keeps s (if b then t else u)
  either-Keeps true s t u m n = m
  either-Keeps false s t u m n = n

  note_content_gap-Keeps : (s : Scheduler F) (now : ℕ) → Keeps s (note_content_gap s now)
  unfolding note_content_gap
  note_content_gap-Keeps s now =
      either-Keeps (is_none s.last_content_at) s s _ (refl, refl) (refl, refl)

  counted_stall-Keeps : (s : Scheduler F) → Keeps s (counted_stall s)
  counted_stall-Keeps s = either-Keeps s.is_stalled s s _ (refl, refl) (refl, refl)

  observe_state-Keeps : (s : Scheduler F) (now : ℕ) → Keeps s (observe_state s now).0
  unfolding observe_state
  observe_state-Keeps s now =
      let (g, p) = counted_stall-Keeps s in
      let (g', p') = note_content_gap-Keeps (counted_stall s) now in
      either-Keeps (is_stalled (state s now)) s (note_content_gap (counted_stall s) now) s
        (g' ∙ g, p' ∙ p) (refl, refl)

  withhold-empty : (s : Scheduler F) (send : Bool) → send ≡ false → (withhold s send).scratch ≡ []
  withhold-empty s true e = ground (arith, e)
  withhold-empty s false e = refl

  muted-withholds :
      (s : Scheduler F) (due : ℕ) (st : Bool)
      → is_some s.grid ≡ true
      → s.phased ≡ false
      → (fill_datagram s due st).scratch ≡ []
  unfolding fill_datagram
  muted-withholds s due st g p = by_known (determined_for s s.grid st) (known s.grid g)
    where
      known : (o : Option StreamGrid) → is_some o ≡ true → is_some (determined_for s o st) ≡ true
      known none e = ground (arith, e)
      known (some x) e = refl

      by_known :
          (k : Option Bool)
          → is_some k ≡ true
          → let s' = if known_false k then record s { phased = false } else s in
            let send = may_send k s'.phased in
            (withhold (emit_slots s'.packets_per_datagram s' due st k send) send).scratch ≡ []
      by_known none e = ground (arith, e)
      by_known (some true) e = withhold-empty _ (true && s.phased) (ground (arith, p))
      by_known (some false) e = refl

module _ (fl : Float) where
  open fl use {F, mul}

  -- On the grid a datagram is for the slots where the leg stood, or it is empty: one that jumps to
  -- the live edge has lost its phase and withholds.
  pub emit_datagram-in_place :
      (s : Scheduler F) (now : ℕ)
      → is_some s.grid ≡ true
      → ((catch_up s now).slot ≡ s.slot) ⊎ ((emit_datagram fl s now).scratch ≡ [])
  unfolding emit_datagram catch_up
  emit_datagram-in_place s now g = elim (caught-up s (edge_of s.grid) now) [
    | inl same ↦ inl same
    | inr out ↦
        let s0 = record (catch_up s now) { scratch = [] } in
        let cushion = mul s0.media.rate_pps (as_secs fl s0.target) in
        let (media', due) = Media.due fl s0.media now (Jitter.len s0.buffer) cushion in
        let s' = record s0 { media = media' } in
        let (kept, phase) = observe_state-Keeps s' now in
        inr (
          muted-withholds (observe_state s' now).0 due (is_stalled (observe_state s' now).1)
            (rw kept (rw (caught-grid s (edge_of s.grid) now) g)) (phase ∙ out))
  ]
