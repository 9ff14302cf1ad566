-- ===== src/Scheduler/Liveness/Stall.antt =====
-- A stall is an edge that is counted once, and a muted datagram takes its sequence number.
use native.Mathlib.Nat.{add-div_right}
use mpegts_pacer.Prelude.{
  ℕ, ◌+◌, ◌/◌, ◌%◌, ◌≤◌, ◌<◌, ◌≡◌, refl, ◌∙◌, Bool, true, false, ◌&&◌, not, some, if◌then◌else◌,
  arith, u64_max, Bool-cases, inl, inr, is_none, u16_mod,
}
use mpegts_pacer.Grid.{StreamGrid}
use mpegts_pacer.Scheduler.{
  Scheduler, state, state_after, has_pending, stall_timeout, Framing, framing, framing_on,
}
use mpegts_pacer.Scheduler.Liveness.{
  is_stalled, note_content_gap, counted_stall, observe_state, advance_muted,
}

module _ {F : Type 0} where
  gap-keeps :
      (s : Scheduler F) (now : ℕ)
      → ((note_content_gap s now).stats.stalls ≡ s.stats.stalls)
        × (state (note_content_gap s now) now ≡ state s now)
  unfolding note_content_gap state state_after has_pending stall_timeout
  gap-keeps s now = elim (Bool-cases (is_none s.last_content_at)) [
    | inl e ↦ rw e (refl, refl)
    | inr e ↦ rw e (refl, refl)
  ]

  state-counted : (s : Scheduler F) (now : ℕ) → state (counted_stall s) now ≡ state s now
  unfolding state state_after has_pending stall_timeout
  state-counted s now = elim (Bool-cases s.is_stalled) [ inl e ↦ rw e refl | inr e ↦ rw e refl ]

  state-flagged :
      (s : Scheduler F) (b : Bool) (now : ℕ) → state (record s { is_stalled = b }) now ≡ state s now
  unfolding state state_after has_pending stall_timeout
  state-flagged s b now = refl

  -- Observing the input answers with its state, which the observation does not change; it remembers
  -- whether that is a stall, and counts a stall exactly when it was not one at the last look.
  pub observe_state-edge :
      (s : Scheduler F) (now : ℕ)
      → s.stats.stalls < u64_max
      → let (t, current) = observe_state s now in
        (current ≡ state s now)
        × (state t now ≡ current)
        × (t.is_stalled ≡ is_stalled current)
        × (t.stats.stalls
            ≡ s.stats.stalls + (if is_stalled current && not s.is_stalled then 1 else 0))
  unfolding observe_state
  observe_state-edge s now room = elim (Bool-cases (is_stalled (state s now))) [
    | inl e ↦
        let (count, kept) = gap-keeps (counted_stall s) now in
        let one : (counted_stall s).stats.stalls
            ≡ s.stats.stalls + (if not s.is_stalled then 1 else 0) =
          counted s room in
        rw e (
          refl,
          state-flagged (note_content_gap (counted_stall s) now) true now
              ∙ kept
              ∙ state-counted s now,
          refl,
          count ∙ one,
        )
    | inr e ↦ rw e (refl, state-flagged s false now, refl, omega arith)
  ]
    where
      counted :
          (s : Scheduler F)
          → s.stats.stalls < u64_max
          → (counted_stall s).stats.stalls ≡ s.stats.stalls + (if not s.is_stalled then 1 else 0)
      counted s room = elim (Bool-cases s.is_stalled) [
        | inl e ↦ rw e (omega arith)
        | inr e ↦ rw e (omega arith)
      ]

  -- The framing of the next datagram carries the next sequence number, modulo 2^16.
  pub framing-next :
      (s t : Scheduler F) (g h : StreamGrid)
      → s.grid ≡ some g
      → t.grid ≡ some h
      → 0 < s.packets_per_datagram
      → t.slot ≡ s.slot + s.packets_per_datagram
      → t.packets_per_datagram ≡ s.packets_per_datagram
      → t.sequence_seed ≡ s.sequence_seed
      → (a : Framing) × (b : Framing) × (framing s ≡ some a)
        × (framing t ≡ some b)
        × (b.slot ≡ a.slot + s.packets_per_datagram)
        × (b.sequence ≡ (a.sequence + 1) % u16_mod)
  unfolding framing
  framing-next s t g h sg th pos moved same seed =
      let next : t.slot / t.packets_per_datagram ≡ s.slot / s.packets_per_datagram + 1 =
        rw (moved, same) (add-div_right s.slot pos) in
      (framing_on s g, framing_on t h, rw sg refl, rw th refl, moved, rw (next, seed) (omega arith))

  observe_state-keeps :
      (s : Scheduler F) (now : ℕ)
      → let t = (observe_state s now).0 in
        (t.slot ≡ s.slot)
        × (t.packets_per_datagram ≡ s.packets_per_datagram)
        × (t.sequence_seed ≡ s.sequence_seed)
        × (t.grid ≡ s.grid)
        × (t.stats.muted_packets ≡ s.stats.muted_packets)
  unfolding observe_state note_content_gap
  observe_state-keeps s now = elim (Bool-cases (is_stalled (state s now))) [
    | inr e ↦ rw e (refl, refl, refl, refl, refl)
    | inl e ↦ elim (Bool-cases s.is_stalled) [
      | inl k ↦ elim (Bool-cases (is_none s.last_content_at)) [
        | inl n ↦ rw (e, k, n) (refl, refl, refl, refl, refl)
        | inr n ↦ rw (e, k, n) (refl, refl, refl, refl, refl)
      ]
      | inr k ↦ elim (Bool-cases (is_none s.last_content_at)) [
        | inl n ↦ rw (e, k, n) (refl, refl, refl, refl, refl)
        | inr n ↦ rw (e, k, n) (refl, refl, refl, refl, refl)
      ]
    ]
  ]

  -- A muted datagram takes up its slots and its sequence number as a sent one does, so that a
  -- receiver sees the gap; its packets are counted as muted, and the leg must find its phase anew.
  pub advance_muted-framing :
      (s : Scheduler F) (now : ℕ) (g : StreamGrid)
      → s.grid ≡ some g
      → 0 < s.packets_per_datagram
      → s.slot + s.packets_per_datagram ≤ u64_max
      → s.stats.muted_packets + s.packets_per_datagram ≤ u64_max
      → let t = advance_muted s now in
        ((a : Framing) × (b : Framing) × (framing s ≡ some a)
          × (framing t ≡ some b)
          × (b.slot ≡ a.slot + s.packets_per_datagram)
          × (b.sequence ≡ (a.sequence + 1) % u16_mod))
        × (t.stats.muted_packets ≡ s.stats.muted_packets + s.packets_per_datagram)
        × (t.phased ≡ false)
  unfolding advance_muted
  advance_muted-framing s now g sg pos room wide =
      let (slot, same, seed, grid, muted) = observe_state-keeps s now in
      (
        framing-next s (advance_muted s now) g g sg (grid ∙ sg) pos (omega (arith, slot, same)) same
            seed,
        omega (arith, muted, same),
        refl,
      )
