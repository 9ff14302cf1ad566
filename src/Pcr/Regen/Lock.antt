-- ===== src/Pcr/Regen/Lock.antt =====
-- The emitted PCR is locked to the output byte clock, and nothing else of a packet is rewritten.
use mpegts_pacer.Prelude.{
  ℕ, ◌+◌, ◌-◌, ◌*◌, ◌/◌, ◌%◌, ◌≤◌, ◌<◌, ◌≡◌, refl, ap, ◌∙◌, ◌⊎◌, inl, inr, Bool, false, ◌||◌, none,
  some, List, length, get_or, arith, if◌then◌else◌, Bool-cases, is_some, not, ◌&&◌, Option-cases,
  u64_mod,
}
use native.Mathlib.Nat.{mul-div_cancel, mod-eq_of_lt, mod-mod}
use mpegts_pacer.Pcr.{
  pcr_wrap_ticks, pcr_clock_hz, packet_bits, read_pcr, write_pcr, declares_discontinuity,
}
use mpegts_pacer.Pcr.Fields.{
  CarriesPcr, read_pcr-CarriesPcr, write_pcr-outside, length-write_pcr, write_pcr-CarriesPcr,
  read_pcr-write_pcr, indicator-outside, length-indicator, read_pcr-indicator, declares_bit,
  declares-indicator,
}
use mpegts_pacer.Pcr.Regen.{
  PcrRegen, set_discontinuity_indicator_if, discontinuous, next_anchor, rewrite_pcr, rewrite,
  locked_for_index,
}

-- The flags octet is a byte.
abbrev IsFlagged : List ℕ → Type 0
IsFlagged p = (get_or p 3 0 < 256) × (get_or p 5 0 < 256)

or_assoc : (a b c : Bool) → ((a || b) || c) ≡ (a || b || c)
or_assoc a b c = ground arith

-- What the last two writes of a rewrite leave behind.
module _ (p : List ℕ) (t : ℕ) (flag : Bool) where
  abbrev stamped : List ℕ
  stamped = set_discontinuity_indicator_if (write_pcr p 6 t) flag

  stamped-outside : (j : ℕ) → (j < 5) ⊎ (12 ≤ j) → get_or stamped j 0 ≡ get_or p j 0
  unfolding set_discontinuity_indicator_if
  stamped-outside j h = elim (Bool-cases flag) [
    | inl e ↦ rw e (
        indicator-outside (write_pcr p 6 t) j (omega arith) ∙ write_pcr-outside p t j (omega arith))
    | inr e ↦ rw e (write_pcr-outside p t j (omega arith))
  ]

  length-stamped : length stamped ≡ length p
  unfolding set_discontinuity_indicator_if
  length-stamped = elim (Bool-cases flag) [
    | inl e ↦ rw e (length-indicator (write_pcr p 6 t) ∙ length-write_pcr p t)
    | inr e ↦ rw e (length-write_pcr p t)
  ]

  module _ (c : CarriesPcr p) (bytes : IsFlagged p) where
    byte3 : get_or (write_pcr p 6 t) 3 0 < 256
    byte3 = rw (write_pcr-outside p t 3 (omega arith)) bytes.0

    byte5 : get_or (write_pcr p 6 t) 5 0 < 256
    byte5 = rw (write_pcr-outside p t 5 (omega arith)) bytes.1

    read_pcr-stamped : read_pcr stamped ≡ some (t % pcr_wrap_ticks)
    unfolding set_discontinuity_indicator_if
    read_pcr-stamped = elim (Bool-cases flag) [
      | inl e ↦ rw e (
          read_pcr-indicator (write_pcr p 6 t) (write_pcr-CarriesPcr p t c) byte5
          ∙ read_pcr-write_pcr p t c)
      | inr e ↦ rw e (read_pcr-write_pcr p t c)
    ]

    declares-stamped : declares_discontinuity stamped ≡ (flag || declares_discontinuity p)
    unfolding set_discontinuity_indicator_if
    declares-stamped = elim (Bool-cases flag) [
      | inl e ↦ rw e (declares-indicator (write_pcr p 6 t) (write_pcr-CarriesPcr p t c) byte3 byte5)
      | inr e ↦ rw e (
          declares_bit (write_pcr p 6 t) (write_pcr-CarriesPcr p t c) byte3
          ∙ rw (write_pcr-outside p t 5 (omega arith), declares_bit p c bytes.0))
    ]

rewrite-none :
    (r : PcrRegen) (p : List ℕ) (i : ℕ) → read_pcr p ≡ none → rewrite r p i ≡ (r, p, false)
rewrite-none r p i e = unfold rewrite in rw (e, rewrite)

rewrite-some :
    (r : PcrRegen) (p : List ℕ) (i : ℕ) {src : ℕ}
    → read_pcr p ≡ some src
    → rewrite r p i ≡ rewrite_pcr r p i src
rewrite-some r p i e = unfold rewrite in rw (e, rewrite)

-- A rewrite touches no byte but the flags octet and the six of the PCR, whatever the packet, and
-- keeps its length.
pub rewrite-outside :
    (r : PcrRegen) (p : List ℕ) (i j : ℕ)
    → (j < 5) ⊎ (12 ≤ j)
    → (get_or (rewrite r p i).1 j 0 ≡ get_or p j 0) × (length (rewrite r p i).1 ≡ length p)
unfolding rewrite_pcr
rewrite-outside r p i j h = elim (Option-cases (read_pcr p)) [
  | inl e ↦ rw (rewrite-none r p i e) (refl, refl)
  | inr (src, e) ↦ rw (rewrite-some r p i e) (stamped-outside p _ _ j h, length-stamped p _ _)
]

module _ (r : PcrRegen) (p : List ℕ) (i : ℕ) (bytes : IsFlagged p) {src : ℕ}
    (carries : read_pcr p ≡ some src) where
  -- The PCR that a rewrite emits is the byte-locked value of its output position, by the anchor
  -- that the rewrite leaves in force.
  pub read_pcr-rewrite : read_pcr (rewrite r p i).1 ≡ locked_for_index (rewrite r p i).0 i
  unfolding rewrite_pcr locked_for_index
  read_pcr-rewrite = rw (rewrite-some r p i carries) (
      read_pcr-stamped p _ _ (read_pcr-CarriesPcr p carries) bytes
      ∙ ap some (mod-mod _ pcr_wrap_ticks))

  -- The indicator goes out set exactly when the source set it, the clock was re-based on this
  -- packet, or a hole in the media was flagged; and the flag is spent.
  pub declares-rewrite :
      (declares_discontinuity (rewrite r p i).1
        ≡ ((rewrite r p i).2 || r.flag_next || declares_discontinuity p))
      × ((rewrite r p i).0.flag_next ≡ false)
  unfolding rewrite_pcr
  declares-rewrite = rw (rewrite-some r p i carries) (
    declares-stamped p _ _ (read_pcr-CarriesPcr p carries) bytes
        ∙ or_assoc (rewrite_pcr r p i src).2 r.flag_next (declares_discontinuity p),
    refl,
  )

  -- A source PCR that continues the last keeps the anchor; one that does not moves it to this
  -- packet's position and source value, and so does the first.
  anchor-rewrite : (rewrite r p i).0.anchor ≡ (
      if is_some r.anchor && not (discontinuous r.last_src p src)
      then r.anchor
      else some (i, src % pcr_wrap_ticks))
  unfolding rewrite_pcr next_anchor
  anchor-rewrite = rw (rewrite-some r p i carries) (ground arith)

-- `m` packets last a whole number of ticks where the rate divides the ticks of one packet.
elapsed_exact :
    (rate k m : ℕ)
    → 0 < rate
    → rate * k ≡ packet_bits * pcr_clock_hz
    → m * k < u64_mod
    → m * packet_bits * pcr_clock_hz / rate % u64_mod ≡ m * k
elapsed_exact rate k m pos exact small =
    let e : m * packet_bits * pcr_clock_hz ≡ m * k * rate =
      omega (arith, ap (λ (t : ℕ). m * t) exact) in
    rw (e, mul-div_cancel (m * k) pos) (mod-eq_of_lt small)

-- Where a whole number of clock ticks goes by per packet, `n` packets further on the emitted PCR is
-- `n` times that further on: the byte clock is exact.
pub locked_for_index_exact :
    (r : PcrRegen) (a v k i n : ℕ)
    → r.anchor ≡ some (a, v)
    → 0 < r.mux_rate_bps
    → r.mux_rate_bps * k ≡ packet_bits * pcr_clock_hz
    → a ≤ i
    → v + (i + n - a) * k < u64_mod
    → (locked_for_index r i ≡ some ((v + (i - a) * k) % pcr_wrap_ticks))
      × (locked_for_index r (i + n) ≡ some ((v + (i - a) * k + n * k) % pcr_wrap_ticks))
unfolding locked_for_index
locked_for_index_exact r a v k i n anchored pos exact le small =
    let first : (i - a) * k ≤ (i + n - a) * k = grind arith in
    let split : (i + n - a) * k ≡ (i - a) * k + n * k = grind arith in
    ground (
      arith,
      elapsed_exact r.mux_rate_bps k (i - a) pos exact (omega arith),
      elapsed_exact r.mux_rate_bps k (i + n - a) pos exact (omega arith),
    )
