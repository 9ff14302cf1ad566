-- ===== src/Pcr/Regen.antt =====
-- src/pcr.rs, `PcrRegen`: the byte-locked regenerator of the PCR. A method that takes `&mut self`
-- returns the new state; one that rewrites a packet returns the packet too.
pub mod Lock
use mpegts_pacer.Prelude.{
  ℕ, ◌+◌, ◌-◌, ◌*◌, ◌/◌, ◌%◌, ◌^◌, max, Bool, true, false, ◌||◌, Option, none, some, List, ltb,
  ◌==◌, if◌then◌else◌, is_some, wrap_add, u64_mod,
}
use mpegts_pacer.Pcr.{
  pcr_wrap_ticks, pcr_clock_hz, packet_bits, pcr_discontinuity_gap, read_pcr, write_pcr,
  set_discontinuity_indicator, declares_discontinuity, forward_delta, ticks_to_duration,
}

pub record PcrRegen : Type 0 where
  pub mux_rate_bps : ℕ
  -- output packet index and PCR value of the most recent re-base
  pub anchor : Option (ℕ × ℕ)
  pub last_src : Option ℕ
  pub flag_next : Bool

unfoldable pub new : ℕ → PcrRegen
new mux_rate_bps = record {
  mux_rate_bps = max mux_rate_bps 1;
  anchor = none;
  last_src = none;
  flag_next = false;
}

unfoldable pub flag_discontinuity : PcrRegen → PcrRegen
flag_discontinuity r = record r { flag_next = true }

-- The ticks of the packets between the anchor and an output index. The product fits a u128; the
-- quotient is cast to u64.
abbrev pub elapsed_ticks : ℕ → ℕ → ℕ → ℕ
elapsed_ticks mux_rate_bps anchor_index output_index =
    (output_index - anchor_index) * packet_bits * pcr_clock_hz / mux_rate_bps % u64_mod

unfoldable pub set_discontinuity_indicator_if : List ℕ → Bool → List ℕ
set_discontinuity_indicator_if p flag = if flag then (set_discontinuity_indicator p).0 else p

-- Whether a source PCR is not continuous with the last.
unfoldable pub discontinuous : Option ℕ → List ℕ → ℕ → Bool
discontinuous none p src = false
discontinuous (some last) p src =
    declares_discontinuity p
    || forward_delta last src == 0
    || ltb pcr_discontinuity_gap (ticks_to_duration (forward_delta last src))

-- The anchor kept, or set anew, and whether it moved.
unfoldable pub next_anchor : Option (ℕ × ℕ) → Bool → ℕ → ℕ → (ℕ × ℕ) × Bool
next_anchor none discontinuity output_index src = ((output_index, src % pcr_wrap_ticks), false)
next_anchor (some a) discontinuity output_index src =
    if discontinuity then ((output_index, src % pcr_wrap_ticks), true) else (a, false)

unfoldable pub rewrite_pcr : PcrRegen → List ℕ → ℕ → ℕ → PcrRegen × List ℕ × Bool
unfolding discontinuous next_anchor set_discontinuity_indicator_if
rewrite_pcr r p output_index src =
    let (a, rebased) = next_anchor r.anchor (discontinuous r.last_src p src) output_index src in
    let pcr_out = wrap_add a.1 (elapsed_ticks r.mux_rate_bps a.0 output_index) % pcr_wrap_ticks in
    (
      record r { anchor = some a; last_src = some src; flag_next = false },
      set_discontinuity_indicator_if (write_pcr p 6 pcr_out) (rebased || r.flag_next),
      rebased,
    )

-- A packet without a PCR is left alone.
unfoldable pub rewrite : PcrRegen → List ℕ → ℕ → PcrRegen × List ℕ × Bool
unfolding rewrite_pcr
rewrite r p output_index = elim (read_pcr p) [
  | none ↦ (r, p, false)
  | some src ↦ rewrite_pcr r p output_index src
]

unfoldable pub rewrite_absolute : PcrRegen → List ℕ → ℕ → PcrRegen × List ℕ
unfolding set_discontinuity_indicator_if
rewrite_absolute r p pcr =
    if is_some (read_pcr p)
    then (
      record r { flag_next = false },
      set_discontinuity_indicator_if (write_pcr p 6 (pcr % pcr_wrap_ticks)) r.flag_next,
    )
    else (r, p)

unfoldable pub locked_for_index : PcrRegen → ℕ → Option ℕ
locked_for_index r output_index = elim r.anchor [
  | none ↦ none
  | some (anchor_index, anchor_pcr) ↦ some (
      wrap_add anchor_pcr (elapsed_ticks r.mux_rate_bps anchor_index output_index) % pcr_wrap_ticks)
]
