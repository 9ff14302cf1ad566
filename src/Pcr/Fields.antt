-- ===== src/Pcr/Fields.antt =====
-- The round trip of the PCR field, and what writing it leaves alone.
use mpegts_pacer.Prelude.{
  ℕ, ◌+◌, ◌*◌, ◌/◌, ◌%◌, ◌^◌, ◌≤◌, ◌<◌, ◌≡◌, ◌≢◌, sym, ap, ◌∙◌, ◌⊎◌, true, not, some, List, length,
  get_or, set, length-set, get_or-set_ne, get_or-set_self, arith, bit_and, bit_or, ◌==◌,
}
use mpegts_pacer.Prelude.Bits.{and_mask, bit_5, bit_7, set_bit_7, set_bit_7-keeps_bit_4}
use mpegts_pacer.Pcr.{
  pcr_wrap_ticks, has_adaptation, pcr_base, pcr_ext, read_pcr, pcr_octets, write_pcr,
  set_discontinuity_indicator, declares_discontinuity,
}
use mpegts_pacer.Pcr.Octets.{
  length-write_octets, get_or-write_octets, get_or-write_octets_outside, pcr_octets-decode,
}

-- What a packet must show for `read_pcr` to answer: a whole packet with a PCR field.
pub record CarriesPcr (p : List ℕ) : Type 0 where
  pub whole : length p ≡ 188
  pub synced : get_or p 0 0 ≡ 0x47
  pub adapted : has_adaptation p ≡ true
  pub roomy : 7 ≤ get_or p 4 0
  pub fits : 5 + get_or p 4 0 ≤ 188
  pub flagged : bit_and (get_or p 5 0) 0x10 ≢ 0

pub field_value : List ℕ → ℕ
field_value p =
    pcr_base (get_or p 6 0) (get_or p 7 0) (get_or p 8 0) (get_or p 9 0) (get_or p 10 0) * 300
    + pcr_ext (get_or p 10 0) (get_or p 11 0)

pub read_pcr-CarriesPcr : (p : List ℕ) {v : ℕ} → read_pcr p ≡ some v → CarriesPcr p
unfolding read_pcr
read_pcr-CarriesPcr p h = ground arith

pub CarriesPcr-read_pcr : (p : List ℕ) → CarriesPcr p → read_pcr p ≡ some (field_value p)
unfolding read_pcr field_value
CarriesPcr-read_pcr p c = ground arith

-- Writing the field keeps the packet's length and every byte outside the six octets.
pub write_pcr-outside :
    (p : List ℕ) (t j : ℕ) → (j < 6) ⊎ (12 ≤ j) → get_or (write_pcr p 6 t) j 0 ≡ get_or p j 0
unfolding write_pcr pcr_octets
write_pcr-outside p t j h = get_or-write_octets_outside p 6 (pcr_octets t) j (omega arith)

pub length-write_pcr : (p : List ℕ) (t : ℕ) → length (write_pcr p 6 t) ≡ length p
unfolding write_pcr
length-write_pcr p t = length-write_octets p 6 (pcr_octets t)

pub write_pcr-CarriesPcr : (p : List ℕ) (t : ℕ) → CarriesPcr p → CarriesPcr (write_pcr p 6 t)
write_pcr-CarriesPcr p t c =
    let o = λ (j : ℕ) (h : (j < 6) ⊎ (12 ≤ j)). write_pcr-outside p t j h in
    record {
      whole = length-write_pcr p t ∙ c.whole;
      synced = o 0 (omega arith) ∙ c.synced;
      adapted = rw (o 3 (omega arith)) c.adapted;
      roomy = rw (o 4 (omega arith)) c.roomy;
      fits = rw (o 4 (omega arith)) c.fits;
      flagged = rw (o 5 (omega arith)) c.flagged;
    }

field_value-write_pcr :
    (p : List ℕ) (t : ℕ) → length p ≡ 188 → field_value (write_pcr p 6 t) ≡ t % pcr_wrap_ticks
unfolding write_pcr field_value pcr_octets
field_value-write_pcr p t whole =
    let o = λ (k : ℕ) (h : k < 6).
      get_or-write_octets p 6 (pcr_octets t) k (in_range k h) (omega arith) in
    rw
      (
        o 0 (omega arith),
        o 1 (omega arith),
        o 2 (omega arith),
        o 3 (omega arith),
        o 4 (omega arith),
        o 5 (omega arith),
      )
      (pcr_octets-decode t)
  where
    in_range : (k : ℕ) → k < 6 → k < length (pcr_octets t)
    in_range k h = unfold pcr_octets in omega arith

-- A PCR written into a packet that carries one reads back as the value on the 33-bit clock, whatever
-- was written.
pub read_pcr-write_pcr :
    (p : List ℕ) (t : ℕ) → CarriesPcr p → read_pcr (write_pcr p 6 t) ≡ some (t % pcr_wrap_ticks)
read_pcr-write_pcr p t c =
    CarriesPcr-read_pcr (write_pcr p 6 t) (write_pcr-CarriesPcr p t c)
    ∙ ap some (field_value-write_pcr p t c.whole)

-- The discontinuity indicator: the bit is set, and nothing else of the packet changes.
pub indicator_set :
    (p : List ℕ)
    → CarriesPcr p
    → (set_discontinuity_indicator p).0 ≡ set p 5 (bit_or (get_or p 5 0) 0x80)
unfolding set_discontinuity_indicator
indicator_set p c = ground (arith, c.whole, c.synced, c.adapted, c.roomy)

pub indicator-outside :
    (p : List ℕ) (j : ℕ) → j ≢ 5 → get_or (set_discontinuity_indicator p).0 j 0 ≡ get_or p j 0
unfolding set_discontinuity_indicator
indicator-outside p j h =
    ground (arith, get_or-set_ne p 5 j (bit_or (get_or p 5 0) 0x80) 0 (λ e. h (sym e)))

pub length-indicator : (p : List ℕ) → length (set_discontinuity_indicator p).0 ≡ length p
unfolding set_discontinuity_indicator
length-indicator p = ground (arith, length-set p 5 (bit_or (get_or p 5 0) 0x80))

module _ (p : List ℕ) (c : CarriesPcr p) (byte : get_or p 5 0 < 256) where
  flags_octet : get_or (set_discontinuity_indicator p).0 5 0 ≡ bit_or (get_or p 5 0) 0x80
  flags_octet =
      rw (indicator_set p c)
        (get_or-set_self p 5 (bit_or (get_or p 5 0) 0x80) 0 (omega (arith, c.whole)))

  pub indicator-CarriesPcr : CarriesPcr (set_discontinuity_indicator p).0
  indicator-CarriesPcr =
      let o = λ (j : ℕ) (h : j ≢ 5). indicator-outside p j h in
      record {
        whole = length-indicator p ∙ c.whole;
        synced = o 0 (omega arith) ∙ c.synced;
        adapted = rw (o 3 (omega arith)) c.adapted;
        roomy = rw (o 4 (omega arith)) c.roomy;
        fits = rw (o 4 (omega arith)) c.fits;
        flagged = rw (flags_octet, set_bit_7-keeps_bit_4 _ byte) c.flagged;
      }

  pub read_pcr-indicator : read_pcr (set_discontinuity_indicator p).0 ≡ read_pcr p
  unfolding field_value
  read_pcr-indicator =
      let o = λ (j : ℕ) (h : j ≢ 5). indicator-outside p j h in
      CarriesPcr-read_pcr _ indicator-CarriesPcr
      ∙ rw
          (
            o 6 (omega arith),
            o 7 (omega arith),
            o 8 (omega arith),
            o 9 (omega arith),
            o 10 (omega arith),
            o 11 (omega arith),
          )
          (sym (CarriesPcr-read_pcr p c))

-- On a packet that carries a PCR the source's declaration is bit 7 of the flags octet.
pub declares_bit :
    (p : List ℕ)
    → CarriesPcr p
    → get_or p 3 0 < 256
    → declares_discontinuity p ≡ not (bit_and (get_or p 5 0) 0x80 == 0)
unfolding declares_discontinuity
declares_bit p c byte = ground (
  arith,
  c.whole,
  c.roomy,
  c.adapted,
  and_mask 2 (get_or p 3 0 / 2 ^ 4),
  bit_5 (get_or p 3 0) byte,
)

pub declares-indicator :
    (p : List ℕ)
    → CarriesPcr p
    → get_or p 3 0 < 256
    → get_or p 5 0 < 256
    → declares_discontinuity (set_discontinuity_indicator p).0 ≡ true
declares-indicator p c byte3 byte5 =
    declares_bit _ (indicator-CarriesPcr p c byte5) (rw (indicator-outside p 3 (omega arith)) byte3)
    ∙ rw (flags_octet p c byte5) (
        ground (
          arith,
          set_bit_7 (get_or p 5 0) byte5,
          bit_7 (bit_or (get_or p 5 0) 0x80) (omega (arith, set_bit_7 (get_or p 5 0) byte5)),
        ))
