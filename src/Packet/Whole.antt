-- ===== src/Packet/Whole.antt =====
-- What is done to the bytes of a packet on its way out keeps it a packet: its length and sync byte.
use mpegts_pacer.Prelude.{
  ℕ, ◌≡◌, refl, inl, inr, ◌∙◌, List, length, get_or, arith, is_some, Bool-cases, ◌%◌,
}
use mpegts_pacer.Pcr.{
  read_pcr, write_pcr, set_discontinuity_indicator, ts_packet_size, pcr_wrap_ticks,
}
use mpegts_pacer.Pcr.Fields.{
  CarriesPcr, write_pcr-outside, length-write_pcr, write_pcr-CarriesPcr, indicator-outside,
  length-indicator,
}
use mpegts_pacer.Pcr.Regen.{PcrRegen, set_discontinuity_indicator_if, rewrite, rewrite_absolute}
use mpegts_pacer.Pcr.Regen.Lock.{rewrite-outside}
use mpegts_pacer.Packet.{sync_byte, null_packet, pcr_only_packet}
use mpegts_pacer.Packet.Stuffing.{header, header-CarriesPcr}

-- As long as a packet, and begun like one.
abbrev pub IsWhole : List ℕ → Type 0
IsWhole p = (length p ≡ ts_packet_size) × (get_or p 0 0 ≡ sync_byte)

pub null_packet-IsWhole : IsWhole null_packet
unfolding null_packet
null_packet-IsWhole = (refl, refl)

pub pcr_only_packet-IsWhole : (n counter t : ℕ) → IsWhole (pcr_only_packet n counter t)
unfolding pcr_only_packet header
pcr_only_packet-IsWhole n counter t =
    let c : CarriesPcr (write_pcr (header n counter) 6 t) =
      write_pcr-CarriesPcr (header n counter) t (header-CarriesPcr n counter) in
    (c.whole, c.synced)

pub indicator-IsWhole : (p : List ℕ) → IsWhole p → IsWhole (set_discontinuity_indicator p).0
indicator-IsWhole p (whole, synced) =
    (length-indicator p ∙ whole, indicator-outside p 0 (omega arith) ∙ synced)

write_pcr-IsWhole : (p : List ℕ) (t : ℕ) → IsWhole p → IsWhole (write_pcr p 6 t)
write_pcr-IsWhole p t (whole, synced) =
    (length-write_pcr p t ∙ whole, write_pcr-outside p t 0 (omega arith) ∙ synced)

pub rewrite-IsWhole : (r : PcrRegen) (p : List ℕ) (i : ℕ) → IsWhole p → IsWhole (rewrite r p i).1
rewrite-IsWhole r p i (whole, synced) =
    let (same, long) = rewrite-outside r p i 0 (omega arith) in (long ∙ whole, same ∙ synced)

pub rewrite_absolute-IsWhole :
    (r : PcrRegen) (p : List ℕ) (t : ℕ) → IsWhole p → IsWhole (rewrite_absolute r p t).1
unfolding rewrite_absolute set_discontinuity_indicator_if
rewrite_absolute-IsWhole r p t w =
    let written = write_pcr-IsWhole p (t % pcr_wrap_ticks) w in
    elim (Bool-cases (is_some (read_pcr p))) [
      | inl e ↦ elim (Bool-cases r.flag_next) [
        | inl f ↦ rw (e, f) (indicator-IsWhole (write_pcr p 6 (t % pcr_wrap_ticks)) written)
        | inr f ↦ rw (e, f) written
      ]
      | inr e ↦ rw e w
    ]
