-- ===== src/Grid/SlotFor.antt =====
-- src/scheduler.rs, `StreamGrid::slot_for`: which slot a PCR is given while the source clock runs on.
use mpegts_pacer.Prelude.{
  ℕ, ◌≡◌, refl, Bool, false, Option, some, if◌then◌else◌, Bool-cases, inl, inr,
}
use mpegts_pacer.Prelude.Int.{pos, ◌+ℤ◌, ltb_ℤ}
use mpegts_pacer.Slot.{slot_of_pcr, slots_per_wrap}
use mpegts_pacer.Grid.{
  StreamGrid, slot_at, jumped, splice, carry, slot_after, slot_against, slot_for,
}

pub splice_free :
    (g : StreamGrid) (open_pcr open_slot pcr since : ℕ) (horizon : Option ℕ)
    → jumped open_pcr pcr ≡ false
    → splice g open_pcr open_slot pcr false since horizon ≡ false
unfolding splice
splice_free g open_pcr open_slot pcr since horizon h = rw h refl

slot_for-opened :
    (g : StreamGrid) (open_pcr open_slot pcr since : ℕ) (declared : Bool) (horizon : Option ℕ)
    → g.opened ≡ some (open_pcr, open_slot)
    → slot_for g pcr declared since horizon
      ≡ slot_after g open_pcr open_slot pcr declared since horizon
unfolding slot_for slot_against
slot_for-opened g open_pcr open_slot pcr since declared horizon o = rw o refl

-- While the source clock runs on undeclared, by less than a discontinuity, the slot of a PCR depends
-- on the stream alone: neither the time since the open run's PCR arrived nor how far the leg has
-- transmitted changes the slot, the grid, or the reading that nothing was missed.
pub slot_for-path_free :
    (g : StreamGrid) (open_pcr open_slot pcr since since' : ℕ) (horizon horizon' : Option ℕ)
    → g.opened ≡ some (open_pcr, open_slot)
    → jumped open_pcr pcr ≡ false
    → (slot_for g pcr false since horizon ≡ slot_for g pcr false since' horizon')
      × ((slot_for g pcr false since horizon).2 ≡ false)
unfolding slot_after carry
slot_for-path_free g open_pcr open_slot pcr since since' horizon horizon' o h =
    rw
      (
        slot_for-opened g open_pcr open_slot pcr since false horizon o,
        slot_for-opened g open_pcr open_slot pcr since' false horizon' o,
        splice_free g open_pcr open_slot pcr since horizon h,
        splice_free g open_pcr open_slot pcr since' horizon' h,
      )
      (refl, silent)
  where
    silent :
        (if ltb_ℤ (pos (slot_of_pcr g.map pcr) +ℤ g.epoch) (pos open_slot)
          then carry g (slot_of_pcr g.map pcr) (g.epoch +ℤ pos (slots_per_wrap g.map))
          else (g, slot_at (slot_of_pcr g.map pcr) g.epoch, jumped open_pcr pcr)).2
        ≡ false
    silent = elim (Bool-cases (ltb_ℤ (pos (slot_of_pcr g.map pcr) +ℤ g.epoch) (pos open_slot))) [
      | inl e ↦ rw e refl
      | inr e ↦ rw e h
    ]
