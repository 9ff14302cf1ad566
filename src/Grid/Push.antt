-- ===== src/Grid/Push.antt =====
-- What one packet does to the grid: the invariant of the placed packets, and none lost uncounted.
use mpegts_pacer.Prelude.{
  ℕ, ◌+◌, ◌-◌, ◌≤◌, ◌<◌, ◌≡◌, refl, sym, ap, ◌∙◌, Bool, true, false, ◌&&◌, ◌||◌, Option, none, some,
  List, [], ◌∷◌, ◌++◌, length, length-append, ◌==◌, arith, u64_mod, u64_max, Bool-cases,
  Option-cases, inl, inr, is_none, ==→eq,
}
use mpegts_pacer.Prelude.Int.{ℤ, ltb_ℤ, pos, ◌+ℤ◌}
use mpegts_pacer.Pcr.{declares_discontinuity}
use mpegts_pacer.Packet.{Packet, pcr}
use mpegts_pacer.Slot.{slot_of_pcr}
use mpegts_pacer.Grid.{
  StreamGrid, new, splice, rebase, carry, slot_after, slot_against, slot_for, note_continuity,
  place_one, place_run, spread, ready_to_place, close_run, settle, push_pcr, push_on, push,
  since_open, interval_missed,
}
use mpegts_pacer.Grid.Take.{Ordered}
use mpegts_pacer.Grid.Place.{held, close_run_lem, close_run-opened}

-- The placed packets have strictly rising slots below the first free one, no more of them than the
-- bound; and no run is open before the first PCR.
pub record IsGrid (g : StreamGrid) : Type 0 where
  pub ordered : Ordered 0 g.placed g.next_free
  pub bounded : length g.placed ≤ g.capacity
  pub positive : 0 < g.capacity
  pub opened_first : is_none g.opened ≡ true → length g.run ≡ 0

pub new-IsGrid : (rate capacity : ℕ) → IsGrid (new rate capacity)
unfolding new
new-IsGrid rate capacity = record {
  ordered = omega arith;
  bounded = omega arith;
  positive = omega arith;
  opened_first = λ h. refl;
}

-- What placing a run leaves alone.
abbrev Beside : StreamGrid → StreamGrid → Type 0
Beside g h = (h.cut ≡ g.cut) × (h.capacity ≡ g.capacity) × (h.opened ≡ g.opened) × (h.run ≡ g.run)

place_run-Beside :
    (g : StreamGrid) (rest : List Packet) (index open_slot span count : ℕ)
    → Beside g (place_run g rest index open_slot span count).0
unfolding place_run place_one
place_run-Beside g [] index open_slot span count = (refl, refl, refl, refl)
place_run-Beside g (p ∷ rest) index open_slot span count =
    place_run-Beside (place_one g p index open_slot span count).0 rest (index + 1) open_slot span
      count

-- Closing a run empties it and leaves the cuts and the bound alone.
close_run-Beside :
    (g : StreamGrid) (open_pcr open_slot next_slot : ℕ)
    → g.opened ≡ some (open_pcr, open_slot)
    → let g' = (close_run g next_slot).0 in
      (g'.cut ≡ g.cut) × (g'.capacity ≡ g.capacity) × (length g'.run ≡ 0)
unfolding spread
close_run-Beside g open_pcr open_slot next_slot o = elim (Bool-cases (length g.run == 0)) [
  | inl e ↦ rw (close_run-opened g next_slot o, e) (refl, refl, ==→eq (length g.run) 0 e)
  | inr e ↦
      let span = next_slot - open_slot in
      let (cut, cap, opened, run) =
        place_run-Beside (ready_to_place g span) g.run 0 open_slot span (length g.run) in
      rw (close_run-opened g next_slot o, e) (cut, cap, ap length run)
]

-- Every packet of the grid and of its run accounted for, with `lost` cut or dropped on the way.
abbrev pub Settles : StreamGrid → StreamGrid × ℕ → Type 0
Settles g (g', dropped) =
    Ordered 0 g'.placed g'.next_free
    × (length g'.placed ≤ g'.capacity)
    × (0 < g'.capacity)
    × (length g'.placed + dropped + g'.cut ≡ held g + g.cut)

-- The slot at which the open run begins.
abbrev pub open_slot_of : Option (ℕ × ℕ) → ℕ
open_slot_of none = 0
open_slot_of (some (open_pcr, open_slot)) = open_slot

-- No slot and no counter comes near the end of u64 as the run is closed at `slot`.
pub record Fits (g : StreamGrid) (slot top : ℕ) : Type 0 where
  pub opens : open_slot_of g.opened ≤ top
  pub closes : slot ≤ top
  pub free : g.next_free ≤ top
  pub small : top + length g.run < u64_mod
  pub cuts : g.cut + length g.run ≤ u64_max

settle_lem :
    (g : StreamGrid) (slot top : ℕ) (lost : Bool)
    → IsGrid g
    → Fits g slot top
    → Settles g (settle g slot lost)
unfolding settle
settle_lem g slot top lost v f = elim (Option-cases g.opened) [
  | inl e ↦
      let shut : is_none g.opened ≡ true = ap is_none e in
      rw shut (v.ordered, v.bounded, v.positive, omega (arith, v.opened_first shut))
  | inr ((open_pcr, open_slot), e) ↦
      let shut : is_none g.opened ≡ false = ap is_none e in
      elim (Bool-cases lost) [
        | inl l ↦ rw (shut, l) (v.ordered, v.bounded, v.positive, omega (arith, f.cuts))
        | inr l ↦
            let opens : open_slot ≤ top = rw e at f.opens in
            let (order, conserved, bound) =
              close_run_lem g open_pcr open_slot slot top e opens f.closes f.free f.small v.positive
                v.ordered v.bounded in
            let (cut, cap, run) = close_run-Beside g open_pcr open_slot slot e in
            rw (shut, l)
              (
                order,
                omega (arith, bound, cap),
                omega (arith, cap, v.positive),
                omega (arith, conserved, cut, run),
              )
      ]
]

-- Giving a PCR its slot moves the grid's time base and nothing else.
pub slot_for-shape :
    (g : StreamGrid) (pcr since : ℕ) (declared : Bool) (horizon : Option ℕ)
    (P : StreamGrid → Type 0)
    → ((epoch rebased : ℤ) (rebases : ℕ)
        → P (record g { epoch = epoch; rebased = rebased; rebases = rebases }))
    → P (slot_for g pcr declared since horizon).0
unfolding slot_for slot_against slot_after rebase carry
slot_for-shape g pcr since declared horizon P all = shape g.opened
  where
    shape : (o : Option (ℕ × ℕ)) → P (slot_against g o pcr declared since horizon).0
    shape none = all g.epoch g.rebased g.rebases
    shape (some (open_pcr, open_slot)) =
        elim (Bool-cases (splice g open_pcr open_slot pcr declared since horizon)) [
          | inl e ↦ rw e (all _ _ _)
          | inr e ↦
              elim (Bool-cases (ltb_ℤ (pos (slot_of_pcr g.map pcr) +ℤ g.epoch) (pos open_slot))) [
                | inl k ↦ rw (e, k) (all _ _ _)
                | inr k ↦ rw (e, k) (all g.epoch g.rebased g.rebases)
              ]
        ]

-- The invariant holds again, and the packet is held, dropped or cut, as every other one.
abbrev pub Takes : StreamGrid → StreamGrid × ℕ → Type 0
Takes g (g', dropped) = IsGrid g' × (held g' + dropped + g'.cut ≡ held g + g.cut + 1)

push_pcr_lem :
    (g : StreamGrid) (packet : Packet) (value now : ℕ) (horizon : Option ℕ) (top : ℕ)
    → IsGrid g
    → Fits g
        (slot_for g value
          (declares_discontinuity packet.bytes)
          (since_open g.open_at now)
          horizon).1
        top
    → Takes g (push_pcr g packet value now horizon)
unfolding push_pcr
push_pcr_lem g packet value now horizon top v f =
    let (order, bound, positive, conserved) = settled (
      interval (
        slot_for g value (declares_discontinuity packet.bytes) (since_open g.open_at now)
          horizon)) in
    (
      record {
        ordered = order;
        bounded = bound;
        positive = positive;
        opened_first = λ h. ground arith;
      },
      omega (arith, conserved),
    )
  where
    interval : StreamGrid × ℕ × Bool → Bool
    interval (g1, slot, after_silence) =
        after_silence || g1.run_broken && interval_missed g1 g1.opened slot

    settled :
        (lost : Bool)
        → let s =
            slot_for g value
              (declares_discontinuity packet.bytes)
              (since_open g.open_at now)
              horizon in
          Settles g (settle (record s.0 { run_broken = false }) s.1 lost)
    settled lost =
        let s =
          slot_for g value (declares_discontinuity packet.bytes) (since_open g.open_at now)
            horizon in
        slot_for-shape g value (since_open g.open_at now) (declares_discontinuity packet.bytes)
          horizon (λ h. Settles g (settle (record h { run_broken = false }) s.1 lost))
          (λ epoch rebased rebases.
            settle_lem
              (record g { epoch = epoch; rebased = rebased; rebases = rebases; run_broken = false })
              s.1 top lost
              (record {
                ordered = v.ordered;
                bounded = v.bounded;
                positive = v.positive;
                opened_first = v.opened_first;
              })
              (record {
                opens = f.opens;
                closes = f.closes;
                free = f.free;
                small = f.small;
                cuts = f.cuts;
              }))

-- The slot that a packet's PCR is given; without a PCR, that of the open run.
abbrev pub slot_given : StreamGrid → Packet → ℕ → Option ℕ → Option ℕ → ℕ
slot_given g packet now horizon none = 0
slot_given g packet now horizon (some value) =
    (slot_for g value (declares_discontinuity packet.bytes) (since_open g.open_at now) horizon).1

noted-IsGrid : (g : StreamGrid) (packet : Packet) → IsGrid g → IsGrid (note_continuity g packet)
unfolding note_continuity
noted-IsGrid g packet v = record {
  ordered = v.ordered;
  bounded = v.bounded;
  positive = v.positive;
  opened_first = v.opened_first;
}

push_on_lem :
    (g : StreamGrid) (packet : Packet) (now : ℕ) (horizon o : Option ℕ) (top : ℕ)
    → IsGrid g
    → Fits g (slot_given g packet now horizon o) top
    → Takes g (push_on g packet now horizon o)
unfolding push_on
push_on_lem g packet now horizon (some value) top v f =
    push_pcr_lem g packet value now horizon top v f
push_on_lem g packet now horizon none top v f = elim (Bool-cases (is_none g.opened)) [
  | inl n ↦ rw n (v, omega arith)
  | inr n ↦ rw n (
    record {
      ordered = v.ordered;
      bounded = v.bounded;
      positive = v.positive;
      opened_first = λ h. clash (sym n ∙ h);
    },
    omega (arith, length-append g.run (packet ∷ [])),
  )
]
  where
    clash : false ≡ true → length (g.run ++ (packet ∷ [])) ≡ 0
    clash h = ground arith

-- A packet pushed on the grid keeps the invariant, and it is held in the run or the placed packets,
-- or counted: dropped before the first PCR or by the bound, or cut with a run whose closing PCR was
-- missed. So is every packet that the grid held, as long as no slot and no counter is near 2^64.
pub push_lem :
    (g : StreamGrid) (packet : Packet) (now : ℕ) (horizon : Option ℕ) (top : ℕ)
    → IsGrid g
    → Fits g (slot_given (note_continuity g packet) packet now horizon (pcr packet)) top
    → Takes g (push g packet now horizon)
unfolding push note_continuity
push_lem g packet now horizon top v f =
    push_on_lem (note_continuity g packet) packet now horizon (pcr packet) top
      (noted-IsGrid g packet v)
      (record { opens = f.opens; closes = f.closes; free = f.free; small = f.small; cuts = f.cuts })
