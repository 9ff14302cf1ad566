-- ===== src/Grid/Place.antt =====
-- Where a run lands: strictly rising slots, its own interval when it fits, and no packet lost
-- uncounted.
use native.Mathlib.Nat.{
  mul-div_cancel_left, mod-eq_of_lt, div-le_of_le-mul, div-mul-le_self, le-div_iff_mul-le,
}
use mpegts_pacer.Prelude.{
  ℕ, ◌+◌, ◌-◌, ◌*◌, ◌/◌, ◌≤◌, ◌<◌, ◌≡◌, refl, sym, ap, ◌∙◌, inl, inr, false, some, List, [], ◌∷◌,
  ◌++◌, ltb, ◌==◌, le→ltb_false, if◌then◌else◌, length, length-append, append-nil, append_assoc,
  arith, tail, Bool-cases, max, sat_mul, wrap_add, u64_mod, u64_max,
}
use mpegts_pacer.Packet.{Packet}
use mpegts_pacer.Grid.{
  StreamGrid, queue_placed, place_one, place_run, ready_to_place, spread, close_at, close_run,
}
use mpegts_pacer.Grid.Take.{Ordered, Ordered-append, Ordered-tail}

-- A packet's share of its span: at most the span, and a step of one or more where the run fits.
share : ℕ → ℕ → ℕ → ℕ
share index span count = sat_mul index span / count

mul-mono_left : (a b c : ℕ) → a ≤ b → a * c ≤ b * c
mul-mono_left a b c h = grind arith

share-le : (index span count : ℕ) → index < count → share index span count ≤ span
unfolding share
share-le index span count h =
    div-le_of_le-mul count (omega (arith, mul-mono_left index count span (omega arith)))

length-tail {ℓ} : {A : Type ℓ} (xs : List A) → length (tail xs) ≡ length xs - 1
length-tail [] = omega arith
length-tail (x ∷ xs) = omega arith

-- Queuing past everything placed keeps the order; one packet goes in, and at most one comes out.
queue_placed_lem :
    (placed : List (ℕ × Packet)) (capacity slot free : ℕ) (packet : Packet)
    → Ordered 0 placed free
    → free ≤ slot
    → 0 < capacity
    → let (queue, dropped) = queue_placed placed capacity slot packet in
      Ordered 0 queue (slot + 1)
      × (length queue + dropped ≡ length placed + 1)
      × (length placed ≤ capacity → length queue ≤ capacity)
unfolding queue_placed
queue_placed_lem placed capacity slot free packet o le pos =
    let queued : List (ℕ × Packet) = placed ++ ((slot, packet) ∷ []) in
    let order : Ordered 0 queued (slot + 1) =
      Ordered-append 0 placed free slot (slot + 1) packet o le (omega arith) in
    let long : length queued ≡ length placed + 1 = length-append placed ((slot, packet) ∷ []) in
    elim (Bool-cases (ltb capacity (length queued))) [
      | inl e ↦ rw e (
        Ordered-tail 0 queued (slot + 1) order,
        omega (arith, long, length-tail queued),
        λ h. omega (arith, long, length-tail queued),
      )
      | inr e ↦ rw e (order, omega (arith, long), λ h. ground (arith, e))
    ]

-- The slot that a packet of the run is given.
abbrev slot_given : ℕ → ℕ → ℕ → ℕ → ℕ → ℕ
slot_given free index open_slot span count = max (open_slot + share index span count) free

module _ (g : StreamGrid) (packet : Packet) (index open_slot span count top : ℕ) where
  -- What a placed packet does to the grid, as long as no slot comes near the end of u64.
  place_one_lem :
      index < count
      → open_slot + span ≤ top
      → g.next_free ≤ top
      → top + 1 < u64_mod
      → Ordered 0 g.placed g.next_free
      → 0 < g.capacity
      → let (g', dropped) = place_one g packet index open_slot span count in
        (g'.next_free ≡ slot_given g.next_free index open_slot span count + 1)
        × Ordered 0 g'.placed g'.next_free
        × (length g'.placed + dropped ≡ length g.placed + 1)
        × (length g.placed ≤ g.capacity → length g'.placed ≤ g.capacity)
  unfolding place_one share
  place_one_lem hi fits free small o pos =
      let in_span : sat_mul index span / count ≤ span = share-le index span count hi in
      let plain : wrap_add open_slot (sat_mul index span / count)
          ≡ open_slot + sat_mul index span / count =
        mod-eq_of_lt (omega arith) in
      let next : wrap_add (slot_given g.next_free index open_slot span count) 1
          ≡ slot_given g.next_free index open_slot span count + 1 =
        mod-eq_of_lt (omega arith) in
      let (order, count', bound) =
        queue_placed_lem g.placed g.capacity (slot_given g.next_free index open_slot span count)
          g.next_free packet o (omega arith) pos in
      rw (plain, next) (refl, order, count', bound)

module _ (g : StreamGrid) (packet : Packet) (index open_slot span count : ℕ) where
  keeps_capacity : 0 < g.capacity → 0 < (place_one g packet index open_slot span count).0.capacity
  unfolding place_one
  keeps_capacity h = h

  same_capacity :
      {n m : ℕ}
      → (m ≤ (place_one g packet index open_slot span count).0.capacity
          → n ≤ (place_one g packet index open_slot span count).0.capacity)
      → m ≤ g.capacity
      → n ≤ g.capacity
  unfolding place_one
  same_capacity f h = f h

-- What a run leaves behind, wherever it was placed.
record Placed (g : StreamGrid) (n top : ℕ) (out : StreamGrid × ℕ) : Type 0 where
  ordered : Ordered 0 out.0.placed out.0.next_free
  conserved : length out.0.placed + out.1 ≡ length g.placed + n
  bounded : length g.placed ≤ g.capacity → length out.0.placed ≤ g.capacity
  free : out.0.next_free ≤ top + n

place_run_lem :
    (g : StreamGrid) (rest : List Packet) (index open_slot span count top : ℕ)
    → index + length rest ≤ count
    → open_slot + span ≤ top
    → g.next_free ≤ top
    → top + length rest < u64_mod
    → Ordered 0 g.placed g.next_free
    → 0 < g.capacity
    → Placed g (length rest) top (place_run g rest index open_slot span count)
unfolding place_run
place_run_lem g [] index open_slot span count top hi fits free small o pos = record {
  ordered = o;
  conserved = omega arith;
  bounded = λ h. h;
  free = omega arith;
}
place_run_lem g (p ∷ rest) index open_slot span count top hi fits free small o pos =
    let g' = (place_one g p index open_slot span count).0 in
    let (next, order, conserve, bound) =
      place_one_lem g p index open_slot span count top (omega arith) fits free (omega arith) o
        pos in
    let in_span : share index span count ≤ span = share-le index span count (omega arith) in
    let step =
      place_run_lem g' rest (index + 1) open_slot span count (top + 1) (omega arith) (omega arith)
        (omega (arith, next)) (omega arith) order
        (keeps_capacity g p index open_slot span count pos) in
    record {
      ordered = step.ordered;
      conserved = omega (arith, step.conserved, conserve);
      bounded = λ h. same_capacity g p index open_slot span count step.bounded (bound h);
      free = omega (arith, step.free);
    }

-- The packets of the grid that are still to be transmitted or placed.
abbrev pub held : StreamGrid → ℕ
held g = length g.placed + length g.run

pub place_run-run :
    (g : StreamGrid) (rest : List Packet) (index open_slot span count : ℕ)
    → (place_run g rest index open_slot span count).0.run ≡ g.run
unfolding place_run
place_run-run g [] index open_slot span count = refl
place_run-run g (p ∷ rest) index open_slot span count =
    place_run-run (place_one g p index open_slot span count).0 rest (index + 1) open_slot span count

pub close_run-opened :
    (g : StreamGrid) {open_pcr open_slot : ℕ} (next_slot : ℕ)
    → g.opened ≡ some (open_pcr, open_slot)
    → close_run g next_slot ≡ (if length g.run == 0 then (g, 0) else spread g open_slot next_slot)
unfolding close_run
close_run-opened g next_slot e = ap (λ o. close_at g o next_slot) e

-- Closing a run keeps the placed packets in strictly rising slots below the first free one, and
-- within the bound; each packet of the run is placed or pushes one out that is counted as dropped.
pub close_run_lem :
    (g : StreamGrid) (open_pcr open_slot next_slot top : ℕ)
    → g.opened ≡ some (open_pcr, open_slot)
    → open_slot ≤ top
    → next_slot ≤ top
    → g.next_free ≤ top
    → top + length g.run < u64_mod
    → 0 < g.capacity
    → Ordered 0 g.placed g.next_free
    → length g.placed ≤ g.capacity
    → let (g', dropped) = close_run g next_slot in
      Ordered 0 g'.placed g'.next_free
      × (held g' + dropped ≡ held g)
      × (length g'.placed ≤ g.capacity)
unfolding spread
close_run_lem g open_pcr open_slot next_slot top opened le_open le_next free small pos o bound =
    elim (Bool-cases (length g.run == 0)) [
      | inl e ↦ rw (close_run-opened g next_slot opened, e) (o, omega arith, bound)
      | inr e ↦
          let span = next_slot - open_slot in
          let step =
            place_run_lem (ready span) g.run 0 open_slot span (length g.run) top (omega arith)
              (omega arith) free small o pos in
          let empty = place_run-run (ready span) g.run 0 open_slot span (length g.run) in
          rw (close_run-opened g next_slot opened, e, empty)
            (step.ordered, omega (arith, step.conserved), step.bounded bound)
    ]
  where
    ready : ℕ → StreamGrid
    ready span = ready_to_place g span

-- A run spread evenly: the slots that the source's own PCR values imply.
unfoldable pub even : ℕ → ℕ → ℕ → ℕ → List Packet → List (ℕ × Packet)
even index open_slot span count [] = []
even index open_slot span count (p ∷ rest) =
    (open_slot + index * span / count, p) ∷ even (index + 1) open_slot span count rest

-- The share grows by one slot or more per packet when the run fits its span.
share_step :
    (index span count : ℕ)
    → 0 < count
    → count ≤ span
    → index * span / count + 1 ≤ (index + 1) * span / count
share_step index span count pos fits =
    let more : (index + 1) * span ≡ index * span + span = omega arith in
    (le-div_iff_mul-le {k = count} pos).1
      (omega (arith, more, div-mul-le_self (index * span) count))

place_one-even :
    (g : StreamGrid) (p : Packet) (index open_slot span count : ℕ)
    → index < count
    → index * span ≤ u64_max
    → open_slot + span + 1 < u64_mod
    → index * span / count ≤ span
    → g.next_free ≤ open_slot + index * span / count
    → length g.placed < g.capacity
    → let (g', dropped) = place_one g p index open_slot span count in
      (g'.placed ≡ g.placed ++ ((open_slot + index * span / count, p) ∷ []))
      × (g'.next_free ≡ open_slot + index * span / count + 1)
      × (dropped ≡ 0)
      × (g'.capacity ≡ g.capacity)
unfolding place_one queue_placed
place_one-even g p index open_slot span count hi small top le free room =
    let exact : sat_mul index span ≡ index * span = omega arith in
    let slot : max (wrap_add open_slot (sat_mul index span / count)) g.next_free
        ≡ open_slot + index * span / count =
      rw (exact, mod-eq_of_lt (near_top (open_slot + index * span / count) (omega arith)))
        (omega arith) in
    let queued : length (g.placed ++ ((open_slot + index * span / count, p) ∷ []))
        ≡ length g.placed + 1 =
      length-append g.placed ((open_slot + index * span / count, p) ∷ []) in
    let fits : ltb g.capacity (length (g.placed ++ ((open_slot + index * span / count, p) ∷ [])))
        ≡ false =
      le→ltb_false _ _ (omega (arith, queued)) in
    rw (slot, fits) (refl, mod-eq_of_lt (omega arith), refl, refl)
  where
    near_top : (n : ℕ) → n < u64_mod → n < u64_mod
    near_top n h = h

place_run-even :
    (g : StreamGrid) (rest : List Packet) (index open_slot span count : ℕ)
    → index + length rest ≡ count
    → 0 < count
    → count ≤ span
    → count * span ≤ u64_max
    → open_slot + span + 1 < u64_mod
    → g.next_free ≤ open_slot + index * span / count
    → length g.placed + length rest ≤ g.capacity
    → let (g', dropped) = place_run g rest index open_slot span count in
      (g'.placed ≡ g.placed ++ even index open_slot span count rest)
      × (g'.next_free ≤ open_slot + span)
      × (dropped ≡ 0)
unfolding place_run even
place_run-even g [] index open_slot span count all pos fits small top free room =
    let last : index * span / count ≡ span =
      let e : index ≡ count = omega arith in rw (e, mul-div_cancel_left span pos) in
    (sym (append-nil g.placed), omega arith, refl)
place_run-even g (p ∷ rest) index open_slot span count all pos fits small top free room =
    let product : index * span ≤ count * span = mul-mono_left index count span (omega arith) in
    let in_span : index * span / count ≤ span = div-le_of_le-mul count product in
    let (placed, next, none_dropped, cap) =
      place_one-even g p index open_slot span count (omega arith) (omega arith) top in_span free
        (omega arith) in
    let longer : length (place_one g p index open_slot span count).0.placed ≡ length g.placed + 1 =
      rw placed (length-append g.placed ((open_slot + index * span / count, p) ∷ [])) in
    let (placed', free', dropped') =
      place_run-even (place_one g p index open_slot span count).0 rest (index + 1) open_slot span
        count (omega arith) pos fits small top
        (omega (arith, next, share_step index span count pos fits)) (omega (arith, longer, cap)) in
    (
      placed'
          ∙ rw placed (
              append_assoc g.placed ((open_slot + index * span / count, p) ∷ [])
                (even (index + 1) open_slot span count rest)),
      free',
      omega (arith, none_dropped, dropped'),
    )

place_run-high_water :
    (g : StreamGrid) (rest : List Packet) (index open_slot span count : ℕ)
    → (place_run g rest index open_slot span count).0.displacement_high_water
      ≡ g.displacement_high_water
unfolding place_run
place_run-high_water g [] index open_slot span count = refl
place_run-high_water g (p ∷ rest) index open_slot span count =
    place_run-high_water (place_one g p index open_slot span count).0 rest (index + 1) open_slot
      span count

-- A run that fits the span to the next PCR, on a grid with nothing spilled into it and room for it,
-- is spread evenly over its own span and no further: no packet is dropped, the displacement stays
-- what it was, and the next run finds its own span free too.
pub close_run-even :
    (g : StreamGrid) (open_pcr open_slot next_slot : ℕ)
    → g.opened ≡ some (open_pcr, open_slot)
    → 0 < length g.run
    → open_slot + length g.run ≤ next_slot
    → length g.run * (next_slot - open_slot) ≤ u64_max
    → next_slot + 1 < u64_mod
    → g.next_free ≤ open_slot
    → held g ≤ g.capacity
    → let (g', dropped) = close_run g next_slot in
      (g'.placed ≡ g.placed ++ even 0 open_slot (next_slot - open_slot) (length g.run) g.run)
      × (g'.next_free ≤ next_slot)
      × (dropped ≡ 0)
      × (g'.displacement_high_water ≡ g.displacement_high_water)
unfolding spread
close_run-even g open_pcr open_slot next_slot opened pos fits small top free room =
    let span = next_slot - open_slot in
    let count = length g.run in
    let test : (count == 0) ≡ false = ground arith in
    let (placed, next, dropped) =
      place_run-even (ready_to_place g span) g.run 0 open_slot span count (omega arith) pos
        (omega arith) small (omega arith) (omega arith) room in
    let water = place_run-high_water (ready_to_place g span) g.run 0 open_slot span count in
    rw (close_run-opened g next_slot opened, test)
      (placed, omega (arith, next), dropped, rw water (omega (arith, next)))
