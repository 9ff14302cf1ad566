-- ===== src/Grid/Alone.antt =====
-- src/scheduler.rs, `StreamGrid`: what a packet does to a grid, apart from the queue of placed packets.
use mpegts_pacer.Prelude.{
  ℕ, ◌+◌, ◌-◌, ◌≤◌, ◌<◌, ◌≡◌, refl, sym, ap, ◌∙◌, false, none, List, [], ◌∷◌, ◌++◌, length,
  length-append, append-nil, append_assoc, ltb, arith, max, wrap_add, sat_mul, ◌/◌, tail,
  Bool-cases, inl, inr,
}
use mpegts_pacer.Prelude.Int.{pos}
use mpegts_pacer.Packet.{Packet}
use mpegts_pacer.Grid.{StreamGrid, queue_placed, place_one, place_run, spread, ready_to_place}

-- The grid as the stream has made it: with nothing placed, room for its run, and no arrival time.
unfoldable pub alone : StreamGrid → StreamGrid
alone g = record g {
  open_at = none;
  placed = [];
  bases = [];
  taken_base = pos 0;
  capacity = length g.run + 1;
}

-- The end of a list.
abbrev pub IsSuffix : List (ℕ × Packet) → List (ℕ × Packet) → Type 0
IsSuffix xs ys = (front : List (ℕ × Packet)) × (ys ≡ front ++ xs)

pub IsSuffix-trans :
    (xs ys zs : List (ℕ × Packet)) → IsSuffix xs ys → IsSuffix ys zs → IsSuffix xs zs
IsSuffix-trans xs ys zs (f, e) (f', e') =
    (f' ++ f, e' ∙ ap (λ t. f' ++ t) e ∙ sym (append_assoc f' f xs))

pub IsSuffix-append :
    (xs ys zs : List (ℕ × Packet)) → IsSuffix xs ys → IsSuffix (xs ++ zs) (ys ++ zs)
IsSuffix-append xs ys zs (f, e) = (f, ap (λ t. t ++ zs) e ∙ append_assoc f xs zs)

pub IsSuffix-eq : (xs ys zs : List (ℕ × Packet)) → zs ≡ ys → IsSuffix xs ys → IsSuffix xs zs
IsSuffix-eq xs ys zs e (f, e') = (f, e ∙ e')

-- Two grids that the stream has made alike.
abbrev Alike : StreamGrid → StreamGrid → Type 0
Alike g h = alone g ≡ alone h

queue_placed-IsSuffix :
    (placed : List (ℕ × Packet)) (capacity slot : ℕ) (p : Packet)
    → IsSuffix (queue_placed placed capacity slot p).0 (placed ++ ((slot, p) ∷ []))
unfolding queue_placed
queue_placed-IsSuffix placed capacity slot p =
    let queued : List (ℕ × Packet) = placed ++ ((slot, p) ∷ []) in
    elim (Bool-cases (ltb capacity (length queued))) [
      | inl e ↦ rw e (shorter queued (omega (arith, length-append placed ((slot, p) ∷ []))))
      | inr e ↦ rw e ([], refl)
    ]
  where
    shorter : (xs : List (ℕ × Packet)) → 0 < length xs → IsSuffix (tail xs) xs
    shorter [] h = absurd (omega (arith, h))
    shorter (x ∷ xs) h = (x ∷ [], refl)

queue_placed-roomy :
    (placed : List (ℕ × Packet)) (capacity slot : ℕ) (p : Packet)
    → length placed < capacity
    → (queue_placed placed capacity slot p).0 ≡ placed ++ ((slot, p) ∷ [])
unfolding queue_placed
queue_placed-roomy placed capacity slot p h =
    let queued : List (ℕ × Packet) = placed ++ ((slot, p) ∷ []) in
    let fits : ltb capacity (length queued) ≡ false =
      ground (arith, length-append placed ((slot, p) ∷ []), h) in
    rw fits refl

place_one-Alike :
    (g h : StreamGrid) (p : Packet) (index open_slot span count : ℕ)
    → Alike g h
    → Alike
        (place_one g p index open_slot span count).0
        (place_one h p index open_slot span count).0
unfolding place_one alone
place_one-Alike g h p index open_slot span count e =
    ap (λ b. alone (place_one b p index open_slot span count).0) e

place_run-Alike :
    (g h : StreamGrid) (rest : List Packet) (index open_slot span count : ℕ)
    → Alike g h
    → Alike
        (place_run g rest index open_slot span count).0
        (place_run h rest index open_slot span count).0
unfolding place_run
place_run-Alike g h [] index open_slot span count e = e
place_run-Alike g h (p ∷ rest) index open_slot span count e =
    place_run-Alike (place_one g p index open_slot span count).0
      (place_one h p index open_slot span count).0 rest (index + 1) open_slot span count
      (place_one-Alike g h p index open_slot span count e)

next_free-Alike : (g h : StreamGrid) → Alike g h → g.next_free ≡ h.next_free
unfolding alone
next_free-Alike g h e = ap (λ b. let n : ℕ = b.next_free in n) e

-- A queue with room takes what is placed; any other one ends in the same.
place_run-placed :
    (g h : StreamGrid) (rest : List Packet) (index open_slot span count : ℕ)
    → Alike g h
    → length h.placed + length rest ≤ h.capacity
    → let g' = (place_run g rest index open_slot span count).0 in
      let h' = (place_run h rest index open_slot span count).0 in
      (new : List (ℕ × Packet)) × (h'.placed ≡ h.placed ++ new)
      × IsSuffix g'.placed (g.placed ++ new)
unfolding place_run place_one
place_run-placed g h [] index open_slot span count e room =
    ([], sym (append-nil h.placed), ([], append-nil g.placed))
place_run-placed g h (p ∷ rest) index open_slot span count e room =
    let slot_g = max (wrap_add open_slot (sat_mul index span / count)) g.next_free in
    let slot_h = max (wrap_add open_slot (sat_mul index span / count)) h.next_free in
    let same : slot_g ≡ slot_h =
      ap (λ n. max (wrap_add open_slot (sat_mul index span / count)) n) (next_free-Alike g h e) in
    let one : List (ℕ × Packet) = (slot_h, p) ∷ [] in
    let first : (place_one h p index open_slot span count).0.placed ≡ h.placed ++ one =
      queue_placed-roomy h.placed h.capacity slot_h p (omega (arith, room)) in
    let longer : length (place_one h p index open_slot span count).0.placed ≡ length h.placed + 1 =
      ap length first ∙ length-append h.placed one in
    let (new, more, suffix) =
      place_run-placed (place_one g p index open_slot span count).0
        (place_one h p index open_slot span count).0 rest (index + 1) open_slot span count
        (place_one-Alike g h p index open_slot span count e) (omega (arith, longer, room)) in
    (
      one ++ new,
      more ∙ ap (λ t. t ++ new) first ∙ append_assoc h.placed one new,
      IsSuffix-trans _ _ _ suffix (
          IsSuffix-eq _ _ _ (sym (append_assoc g.placed one new)) (
            IsSuffix-append _ _ new (
              IsSuffix-eq _ _ _
                (ap (λ n. let out : List (ℕ × Packet) = g.placed ++ ((n, p) ∷ []) in out)
                  (sym same))
                (queue_placed-IsSuffix g.placed g.capacity slot_g p)))),
    )

pub spread-alone :
    (g : StreamGrid) (open_slot next_slot : ℕ)
    → alone (spread g open_slot next_slot).0 ≡ alone (spread (alone g) open_slot next_slot).0
unfolding spread alone
spread-alone g open_slot next_slot =
    let span = next_slot - open_slot in
    ap
      (λ b.
        let out : StreamGrid = record b {
          displacement_high_water = max b.displacement_high_water (b.next_free - next_slot);
        } in
        out)
      (place_run-Alike (ready_to_place g span) (ready_to_place (alone g) span) g.run 0 open_slot
        span (length g.run) refl)

pub spread-placed :
    (g : StreamGrid) (open_slot next_slot : ℕ)
    → IsSuffix
        (spread g open_slot next_slot).0.placed
        (g.placed ++ (spread (alone g) open_slot next_slot).0.placed)
unfolding spread alone
spread-placed g open_slot next_slot =
    let span = next_slot - open_slot in
    let (new, all, suffix) =
      place_run-placed (ready_to_place g span) (ready_to_place (alone g) span) g.run 0 open_slot
        span (length g.run) refl (omega arith) in
    rw all suffix
