-- ===== src/Grid/Close.antt =====
-- src/scheduler.rs, `StreamGrid::close_run`: what a closed run leaves in the queue of placed packets.
use mpegts_pacer.Prelude.{
  ℕ, zero, suc, ◌+◌, ◌-◌, ◌≤◌, ◌<◌, ◌≡◌, refl, sym, ap, ◌∙◌, inl, inr, some, List, [], ◌∷◌, ◌++◌,
  true, ltb, ◌==◌, length, length-append, append_assoc, append-nil, arith, tail, drop, length-drop,
  Bool-cases, u64_mod,
}
use mpegts_pacer.Packet.{Packet}
use mpegts_pacer.Grid.{
  StreamGrid, queue_placed, place_one, place_run, ready_to_place, spread, close_run,
}
use mpegts_pacer.Grid.Take.{Ordered}
use mpegts_pacer.Grid.Place.{held, close_run_lem, close_run-opened, place_run-run}

-- The packets of a queue, without their slots.
unfoldable pub packets_in : List (ℕ × Packet) → List Packet
packets_in [] = []
packets_in ((slot, p) ∷ rest) = p ∷ packets_in rest

packets_in-append :
    (xs ys : List (ℕ × Packet)) → packets_in (xs ++ ys) ≡ packets_in xs ++ packets_in ys
unfolding packets_in
packets_in-append [] ys = refl
packets_in-append ((slot, p) ∷ xs) ys = ap (λ t. p ∷ t) (packets_in-append xs ys)

packets_in-snoc :
    (xs : List (ℕ × Packet)) (slot : ℕ) (p : Packet)
    → packets_in (xs ++ ((slot, p) ∷ [])) ≡ packets_in xs ++ (p ∷ [])
unfolding packets_in
packets_in-snoc xs slot p = packets_in-append xs ((slot, p) ∷ [])

packets_in-tail : (xs : List (ℕ × Packet)) → packets_in (tail xs) ≡ drop 1 (packets_in xs)
unfolding packets_in
packets_in-tail [] = refl
packets_in-tail (x ∷ xs) = refl

length-packets_in : (xs : List (ℕ × Packet)) → length (packets_in xs) ≡ length xs
unfolding packets_in
length-packets_in [] = refl
length-packets_in (x ∷ xs) = omega (arith, length-packets_in xs)

drop-append : (n : ℕ) (xs ys : List Packet) → n ≤ length xs → drop n xs ++ ys ≡ drop n (xs ++ ys)
drop-append zero xs ys h = refl
drop-append (suc n) [] ys h = absurd (omega (arith, h))
drop-append (suc n) (x ∷ xs) ys h = drop-append n xs ys (omega (arith, h))

drop-nil : (n : ℕ) → let empty : List Packet = [] in drop n empty ≡ empty
drop-nil zero = refl
drop-nil (suc n) = refl

drop-drop : (n m : ℕ) (xs : List Packet) → drop m (drop n xs) ≡ drop (n + m) xs
drop-drop zero m xs = let e : m ≡ zero + m = omega arith in ap (λ k. drop k xs) e
drop-drop (suc n) zero [] = sym (drop-nil (suc n + zero))
drop-drop (suc n) (suc m) [] = sym (drop-nil (suc n + suc m))
drop-drop (suc n) m (x ∷ xs) =
    let e : suc (n + m) ≡ suc n + m = omega arith in drop-drop n m xs ∙ ap (λ k. drop k (x ∷ xs)) e

-- What is queued behind the packets placed, of which the oldest go where there is no room.
record Queued (placed : List (ℕ × Packet)) (rest : List Packet) (capacity : ℕ)
    (queue : List (ℕ × Packet)) (dropped : ℕ) : Type 0 where
  over : dropped ≡ length placed + length rest - capacity
  newest : packets_in queue ≡ drop dropped (packets_in placed ++ rest)

Queued-length :
    (placed : List (ℕ × Packet)) (rest : List Packet) (capacity : ℕ) (queue : List (ℕ × Packet))
    (dropped : ℕ)
    → Queued placed rest capacity queue dropped
    → length queue ≡ length placed + length rest - dropped
Queued-length placed rest capacity queue dropped h =
    sym (length-packets_in queue)
    ∙ ap length h.newest
    ∙ length-drop dropped (packets_in placed ++ rest)
    ∙ ap (λ n. n - dropped)
        (omega (arith, length-append (packets_in placed) rest, length-packets_in placed))

queue_placed-Queued :
    (placed : List (ℕ × Packet)) (capacity slot : ℕ) (p : Packet)
    → length placed ≤ capacity
    → let (queue, dropped) = queue_placed placed capacity slot p in
      Queued placed (p ∷ []) capacity queue dropped
unfolding queue_placed
queue_placed-Queued placed capacity slot p h =
    let queued : List (ℕ × Packet) = placed ++ ((slot, p) ∷ []) in
    let long : length queued ≡ length placed + 1 = length-append placed ((slot, p) ∷ []) in
    let same : packets_in queued ≡ packets_in placed ++ (p ∷ []) = packets_in-snoc placed slot p in
    elim (Bool-cases (ltb capacity (length queued))) [
      | inl e ↦ rw e (record {
        over = ground (arith, long, e);
        newest = packets_in-tail queued ∙ ap (drop 1) same;
      })
      | inr e ↦ rw e (record { over = ground (arith, long, e); newest = same })
    ]

-- A packet queued, and the others behind it.
Queued-cons :
    (placed queue out : List (ℕ × Packet)) (p : Packet) (rest : List Packet)
    (capacity dropped more : ℕ)
    → length placed ≤ capacity
    → Queued placed (p ∷ []) capacity queue dropped
    → Queued queue rest capacity out more
    → Queued placed (p ∷ rest) capacity out (dropped + more)
Queued-cons placed queue out p rest capacity dropped more h one others = record {
  over =
      omega
        (arith, h, one.over, others.over, Queued-length placed (p ∷ []) capacity queue dropped one);
  newest =
      others.newest
      ∙ ap (λ t. drop more (t ++ rest)) one.newest
      ∙ ap (drop more) (
          drop-append dropped (packets_in placed ++ (p ∷ [])) rest (
            omega (
              arith,
              one.over,
              length-append (packets_in placed) (p ∷ []),
              length-packets_in placed,
            )))
      ∙ drop-drop dropped more _
      ∙ ap (drop (dropped + more)) (append_assoc (packets_in placed) (p ∷ []) rest);
}

place_run-Queued :
    (g : StreamGrid) (rest : List Packet) (index open_slot span count : ℕ)
    → length g.placed ≤ g.capacity
    → let (g', dropped) = place_run g rest index open_slot span count in
      Queued g.placed rest g.capacity g'.placed dropped
unfolding place_run place_one
place_run-Queued g [] index open_slot span count h = record {
  over = omega (arith, h);
  newest = sym (append-nil (packets_in g.placed));
}
place_run-Queued g (p ∷ rest) index open_slot span count h =
    let one = queue_placed-Queued g.placed g.capacity _ p h in
    let room = Queued-length g.placed (p ∷ []) g.capacity _ _ one in
    Queued-cons g.placed _ _ p rest g.capacity _ _ h one (
      place_run-Queued (place_one g p index open_slot span count).0 rest (index + 1) open_slot span
        count (omega (arith, room, one.over, h)))

no_packets : (xs : List Packet) → (length xs == 0) ≡ true → xs ≡ []
no_packets [] h = refl
no_packets (x ∷ xs) h = ground (arith, h)

-- The queue that closing a run leaves.
close_run-Queued :
    (g : StreamGrid) (open_pcr open_slot next_slot : ℕ)
    → g.opened ≡ some (open_pcr, open_slot)
    → length g.placed ≤ g.capacity
    → let (g', dropped) = close_run g next_slot in
      (g'.run ≡ [])
      × (dropped ≡ held g - g.capacity)
      × (packets_in g'.placed ≡ drop dropped (packets_in g.placed ++ g.run))
unfolding spread
close_run-Queued g open_pcr open_slot next_slot opened bound =
    elim (Bool-cases (length g.run == 0)) [
      | inl e ↦
          let empty = no_packets g.run e in
          let short : length g.run ≡ 0 = ap length empty in
          rw (close_run-opened g next_slot opened, e)
            (empty, omega (arith, short, bound), unchanged g.placed g.run empty)
      | inr e ↦
          let span = next_slot - open_slot in
          let step =
            place_run-Queued (ready_to_place g span) g.run 0 open_slot span (length g.run) bound in
          rw (close_run-opened g next_slot opened, e)
            (
              place_run-run (ready_to_place g span) g.run 0 open_slot span (length g.run),
              step.over,
              step.newest,
            )
    ]
  where
    unchanged :
        (placed : List (ℕ × Packet)) (run : List Packet)
        → run ≡ []
        → packets_in placed ≡ packets_in placed ++ run
    unchanged placed run e = rw e (sym (append-nil (packets_in placed)))

-- Closing a run empties it and queues its packets, in order, behind those placed; it drops and counts
-- the oldest of them all by which they pass the bound, and no others. The slots rise strictly and
-- stay below the first free one, and the queue is within its bound.
pub packets_in-close_run :
    (g : StreamGrid) (open_pcr open_slot next_slot top : ℕ)
    → g.opened ≡ some (open_pcr, open_slot)
    → open_slot ≤ top
    → next_slot ≤ top
    → g.next_free ≤ top
    → top + length g.run < u64_mod
    → 0 < g.capacity
    → Ordered 0 g.placed g.next_free
    → length g.placed ≤ g.capacity
    → let (g', dropped) = close_run g next_slot in
      (g'.run ≡ [])
      × (dropped ≡ held g - g.capacity)
      × (packets_in g'.placed ≡ drop dropped (packets_in g.placed ++ g.run))
      × Ordered 0 g'.placed g'.next_free
      × (length g'.placed ≤ g.capacity)
packets_in-close_run g open_pcr open_slot next_slot top opened le_open le_next free small pos o
      bound =
    let (order, conserved, within) =
      close_run_lem g open_pcr open_slot next_slot top opened le_open le_next free small pos o
        bound in
    let (empty, over, newest) = close_run-Queued g open_pcr open_slot next_slot opened bound in
    (empty, over, newest, order, within)
