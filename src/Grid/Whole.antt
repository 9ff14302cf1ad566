-- ===== src/Grid/Whole.antt =====
-- src/scheduler.rs, `StreamGrid::push`: a grid makes no packet up, whatever it does with those given.
use mpegts_pacer.Prelude.{
  ℕ, ◌+◌, ◌/◌, ◌-◌, Bool, true, false, ◌&&◌, ◌||◌, Option, none, some, List, [], ◌∷◌, ◌++◌, All,
  ltb, ◌==◌, if◌then◌else◌, is_none, length, tail, max, sat_mul, sat_add, wrap_add,
}
use mpegts_pacer.Pcr.{declares_discontinuity}
use mpegts_pacer.Packet.{Packet, pcr}
use mpegts_pacer.Grid.{
  StreamGrid, queue_placed, place_one, place_run, ready_to_place, spread, close_at, close_run,
  settle, interval_missed, since_open, slot_for, push_pcr, push_on, note_continuity, push,
}
use mpegts_pacer.Grid.Push.{slot_for-shape}

module _ (P : Packet → Type 0) where
  abbrev pub AllPlaced : List (ℕ × Packet) → Type 0
  AllPlaced placed = All (λ c. P c.1) placed

  -- All that a grid holds.
  abbrev pub Holds : StreamGrid → Type 0
  Holds g = All P g.run × AllPlaced g.placed

  either-Holds :
      (b : Bool) (s t : StreamGrid × ℕ) → Holds s.0 → Holds t.0 → Holds (if b then s else t).0
  either-Holds true s t v w = v
  either-Holds false s t v w = w

  queue_placed-AllPlaced :
      (placed : List (ℕ × Packet)) (capacity slot : ℕ) (p : Packet)
      → AllPlaced placed
      → P p
      → AllPlaced (queue_placed placed capacity slot p).0
  unfolding queue_placed
  queue_placed-AllPlaced placed capacity slot p v w =
      kept (ltb capacity (length (placed ++ ((slot, p) ∷ [])))) (placed ++ ((slot, p) ∷ []))
        (behind placed v)
    where
      behind : (xs : List (ℕ × Packet)) → AllPlaced xs → AllPlaced (xs ++ ((slot, p) ∷ []))
      behind [] v = (w, tt)
      behind (x ∷ xs) (v, vs) = (v, behind xs vs)

      kept :
          (b : Bool) (xs : List (ℕ × Packet))
          → AllPlaced xs
          → let out : List (ℕ × Packet) × ℕ = if b then (tail xs, 1) else (xs, 0) in AllPlaced out.0
      kept false xs v = v
      kept true [] v = v
      kept true (x ∷ xs) (v, vs) = vs

  place_run-Holds :
      (g : StreamGrid) (rest : List Packet) (index open_slot span count : ℕ)
      → Holds g
      → All P rest
      → Holds (place_run g rest index open_slot span count).0
  unfolding place_run place_one
  place_run-Holds g [] index open_slot span count h v = h
  place_run-Holds g (p ∷ rest) index open_slot span count (run, placed) (v, vs) =
      let slot = max (wrap_add open_slot (sat_mul index span / count)) g.next_free in
      place_run-Holds (place_one g p index open_slot span count).0 rest (index + 1) open_slot span
        count (run, queue_placed-AllPlaced g.placed g.capacity slot p placed v) vs

  close_at-Holds :
      (g : StreamGrid) (o : Option (ℕ × ℕ)) (slot : ℕ) → Holds g → Holds (close_at g o slot).0
  unfolding close_at spread
  close_at-Holds g none slot h = h
  close_at-Holds g (some (open_pcr, open_slot)) slot (run, placed) =
      let span = slot - open_slot in
      either-Holds (length g.run == 0) (g, 0) (spread g open_slot slot) (run, placed)
        (place_run-Holds (ready_to_place g span) g.run 0 open_slot span (length g.run) (tt, placed)
          run)

  settle-Holds : (g : StreamGrid) (slot : ℕ) (lost : Bool) → Holds g → Holds (settle g slot lost).0
  unfolding settle close_run
  settle-Holds g slot lost (run, placed) =
      let cut = record g { cut = sat_add g.cut (length g.run); run = []; known_from = some slot } in
      either-Holds (is_none g.opened) (record g { known_from = some slot }, 0)
        (if lost then (cut, 0) else close_run g slot) (run, placed)
        (either-Holds lost (cut, 0) (close_run g slot) (tt, placed)
          (close_at-Holds g g.opened slot (run, placed)))

  push_pcr-Holds :
      (g : StreamGrid) (p : Packet) (value now : ℕ) (horizon : Option ℕ)
      → Holds g
      → P p
      → Holds (push_pcr g p value now horizon).0
  unfolding push_pcr
  push_pcr-Holds g p value now horizon h v =
      let s =
        slot_for g value (declares_discontinuity p.bytes) (since_open g.open_at now) horizon in
      let lost = s.2 || s.0.run_broken && interval_missed s.0 s.0.opened s.1 in
      let kept : Holds s.0 =
        slot_for-shape g value (since_open g.open_at now) (declares_discontinuity p.bytes) horizon
          Holds (λ a b c. h) in
      let (run, placed) = settle-Holds (record (s.0) { run_broken = false }) s.1 lost kept in
      ((v, tt), placed)

  push_on-Holds :
      (g : StreamGrid) (p : Packet) (now : ℕ) (horizon o : Option ℕ)
      → Holds g
      → P p
      → Holds (push_on g p now horizon o).0
  unfolding push_on
  push_on-Holds g p now horizon (some value) h v = push_pcr-Holds g p value now horizon h v
  push_on-Holds g p now horizon none (run, placed) v =
      either-Holds (is_none g.opened) (g, 1) (record g { run = g.run ++ (p ∷ []) }, 0) (run, placed)
        (behind g.run run, placed)
    where
      behind : (xs : List Packet) → All P xs → All P (xs ++ (p ∷ []))
      behind [] vs = (v, tt)
      behind (x ∷ xs) (w, ws) = (w, behind xs ws)

  -- A pushed packet joins those that a grid holds; no other does.
  pub push-Holds :
      (g : StreamGrid) (p : Packet) (now : ℕ) (horizon : Option ℕ)
      → Holds g
      → P p
      → Holds (push g p now horizon).0
  unfolding push note_continuity
  push-Holds g p now horizon h v = push_on-Holds (note_continuity g p) p now horizon (pcr p) h v
