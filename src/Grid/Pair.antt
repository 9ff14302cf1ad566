-- ===== src/Grid/Pair.antt =====
-- src/scheduler.rs, `StreamGrid`: a redundant pair of legs.
use mpegts_pacer.Prelude.{
  ℕ, suc, ◌≡◌, refl, sym, ap, ◌∙◌, ◌⊎◌, inl, inr, some, List, [], ◌∷◌, ◌++◌, ◌==◌, arith,
  Bool-cases, ==→eq,
}
use mpegts_pacer.Packet.{Packet}
use mpegts_pacer.Grid.{StreamGrid, new, take}
use mpegts_pacer.Grid.Take.{Ordered, packet_at, packet_of, nothing_before, take_lem}
use mpegts_pacer.Grid.Alone.{alone, IsSuffix}
use mpegts_pacer.Grid.Legs.{Reads, IsCalm, Reads-schedule}

-- Of two ends of a list, one is an end of the other.
IsSuffix-linear :
    (f f' xs ys : List (ℕ × Packet)) → f ++ xs ≡ f' ++ ys → IsSuffix xs ys ⊎ IsSuffix ys xs
IsSuffix-linear [] f' xs ys e = inr (f', e)
IsSuffix-linear (x ∷ f) [] xs ys e = inl (x ∷ f, sym e)
IsSuffix-linear (x ∷ f) (y ∷ f') xs ys e = IsSuffix-linear f f' xs ys (ap drop-first e)
  where
    drop-first : List (ℕ × Packet) → List (ℕ × Packet)
    drop-first zs = elim zs [ [] ↦ [] | _ ∷ rest ↦ rest ]

-- A packet at the end of an ordered list is found from its front.
packet_at-append :
    (slot lo hi : ℕ) (f xs : List (ℕ × Packet)) (p : Packet)
    → Ordered lo (f ++ xs) hi
    → packet_at slot xs ≡ some p
    → packet_at slot (f ++ xs) ≡ some p
unfolding packet_at
packet_at-append slot lo hi [] xs p o e = e
packet_at-append slot lo hi ((s, q) ∷ f) xs p (le, o) e =
    let later = packet_at-append slot (suc s) hi f xs p o e in
    elim (Bool-cases (s == slot)) [
      | inl h ↦
          let same = ==→eq s slot h in
          let (_, nothing) = nothing_before slot (suc s) (f ++ xs) hi o (omega (arith, same)) in
          absurd (cc (nothing, later))
      | inr h ↦ rw h later
    ]

packet_at-IsSuffix :
    (slot hi : ℕ) (xs ys : List (ℕ × Packet)) (p q : Packet)
    → IsSuffix xs ys
    → Ordered 0 ys hi
    → packet_at slot xs ≡ some p
    → packet_at slot ys ≡ some q
    → p ≡ q
packet_at-IsSuffix slot hi xs ys p q (f, e) o a b =
    cc (packet_at-append slot 0 hi f xs p (rw e at o) a, rw e at b)

-- The redundant pair. Two legs of one rate that have been given the same packets, at whatever times,
-- each under its own bound and between whatever requests of its own, hand over the same packet for a
-- slot for which both hand one over: while the source clock runs on, with no discontinuity declared,
-- and with the placed packets of both in order.
pub take-same :
    (rate room room' slot : ℕ) (ps : List Packet) (g h : StreamGrid) (p q : Packet)
    → Reads (new rate room) ps g
    → Reads (new rate room') ps h
    → IsCalm (alone (new rate 1)) ps
    → Ordered 0 g.placed g.next_free
    → Ordered 0 h.placed h.next_free
    → packet_of (take g slot).1 ≡ some p
    → packet_of (take h slot).1 ≡ some q
    → p ≡ q
unfolding new alone
take-same rate room room' slot ps g h p q r r' calm o o' a b =
    let (f, e) = Reads-schedule (new rate room) g ps [] r calm ([], refl) in
    let (f', e') = Reads-schedule (new rate room') h ps [] r' calm ([], refl) in
    let at_g : packet_at slot g.placed ≡ some p = sym (take_lem g slot o).0 ∙ a in
    let at_h : packet_at slot h.placed ≡ some q = sym (take_lem h slot o').0 ∙ b in
    elim (IsSuffix-linear f f' g.placed h.placed (sym e ∙ e')) [
      | inl s ↦ packet_at-IsSuffix slot h.next_free g.placed h.placed p q s o' at_g at_h
      | inr s ↦ sym (packet_at-IsSuffix slot g.next_free h.placed g.placed q p s o at_h at_g)
    ]
