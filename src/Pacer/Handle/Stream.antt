-- ===== src/Pacer/Handle/Stream.antt =====
-- src/pacer.rs, `TsPacer::push_bytes`: what comes out of the channel is the packets of the byte stream.
use mpegts_pacer.Prelude.{
  ℕ, suc, ◌<◌, ◌≡◌, refl, sym, ap, ◌∙◌, Bool, true, false, Option, none, some, List, [], ◌∷◌, ◌++◌,
  append-nil, append_assoc, length, if◌then◌else◌, arith,
}
use mpegts_pacer.Error.{Result, ok, err, closed}
use mpegts_pacer.Packet.{Packet}
use mpegts_pacer.Observe.{Health}
use mpegts_pacer.Pcr.{ts_packet_size}
use mpegts_pacer.Source.{split_packets}
use mpegts_pacer.Source.Split.{short, split_from-fuel, split_packets-append, split_packets-rest}
use mpegts_pacer.Pacer.Handle.{Channel, Watch, TsPacer, push_packet, push_packets, push_bytes, recv}

-- What the channel documents: it hands the packets that it took on in their order, and ends only when
-- all are handed on.
pub record IsLawful (ch : Channel) : Type 0 where
  pub taken : ch.State → List Packet
  pub received : ch.State → List Packet
  pub takes :
      (s : ch.State) (p : Packet)
      → (ch.send s p).0 ≡ true
      → taken (ch.send s p).1 ≡ taken s ++ (p ∷ [])
  pub refuses :
      (s : ch.State) (p : Packet) → (ch.send s p).0 ≡ false → taken (ch.send s p).1 ≡ taken s
  pub hands_on :
      (s : ch.State) (p : Packet)
      → (ch.recv s).0 ≡ some p
      → received (ch.recv s).1 ≡ received s ++ (p ∷ [])
  pub keeps : (s : ch.State) → taken (ch.recv s).1 ≡ taken s
  pub ends : (s : ch.State) → (ch.recv s).0 ≡ none → received s ≡ taken s
  pub dropped : (s : ch.State) → taken (ch.drop_sender s) ≡ taken s

-- The packets that `ChannelSource` hands on until its end.
pub data Receives (ch : Channel) : ch.State → List Packet → Type 0 where
  ended : (s : ch.State) → (recv ch s).0 ≡ ok none → Receives ch s []
  handed :
      (s : ch.State) (p : Packet) (rest : List Packet)
      → (recv ch s).0 ≡ ok (some p)
      → Receives ch (recv ch s).1 rest
      → Receives ch s (p ∷ rest)

-- The bytes of all pieces.
abbrev pub concat : List (List ℕ) → List ℕ
concat [] = []
concat (piece ∷ rest) = piece ++ concat rest

-- How pushing `packets` ends: the channel takes all of them, or those before the one that it refuses.
pub data Pushed (before : List Packet) (packets : List Packet) (after : List Packet)
    : Result (Unit {0}) → Type 0 where
  all : after ≡ before ++ packets → Pushed before packets after (ok tt)
  cut :
      (front rest : List Packet) (p : Packet)
      → packets ≡ front ++ (p ∷ rest)
      → after ≡ before ++ front
      → Pushed before packets after (err closed)

-- Less than a packet is kept back as it is.
split_packets-short :
    (partial : List ℕ) → length partial < ts_packet_size → split_packets partial [] ≡ ([], partial)
unfolding split_packets
split_packets-short partial h = rw (append-nil partial) (
    split_from-fuel (length partial) (suc (length partial)) partial (omega arith) (omega arith)
    ∙ short (length partial) partial h)

module _ (ch : Channel) (law : IsLawful ch) {F : Type 0} (watch : Watch (Health F)) where
  -- The packets taken from a handle so far.
  abbrev pub taken_from : TsPacer ch watch → List Packet
  taken_from h = law.taken h.tx

  one_more :
      (before front after : List Packet) (p : Packet) (packets : List Packet)
      (r : Result (Unit {0}))
      → front ≡ before ++ (p ∷ [])
      → Pushed front packets after r
      → Pushed before (p ∷ packets) after r
  one_more before front after p packets _ e (all f) =
      all (f ∙ ap (λ t. t ++ packets) e ∙ append_assoc before (p ∷ []) packets)
  one_more before front after p packets _ e (cut taken rest q f g) =
      cut (p ∷ taken) rest q (ap (λ t. p ∷ t) f)
        (g ∙ ap (λ t. t ++ taken) e ∙ append_assoc before (p ∷ []) taken)

  push_packets-Pushed :
      (h : TsPacer ch watch) (packets : List Packet)
      → let (answer, h') = push_packets ch watch h packets in
        Pushed (taken_from h) packets (taken_from h') answer × (h'.partial ≡ h.partial)
  unfolding push_packets push_packet
  push_packets-Pushed h [] = (all (sym (append-nil (taken_from h))), refl)
  push_packets-Pushed h (p ∷ packets) =
      by_answer (push_packets-Pushed (record h { tx = (ch.send h.tx p).1 }) packets)
        (ch.send h.tx p).0 refl
    where
      sent : TsPacer ch watch
      sent = record h { tx = (ch.send h.tx p).1 }

      by_answer :
          (let (answer, after) = push_packets ch watch sent packets in
            Pushed (taken_from sent) packets (taken_from after) answer
            × (after.partial ≡ h.partial))
          → (b : Bool) → (ch.send h.tx p).0 ≡ b
          → let answer : Result (Unit {0}) = if b then ok tt else err closed in
            let out : Result (Unit {0}) × TsPacer ch watch = elim answer [
              | err e ↦ (err e, sent)
              | ok _ ↦ push_packets ch watch sent packets
            ] in
            Pushed (taken_from h) (p ∷ packets) (taken_from out.1) out.0
            × (out.1.partial ≡ h.partial)
      by_answer (pushed, same) true e = (
        one_more (taken_from h) (taken_from sent) _ p packets _ (law.takes h.tx p e) pushed,
        same,
      )
      by_answer later false e =
          (cut [] packets p refl (law.refuses h.tx p e ∙ sym (append-nil (taken_from h))), refl)

  -- The pieces of a byte stream pushed one after the other, until one is refused.
  unfoldable pub push_pieces :
      TsPacer ch watch → List (List ℕ) → Result (Unit {0}) × TsPacer ch watch
  push_pieces h [] = (ok tt, h)
  push_pieces h (piece ∷ rest) =
      let (answer, h') = push_bytes ch watch h piece in
      let after = push_pieces h' rest in elim answer [ err e ↦ (err e, h') | ok _ ↦ after ]

  -- Where a first part was taken whole, the rest ends as it ends behind it.
  behind :
      (before middle after first rest : List Packet) (r : Result (Unit {0}))
      → middle ≡ before ++ first
      → Pushed middle rest after r
      → Pushed before (first ++ rest) after r
  behind before middle after first rest _ e (all f) =
      all (f ∙ ap (λ t. t ++ rest) e ∙ append_assoc before first rest)
  behind before middle after first rest _ e (cut front back p f g) =
      cut (first ++ front) back p
        (ap (λ t. first ++ t) f ∙ sym (append_assoc first front (p ∷ back)))
        (g ∙ ap (λ t. t ++ front) e ∙ append_assoc before first front)

  -- Where a first part was cut, so is the whole.
  within :
      (before after first rest : List Packet)
      → Pushed before first after (err closed)
      → Pushed before (first ++ rest) after (err closed)
  within before after first rest (cut front back p f g) =
      cut front (back ++ rest) p (ap (λ t. t ++ rest) f ∙ append_assoc front (p ∷ back) rest) g

  -- What pushing leaves: as many packets as the channel takes, and the partial packet.
  abbrev pub Streams :
      TsPacer ch watch → List Packet × List ℕ → Result (Unit {0}) × TsPacer ch watch → Type 0
  Streams h (packets, left) (answer, after) =
      Pushed (taken_from h) packets (taken_from after) answer
      × (answer ≡ ok tt → after.partial ≡ left)

  then_pieces :
      (h h' : TsPacer ch watch) (first : List Packet) (whole : List Packet × List ℕ)
      (answer : Result (Unit {0})) (later : Result (Unit {0}) × TsPacer ch watch)
      → Pushed (taken_from h) first (taken_from h') answer
      → Streams h' whole later
      → let out : Result (Unit {0}) × TsPacer ch watch = elim answer [
        | err e ↦ (err e, h')
        | ok _ ↦ later
      ] in
        Streams h (first ++ whole.0, whole.1) out
  then_pieces h h' first whole _ later (all f) (pushed, left) = (
    behind (taken_from h) (taken_from h') (taken_from later.1) first whole.0 later.0 f pushed,
    left,
  )
  then_pieces h h' first whole _ later (cut front rest p f g) v = (
    within (taken_from h) (taken_from h') first whole.0 (cut front rest p f g),
    λ e. absurd (cc e),
  )

  -- Pushing a byte stream in pieces, however it is cut, hands the channel the packets of the stream
  -- cut at once and keeps back what is then left over; or, where the channel refuses a packet, exactly
  -- those before it, and the answer says that it is closed. What was kept back before is less than a
  -- packet.
  pub push_pieces-Streams :
      (h : TsPacer ch watch) (pieces : List (List ℕ))
      → length h.partial < ts_packet_size
      → Streams h (split_packets h.partial (concat pieces)) (push_pieces h pieces)
  unfolding push_pieces push_bytes
  push_pieces-Streams h [] short =
      rw (split_packets-short h.partial short) (all (sym (append-nil (taken_from h))), λ e. refl)
  push_pieces-Streams h (piece ∷ rest) short =
      let (packets, left) = split_packets h.partial piece in
      let (pushed, same) = push_packets-Pushed (record h { partial = left }) packets in
      let (answer, h') = push_bytes ch watch h piece in
      let later = push_pieces-Streams h' rest (rw same (split_packets-rest h.partial piece)) in
      rw (split_packets-append h.partial piece (concat rest)) (
        then_pieces h h' packets (split_packets left (concat rest)) answer (push_pieces h' rest)
          pushed (rw same at later))

  ok_eq : (a b : Option Packet) → ok a ≡ ok b → a ≡ b
  ok_eq a b e = cc e

  Receives-taken :
      (s : ch.State) (ps : List Packet) → Receives ch s ps → law.received s ++ ps ≡ law.taken s
  unfolding recv
  Receives-taken s _ (ended _ e) =
      append-nil (law.received s) ∙ law.ends s (ok_eq (ch.recv s).0 none e)
  Receives-taken s _ (handed _ p rest e r) =
      sym (append_assoc (law.received s) (p ∷ []) rest)
      ∙ sym (ap (λ t. t ++ rest) (law.hands_on s p (ok_eq (ch.recv s).0 (some p) e)))
      ∙ Receives-taken (ch.recv s).1 rest r
      ∙ law.keeps s

  taken_packets :
      (h : TsPacer ch watch) (w : List Packet × List ℕ) (out : Result (Unit {0}) × TsPacer ch watch)
      → Streams h w out
      → out.0 ≡ ok tt
      → taken_from out.1 ≡ taken_from h ++ w.0
  taken_packets h w (_, after) (all f, left) e = f
  taken_packets h w (_, after) (cut front rest p f g, left) e = absurd (cc e)

  -- What goes in as bytes comes out as packets. Where pushing a byte stream in pieces succeeds and the
  -- sender is then dropped, the source at the other end, which may have received packets meanwhile, has
  -- received at its end just the packets that the channel had taken before and those of the stream cut
  -- at once, in order.
  pub push_pieces-Receives :
      (h : TsPacer ch watch) (pieces : List (List ℕ)) (ps : List Packet)
      → length h.partial < ts_packet_size
      → (push_pieces h pieces).0 ≡ ok tt
      → Receives ch (ch.drop_sender (push_pieces h pieces).1.tx) ps
      → law.received (ch.drop_sender (push_pieces h pieces).1.tx) ++ ps
        ≡ taken_from h ++ (split_packets h.partial (concat pieces)).0
  push_pieces-Receives h pieces ps short e r =
      let pushed = push_pieces h pieces in
      Receives-taken (ch.drop_sender pushed.1.tx) ps r
      ∙ law.dropped pushed.1.tx
      ∙ taken_packets h (split_packets h.partial (concat pieces)) pushed
          (push_pieces-Streams h pieces short) e
