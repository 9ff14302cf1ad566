-- ===== src/Tests/Pushing.antt =====
-- Runs of the theorems on the handle that packets are pushed by.
use mpegts_pacer.Prelude.{
  ℕ, true, ◌≡◌, refl, sym, none, some, List, [], ◌∷◌, ◌++◌, append-nil, append_assoc, arith, take,
  drop,
}
use mpegts_pacer.Error.{ok}
use mpegts_pacer.Packet.{Packet, null_packet, from_slice, new}
use mpegts_pacer.Observe.{Health}
use mpegts_pacer.Float.{micro}
use mpegts_pacer.Stats.{zeroed}
use mpegts_pacer.Scheduler.{priming}
use mpegts_pacer.Source.{split_packets, split_from, parse_first}
use mpegts_pacer.Pacer.Handle.{Channel, Watch, TsPacer, recv, push_packet, push_packets, push_bytes}
use mpegts_pacer.Pacer.Handle.Stream.{
  IsLawful, Receives, ended, handed, Streams, push_pieces, push_pieces-Streams,
  push_pieces-Receives, concat,
}

-- A channel as what it has handed on and what it holds.
abbrev fifo : Channel
fifo = record {
  State = List Packet × List Packet;
  channel = λ bound. ([], []);
  send = λ s p. (true, (s.0, s.1 ++ (p ∷ [])));
  recv = λ s. elim s.1 [ [] ↦ (none, s) | p ∷ rest ↦ (some p, (s.0 ++ (p ∷ []), rest)) ];
  drop_sender = λ s. s;
}

abbrev fifo-IsLawful : IsLawful fifo
fifo-IsLawful = record {
  taken = λ s. s.0 ++ s.1;
  received = λ s. s.0;
  takes = λ s p e. sym (append_assoc s.0 s.1 (p ∷ []));
  refuses = λ s p e. absurd (cc e);
  hands_on = λ s. on_hand s.0 s.1;
  keeps = λ s. kept s.0 s.1;
  ends = λ s. over s.0 s.1;
  dropped = λ s. refl;
}
  where
    on_hand :
        (r q : List Packet) (p : Packet)
        → (fifo.recv (r, q)).0 ≡ some p
        → (fifo.recv (r, q)).1.0 ≡ r ++ (p ∷ [])
    on_hand r [] p e = absurd (cc e)
    on_hand r (x ∷ q) p e = let same : x ≡ p = cc e in rw same refl

    kept : (r q : List Packet) → (fifo.recv (r, q)).1.0 ++ (fifo.recv (r, q)).1.1 ≡ r ++ q
    kept r [] = refl
    kept r (x ∷ q) = append_assoc r (x ∷ []) q

    over : (r q : List Packet) → (fifo.recv (r, q)).0 ≡ none → r ≡ r ++ q
    over r [] e = sym (append-nil r)
    over r (x ∷ q) e = absurd (cc e)

abbrev cell : Watch (Health ℕ)
cell = record { State = Health ℕ; channel = λ h. h; send = λ s h. h; borrow = λ s. s }

-- A null packet and three bytes, pushed in two pieces.
abbrev pieces : List (List ℕ)
pieces = take 100 null_packet ∷ (drop 100 null_packet ++ (71 ∷ 1 ∷ 2 ∷ [])) ∷ []

abbrev packet : Packet
packet = record { bytes = null_packet }

abbrev handle : TsPacer fifo cell
handle = record {
  tx = ([], []);
  partial = [];
  health = record { source = priming; stats = zeroed micro };
}

push_pieces-Streams_example :
    Streams fifo fifo-IsLawful cell handle
      (split_packets [] (concat pieces))
      (push_pieces fifo fifo-IsLawful cell handle pieces)
push_pieces-Streams_example =
    push_pieces-Streams fifo fifo-IsLawful cell handle pieces (omega arith)

accepted : (push_pieces fifo fifo-IsLawful cell handle pieces).0 ≡ ok tt
unfolding push_pieces push_packet push_packets push_bytes split_packets split_from parse_first
    from_slice new null_packet
accepted = refl

received : Receives fifo (push_pieces fifo fifo-IsLawful cell handle pieces).1.tx (packet ∷ [])
unfolding push_pieces push_packet push_packets push_bytes split_packets split_from parse_first
    from_slice new null_packet recv
received = handed _ packet [] refl (ended _ refl)

push_pieces-Receives_example :
    let tx = (push_pieces fifo fifo-IsLawful cell handle pieces).1.tx in
    fifo-IsLawful.received tx ++ (packet ∷ []) ≡ (split_packets [] (concat pieces)).0
push_pieces-Receives_example =
    push_pieces-Receives fifo fifo-IsLawful cell handle pieces (packet ∷ []) (omega arith) accepted
      received
