-- ===== src/Source/Split.antt =====
-- How the byte stream is cut does not matter, and aligned packets come through whole.
use mpegts_pacer.Prelude.{
  ℕ, zero, suc, ◌+◌, ◌≤◌, ◌<◌, ◌≡◌, refl, sym, ap, ◌∙◌, List, [], ◌∷◌, ◌++◌, le→leb, lt→leb_false,
  ◌==◌, length, length-append, get_or, take, drop, arith, false, append_assoc, take-append_le,
  drop-append_le, length-drop, All,
}
use mpegts_pacer.Error.{Result, ok, err}
use mpegts_pacer.Packet.{Packet, new, from_slice, sync_byte}
use native.Mathlib.Decide.{dec_lt, ℕ_discrete}
use mathlib.Core.Logic.{◌≢◌}
use mpegts_pacer.Pcr.{ts_packet_size}
use mpegts_pacer.Source.{push_ok, parse_first, split_from, split_packets}

-- The three ways of a round.
module _ (fuel : ℕ) (bytes : List ℕ) where
  pub short : length bytes < ts_packet_size → split_from (suc fuel) bytes ≡ ([], bytes)
  unfolding split_from
  short h = rw (lt→leb_false ts_packet_size (length bytes) h) refl

  pub aligned :
      ts_packet_size ≤ length bytes
      → get_or bytes 0 0 ≡ sync_byte
      → split_from (suc fuel) bytes
        ≡ parse_first bytes (split_from fuel (drop ts_packet_size bytes))
  unfolding split_from
  aligned h e = rw (le→leb ts_packet_size (length bytes) h, e) refl

  pub slipped :
      ts_packet_size ≤ length bytes
      → get_or bytes 0 0 ≢ sync_byte
      → split_from (suc fuel) bytes ≡ split_from fuel (drop 1 bytes)
  unfolding split_from
  slipped h ne =
      let test : (get_or bytes 0 0 == sync_byte) ≡ false = ground arith in
      rw (le→leb ts_packet_size (length bytes) h, test) refl

pub split_from-zero : (bytes : List ℕ) → split_from 0 bytes ≡ ([], bytes)
unfolding split_from
split_from-zero bytes = refl

-- A round either stops short of a packet, takes one, or drops a byte.
pub data Round (bytes : List ℕ) : Type 0 where
  stops : length bytes < ts_packet_size → Round bytes
  takes : ts_packet_size ≤ length bytes → get_or bytes 0 0 ≡ sync_byte → Round bytes
  slips : ts_packet_size ≤ length bytes → get_or bytes 0 0 ≢ sync_byte → Round bytes

pub round : (bytes : List ℕ) → Round bytes
round bytes = elim (dec_lt (length bytes) ts_packet_size) [
  | yes h ↦ stops h
  | no h ↦ elim (ℕ_discrete (get_or bytes 0 0) sync_byte) [
    | yes e ↦ takes (omega arith) e
    | no ne ↦ slips (omega arith) ne
  ]
]

-- More rounds than bytes change nothing.
pub split_from-fuel :
    (n m : ℕ) (bytes : List ℕ)
    → length bytes ≤ n
    → length bytes ≤ m
    → split_from n bytes ≡ split_from m bytes
split_from-fuel zero zero bytes hn hm = refl
split_from-fuel zero (suc m) bytes hn hm = split_from-zero bytes ∙ sym (short m bytes (omega arith))
split_from-fuel (suc n) zero bytes hn hm = short n bytes (omega arith) ∙ sym (split_from-zero bytes)
split_from-fuel (suc n) (suc m) bytes hn hm = elim (round bytes) [
  | stops h ↦ short n bytes h ∙ sym (short m bytes h)
  | takes h e ↦
      aligned n bytes h e
      ∙ ap (parse_first bytes) (
          split_from-fuel n m (drop ts_packet_size bytes)
            (omega (arith, length-drop ts_packet_size bytes))
            (omega (arith, length-drop ts_packet_size bytes)))
      ∙ sym (aligned m bytes h e)
  | slips h ne ↦
      slipped n bytes h ne
      ∙ split_from-fuel n m (drop 1 bytes) (omega (arith, length-drop 1 bytes))
          (omega (arith, length-drop 1 bytes))
      ∙ sym (slipped m bytes h ne)
]

-- The loop ends with less than a packet in hand.
pub split_from-rest :
    (n : ℕ) (bytes : List ℕ) → length bytes ≤ n → length (split_from n bytes).1 < ts_packet_size
unfolding parse_first
split_from-rest zero bytes h = rw (split_from-zero bytes) (omega arith)
split_from-rest (suc n) bytes h = elim (round bytes) [
  | stops s ↦ rw (short n bytes s) s
  | takes s e ↦ rw (aligned n bytes s e) (
      split_from-rest n (drop ts_packet_size bytes)
        (omega (arith, length-drop ts_packet_size bytes)))
  | slips s ne ↦
      rw (slipped n bytes s ne)
        (split_from-rest n (drop 1 bytes) (omega (arith, length-drop 1 bytes)))
]

abbrev pub joined : List Packet × List ℕ → List Packet × List ℕ → List Packet × List ℕ
joined (first, kept) (second, left) = (first ++ second, left)

push_ok-append :
    (r : Result Packet) (xs ys : List Packet) → push_ok r xs ++ ys ≡ push_ok r (xs ++ ys)
push_ok-append (ok p) xs ys = refl
push_ok-append (err e) xs ys = refl

pub head-append :
    (xs ys : List ℕ) → ts_packet_size ≤ length xs → get_or (xs ++ ys) 0 0 ≡ get_or xs 0 0
head-append [] ys h = absurd (omega arith)
head-append (x ∷ xs) ys h = refl

parse_first-append :
    (xs ys : List ℕ) (a b : List Packet × List ℕ)
    → ts_packet_size ≤ length xs
    → parse_first (xs ++ ys) (joined a b) ≡ joined (parse_first xs a) b
unfolding parse_first
parse_first-append xs ys a b h = rw (take-append_le ts_packet_size xs ys h) (
    ap (λ (l : List Packet). let out : List Packet × List ℕ = (l, b.1) in out)
      (sym (push_ok-append (from_slice (take ts_packet_size xs)) a.0 b.0)))

-- Splitting what the first part leaves together with the second gives what the whole gives.
split_from-append :
    (n m k : ℕ) (xs ys : List ℕ)
    → length xs + length ys ≤ n
    → length xs ≤ m
    → length xs + length ys ≤ k
    → split_from n (xs ++ ys) ≡ joined (split_from m xs) (split_from k ((split_from m xs).1 ++ ys))
unfolding parse_first
split_from-append n zero k xs ys hn hm hk = rw (split_from-zero xs) (
    split_from-fuel n k (xs ++ ys) (omega (arith, length-append xs ys))
      (omega (arith, length-append xs ys)))
split_from-append zero (suc m) k xs ys hn hm hk = rw (short m xs (omega arith)) (
    split_from-fuel 0 k (xs ++ ys) (omega (arith, length-append xs ys))
      (omega (arith, length-append xs ys)))
split_from-append (suc n) (suc m) k xs ys hn hm hk = elim (round xs) [
  | stops s ↦ rw (short m xs s) (
      split_from-fuel (suc n) k (xs ++ ys) (omega (arith, length-append xs ys))
        (omega (arith, length-append xs ys)))
  | takes s e ↦ rw (aligned m xs s e) (
      aligned n (xs ++ ys) (omega (arith, length-append xs ys)) (head-append xs ys s ∙ e)
      ∙ rw (drop-append_le ts_packet_size xs ys s) (
          ap (parse_first (xs ++ ys)) (
            split_from-append n m k (drop ts_packet_size xs) ys
              (omega (arith, length-drop ts_packet_size xs))
              (omega (arith, length-drop ts_packet_size xs))
              (omega (arith, length-drop ts_packet_size xs)))
          ∙ parse_first-append xs ys (split_from m (drop ts_packet_size xs))
              (split_from k ((split_from m (drop ts_packet_size xs)).1 ++ ys)) s))
  | slips s ne ↦ rw (slipped m xs s ne) (
      slipped n (xs ++ ys) (omega (arith, length-append xs ys)) (rw (head-append xs ys s) ne)
      ∙ rw (drop-append_le 1 xs ys (omega arith)) (
          split_from-append n m k (drop 1 xs) ys (omega (arith, length-drop 1 xs))
            (omega (arith, length-drop 1 xs)) (omega (arith, length-drop 1 xs))))
]

-- How a byte stream is cut into pushes does not matter: pushing two pieces one after the other yields
-- the packets, and leaves the partial packet, of pushing both at once.
pub split_packets-append :
    (partial xs ys : List ℕ)
    → split_packets partial (xs ++ ys)
      ≡ joined (split_packets partial xs) (split_packets (split_packets partial xs).1 ys)
unfolding split_packets
split_packets-append partial xs ys =
    let whole = partial ++ xs in
    let left = (split_from (length whole) whole).1 in
    let enough = length whole + length ys + length (left ++ ys) in
    rw (sym (append_assoc partial xs ys)) (
      split_from-append (length (whole ++ ys)) (length whole) enough whole ys
        (omega (arith, length-append whole ys)) (omega arith) (omega arith)
      ∙ ap (joined (split_from (length whole) whole))
          (split_from-fuel enough (length (left ++ ys)) (left ++ ys) (omega arith) (omega arith)))

-- Less than one packet is ever kept back.
pub split_packets-rest :
    (partial bytes : List ℕ) → length (split_packets partial bytes).1 < ts_packet_size
unfolding split_packets
split_packets-rest partial bytes = split_from-rest _ (partial ++ bytes) (omega arith)

abbrev pub IsPacket : Packet → Type 0
IsPacket p = (length p.bytes ≡ ts_packet_size) × (get_or p.bytes 0 0 ≡ sync_byte)

abbrev pub on_wire : List Packet → List ℕ
on_wire [] = []
on_wire (p ∷ ps) = p.bytes ++ on_wire ps

pub new-IsPacket : (p : Packet) → IsPacket p → new p.bytes ≡ ok p
unfolding new
new-IsPacket p (whole, synced) = ground (arith, whole, synced)

pub take_all : (xs ys : List ℕ) (n : ℕ) → length xs ≡ n → take n (xs ++ ys) ≡ xs
take_all [] ys zero h = refl
take_all [] ys (suc n) h = absurd (omega arith)
take_all (x ∷ xs) ys zero h = absurd (omega arith)
take_all (x ∷ xs) ys (suc n) h = ap (λ t. x ∷ t) (take_all xs ys n (omega arith))

pub drop_all : (xs ys : List ℕ) (n : ℕ) → length xs ≡ n → drop n (xs ++ ys) ≡ ys
drop_all [] ys zero h = refl
drop_all [] ys (suc n) h = absurd (omega arith)
drop_all (x ∷ xs) ys zero h = absurd (omega arith)
drop_all (x ∷ xs) ys (suc n) h = drop_all xs ys n (omega arith)

split_from-on_wire :
    (ps : List Packet) (n : ℕ)
    → All IsPacket ps
    → length (on_wire ps) ≤ n
    → split_from n (on_wire ps) ≡ (ps, [])
unfolding parse_first from_slice
split_from-on_wire [] zero v h = split_from-zero []
split_from-on_wire [] (suc n) v h = short n [] (omega arith)
split_from-on_wire (p ∷ ps) zero (v, vs) h =
    absurd (omega (arith, length-append p.bytes (on_wire ps), v.0))
split_from-on_wire (p ∷ ps) (suc n) (v, vs) h =
    let long = length-append p.bytes (on_wire ps) in
    aligned n (on_wire (p ∷ ps)) (omega (arith, long, v.0))
      (head-append p.bytes (on_wire ps) (omega (arith, v.0)) ∙ v.1)
    ∙ rw
        (
          drop_all p.bytes (on_wire ps) ts_packet_size v.0,
          take_all p.bytes (on_wire ps) ts_packet_size v.0,
          new-IsPacket p v,
          split_from-on_wire ps n vs (omega (arith, long, v.0)),
        )
        refl

-- Packets written one after the other come back as they were, with nothing left over.
pub split_packets-on_wire :
    (ps : List Packet) → All IsPacket ps → split_packets [] (on_wire ps) ≡ (ps, [])
unfolding split_packets
split_packets-on_wire ps v = split_from-on_wire ps _ v (omega arith)
