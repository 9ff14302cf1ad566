-- ===== src/Source/Read/Drain.antt =====
-- src/source.rs: reading packet by packet gives what cutting the whole byte stream gives.
use mpegts_pacer.Prelude.{
  ℕ, zero, suc, ◌+◌, ◌-◌, ◌≤◌, ◌<◌, ◌≡◌, refl, sym, ap, ◌∙◌, inl, inr, Option, none, some, List, [],
  ◌∷◌, ◌++◌, append_assoc, append-nil, leb, ◌==◌, length, length-append, length-take, length-drop,
  get_or, take, drop, drop-append_le, arith, Bool-cases, ==→eq,
}
use mpegts_pacer.Error.{Result, ok}
use mpegts_pacer.Packet.{Packet, from_slice, sync_byte}
use mpegts_pacer.Pcr.{ts_packet_size}
use mpegts_pacer.Source.{split_from, split_packets, parse_first}
use mpegts_pacer.Source.Split.{
  short, aligned, slipped, split_from-fuel, split_from-zero, new-IsPacket, IsPacket, head-append,
  take_all, drop_all,
}
use mpegts_pacer.Source.Read
use mpegts_pacer.Source.Read.{
  Reader, IsLawful, ReadSource, Filled, full, eof, failed, Round, again, done, overwrite, copy_down,
  take_in, fill, after_fill, read_round, recv, found,
}

overwrite-lem :
    (buf bytes : List ℕ) (i : ℕ)
    → i + length bytes ≤ length buf
    → (length (overwrite buf i bytes) ≡ length buf)
      × (take (i + length bytes) (overwrite buf i bytes) ≡ take i buf ++ bytes)
unfolding overwrite
overwrite-lem buf bytes i h =
    let rest = drop (i + length bytes) buf in
    let front : length (take i buf ++ bytes) ≡ i + length bytes =
      omega (arith, length-append (take i buf) bytes, length-take i buf) in
    (
      omega (
        arith,
        length-append (take i buf ++ bytes) rest,
        front,
        length-drop (i + length bytes) buf,
      ),
      take_all (take i buf ++ bytes) rest (i + length bytes) front,
    )

copy_down-lem :
    (buf : List ℕ)
    → length buf ≡ ts_packet_size
    → (length (copy_down buf) ≡ ts_packet_size)
      × (take (ts_packet_size - 1) (copy_down buf) ≡ drop 1 buf)
unfolding copy_down
copy_down-lem buf h =
    let one = length-drop 1 buf in
    (
      omega (
        arith,
        one,
        h,
        length-append (drop 1 buf) (drop (length buf - 1) buf),
        length-drop (length buf - 1) buf,
      ),
      take_all (drop 1 buf) (drop (length buf - 1) buf) (ts_packet_size - 1)
          (omega (arith, one, h)),
    )

from_slice-IsPacket : (p : Packet) → IsPacket p → from_slice p.bytes ≡ ok p
unfolding from_slice
from_slice-IsPacket p v = new-IsPacket p v

take_whole : (buf : List ℕ) → length buf ≡ ts_packet_size → take ts_packet_size buf ≡ buf
take_whole buf h =
    ap (take ts_packet_size) (sym (append-nil buf)) ∙ take_all buf [] ts_packet_size h

module _ (R : Reader) (law : IsLawful R) where
  open law use {content, next, read_ok, in_order, fits, ends}

  -- The bytes that the source has not handed over yet.
  abbrev pub pending : ReadSource R → List ℕ
  pending s = take s.filled s.buf ++ content s.reader

  pub record IsFilling (s : ReadSource R) : Type 0 where
    pub whole : length s.buf ≡ ts_packet_size
    pub within : s.filled ≤ ts_packet_size

  take_in-lem :
      (s : ReadSource R) (n : ℕ)
      → IsFilling s
      → n ≡ ts_packet_size - s.filled
      → let t = take_in R s (R.read s.reader n).1 (next s.reader n) in
        IsFilling t × (pending t ≡ pending s)
  take_in-lem s n v e =
      let small = fits s.reader n in
      let (len, front) =
        overwrite-lem s.buf (next s.reader n) s.filled (omega (arith, v.whole, v.within)) in
      (
        record { whole = len ∙ v.whole; within = omega (arith, v.within) },
        ap (λ b. b ++ content (R.read s.reader n).1) front
            ∙ append_assoc (take s.filled s.buf) (next s.reader n) (content (R.read s.reader n).1)
            ∙ ap (λ b. take s.filled s.buf ++ b) (sym (in_order s.reader n)),
      )

  -- How the inner loop leaves the source: a whole packet in the buffer, or the end of the stream with
  -- less than one.
  data Fills (s : ReadSource R) : Filled × ReadSource R → Type 0 where
    fills :
        (t : ReadSource R)
        → IsFilling t
        → pending t ≡ pending s
        → t.filled ≡ ts_packet_size
        → Fills s (full, t)
    ends_short :
        (t : ReadSource R) → IsFilling t → length (pending s) < ts_packet_size → Fills s (eof, t)

  Fills-pending :
      (s t : ReadSource R) (o : Filled × ReadSource R)
      → pending t ≡ pending s
      → Fills t o
      → Fills s o
  Fills-pending s t o e (fills u v p f) = fills u v (p ∙ e) f
  Fills-pending s t o e (ends_short u v h) = ends_short u v (omega (arith, ap length e, h))

  fill-Fills :
      (fuel : ℕ) (s : ReadSource R)
      → IsFilling s
      → ts_packet_size - s.filled ≤ fuel
      → Fills s (fill R fuel s)
  unfolding fill
  fill-Fills zero s v h = fills s v refl (omega (arith, v.within))
  fill-Fills (suc fuel) s v h = elim (Bool-cases (leb ts_packet_size s.filled)) [
    | inl e ↦ rw e (fills s v refl (ground (arith, v.within)))
    | inr e ↦
        let n = ts_packet_size - s.filled in
        let room : 0 < n = ground arith in
        let t = take_in R s (R.read s.reader n).1 (next s.reader n) in
        elim (Bool-cases (length (next s.reader n) == 0)) [
          | inl z ↦
              let none_left = ends s.reader n room (==→eq (length (next s.reader n)) 0 z) in
              rw (e, read_ok s.reader n, z)
                (ends_short _ (record { whole = v.whole; within = v.within })
                  (omega (
                    arith,
                    none_left,
                    length-append (take s.filled s.buf) (content s.reader),
                    length-take s.filled s.buf,
                    room,
                  )))
          | inr z ↦
              let (v', p) = take_in-lem s n v refl in
              let more : 0 < length (next s.reader n) = ground arith in
              rw (e, read_ok s.reader n, z)
                (Fills-pending s t (fill R fuel t) p (fill-Fills fuel t v' (omega (arith, more))))
        ]
  ]

  -- What a round of the outer loop does, beside a round of cutting the bytes still to come.
  data Steps (s : ReadSource R) : Round × ReadSource R → Type 0 where
    gives :
        (p : Packet) (t : ReadSource R)
        → IsFilling t
        → length (pending t) + ts_packet_size ≡ length (pending s)
        → ((n : ℕ)
            → split_from (suc n) (pending s)
              ≡ (p ∷ (split_from n (pending t)).0, (split_from n (pending t)).1))
        → Steps s (done (ok (some p)), t)
    slips :
        (t : ReadSource R)
        → IsFilling t
        → length (pending t) + 1 ≡ length (pending s)
        → ((n : ℕ) → split_from (suc n) (pending s) ≡ split_from n (pending t))
        → Steps s (again, t)
    stops : (t : ReadSource R) → length (pending s) < ts_packet_size → Steps s (done (ok none), t)

  full-Steps :
      (s t : ReadSource R)
      → IsFilling t
      → t.filled ≡ ts_packet_size
      → pending t ≡ pending s
      → Steps s (after_fill R full t)
  unfolding after_fill parse_first
  full-Steps s t v f p =
      let bytes : t.buf ++ content t.reader ≡ pending s =
        ap (λ b. b ++ content t.reader) (sym (rw f (take_whole t.buf v.whole))) ∙ p in
      let long : ts_packet_size ≤ length (pending s) =
        omega (arith, ap length bytes, length-append t.buf (content t.reader), v.whole) in
      let head : get_or (pending s) 0 0 ≡ get_or t.buf 0 0 =
        ap (λ b. get_or b 0 0) (sym bytes)
        ∙ head-append t.buf (content t.reader) (omega (arith, v.whole)) in
      elim (Bool-cases (get_or t.buf 0 0 == sync_byte)) [
        | inl e ↦
            let packet : Packet = record { bytes = t.buf } in
            let synced : get_or t.buf 0 0 ≡ sync_byte = ==→eq (get_or t.buf 0 0) sync_byte e in
            let rest : drop ts_packet_size (pending s) ≡ content t.reader =
              ap (drop ts_packet_size) (sym bytes)
              ∙ drop_all t.buf (content t.reader) ts_packet_size v.whole in
            let front : take ts_packet_size (pending s) ≡ t.buf =
              ap (take ts_packet_size) (sym bytes)
              ∙ take_all t.buf (content t.reader) ts_packet_size v.whole in
            let parsed = from_slice-IsPacket packet (v.whole, synced) in
            rw (e, parsed)
              (gives packet (record t { filled = 0 })
                (record { whole = v.whole; within = omega arith })
                (omega (arith, ap length bytes, length-append t.buf (content t.reader), v.whole))
                (λ n. aligned n (pending s) long (head ∙ synced) ∙ rw (front, rest, parsed) refl))
        | inr e ↦
            let (whole, front) = copy_down-lem t.buf v.whole in
            let t' : ReadSource R = record {
              reader = t.reader;
              buf = copy_down t.buf;
              filled = 187;
            } in
            let rest : pending t' ≡ drop 1 (pending s) =
              ap (λ b. b ++ content t.reader) front
              ∙ sym (drop-append_le 1 t.buf (content t.reader) (omega (arith, v.whole)))
              ∙ ap (drop 1) bytes in
            rw e (
              slips t' (record { whole = whole; within = omega arith })
                (omega (arith, ap length rest, length-drop 1 (pending s), long))
                (λ n.
                  slipped n (pending s) long (λ k. ground (arith, e, head, k))
                  ∙ ap (split_from n) (sym rest)))
      ]

  read_round-Steps : (s : ReadSource R) → IsFilling s → Steps s (read_round R s)
  unfolding read_round after_fill
  read_round-Steps s v =
      after (fill R (ts_packet_size - s.filled) s)
        (fill-Fills (ts_packet_size - s.filled) s v (omega arith))
    where
      after : (o : Filled × ReadSource R) → Fills s o → Steps s (after_fill R o.0 o.1)
      after _ (fills t v p f) = full-Steps s t v f p
      after _ (ends_short t v h) = stops t h

  -- What a call of `recv` gives, beside cutting the bytes still to come.
  data Receives (s : ReadSource R) (m : ℕ)
      : Option (Result (Option Packet)) × ReadSource R → Type 0 where
    packet :
        (p : Packet) (t : ReadSource R)
        → IsFilling t
        → length (pending t) < length (pending s)
        → (split_from m (pending s)).0 ≡ p ∷ (split_from m (pending t)).0
        → Receives s m (some (ok (some p)), t)
    finished :
        (t : ReadSource R) → (split_from m (pending s)).0 ≡ [] → Receives s m (some (ok none), t)

  Receives-slide :
      (s t : ReadSource R) (m : ℕ) (o : Option (Result (Option Packet)) × ReadSource R)
      → split_from m (pending s) ≡ split_from m (pending t)
      → length (pending t) ≤ length (pending s)
      → Receives t m o
      → Receives s m o
  Receives-slide s t m _ e le (packet p u v' h same) =
      packet p u v' (omega arith) (ap (λ r. r.0) e ∙ same)
  Receives-slide s t m _ e le (finished u same) = finished u (ap (λ r. r.0) e ∙ same)

  short-none :
      (m : ℕ) (bytes : List ℕ) → length bytes < ts_packet_size → (split_from m bytes).0 ≡ []
  short-none zero bytes h = ap (λ r. r.0) (split_from-zero bytes)
  short-none (suc m) bytes h = ap (λ r. r.0) (short m bytes h)

  recv-Receives :
      (n m : ℕ) (s : ReadSource R)
      → IsFilling s
      → length (pending s) < n
      → length (pending s) ≤ m
      → Receives s m (recv R n s)
  unfolding recv
  recv-Receives zero m s v hn hm = absurd (omega arith)
  recv-Receives (suc n) m s v hn hm =
      after (read_round R s) (read_round-Steps s v)
        (λ t v' h. recv-Receives n m t v' (omega arith) (omega arith))
    where
      after :
          (o : Round × ReadSource R)
          → Steps s o
          → ((t : ReadSource R)
              → IsFilling t
              → length (pending t) < length (pending s)
              → Receives t m (recv R n t))
          → Receives s m (elim o.0 [ done r ↦ (some r, o.1) | again ↦ recv R n o.1 ])
      after _ (gives p t v' shorter same) rec =
          packet p t v' (omega arith)
            (ap (λ r. r.0) (split_from-fuel m (suc m) (pending s) hm (omega arith) ∙ same m))
      after _ (slips t v' shorter same) rec =
          Receives-slide s t m (recv R n t)
            (split_from-fuel m (suc m) (pending s) hm (omega arith) ∙ same m) (omega arith)
            (rec t v' (omega arith))
      after _ (stops t h) rec = finished t (short-none m (pending s) h)

  -- Every packet that the source gives up to its end, as the pacing loop pulls them; `none` is a call
  -- that fails or has not ended.
  abbrev prepend : Packet → Option (List Packet) → Option (List Packet)
  prepend p none = none
  prepend p (some ps) = some (p ∷ ps)

  unfoldable pub drain : ℕ → ReadSource R → Option (List Packet)
  drain zero s = none
  drain (suc fuel) s = elim (recv R (suc fuel) s).0 [
    | some (ok (some p)) ↦ prepend p (drain fuel (recv R (suc fuel) s).1)
    | some (ok none) ↦ some []
    | _ ↦ none
  ]

  drain-split_from :
      (n m : ℕ) (s : ReadSource R)
      → IsFilling s
      → length (pending s) < n
      → length (pending s) ≤ m
      → drain n s ≡ some (split_from m (pending s)).0
  unfolding drain
  drain-split_from zero m s v hn hm = absurd (omega arith)
  drain-split_from (suc n) m s v hn hm =
      after (recv R (suc n) s) (recv-Receives (suc n) m s v hn hm)
        (λ t v' h. drain-split_from n m t v' (omega arith) (omega arith))
    where
      after :
          (o : Option (Result (Option Packet)) × ReadSource R)
          → Receives s m o
          → ((t : ReadSource R)
              → IsFilling t
              → length (pending t) < length (pending s)
              → drain n t ≡ some (split_from m (pending t)).0)
          → elim o.0 [
            | some (ok (some p)) ↦ prepend p (drain n o.1)
            | some (ok none) ↦ some []
            | _ ↦ none
          ]
            ≡ some (split_from m (pending s)).0
      after _ (packet p t v' h same) rec = ap (prepend p) (rec t v' h) ∙ ap some (sym same)
      after _ (finished t same) rec = ap some (sym same)

  new-IsFilling : (reader : R.State) → IsFilling (Read.new R reader)
  unfolding Read.new
  new-IsFilling reader = record { whole = refl; within = omega arith }

  -- However the reader cuts the stream into reads, a source that is read until its end gives exactly
  -- the packets of the whole byte stream cut at once, and each call ends: more rounds than the stream
  -- has bytes are enough.
  pub drain-split_packets :
      (reader : R.State) (fuel : ℕ)
      → length (content reader) < fuel
      → drain fuel (Read.new R reader) ≡ some (split_packets [] (content reader)).0
  unfolding split_packets Read.new
  drain-split_packets reader fuel h =
      drain-split_from fuel (length (content reader)) (Read.new R reader) (new-IsFilling reader) h
        (omega arith)
