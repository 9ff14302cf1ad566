-- ===== src/Source/Read.antt =====
-- src/source.rs, `ReadSource`: packets read from a byte stream, one at a time. The reader behind it is
-- a parameter; the bytes of the array `buf` are a list.
pub mod Drain
use mpegts_pacer.Prelude.{
  ℕ, zero, suc, ◌+◌, ◌-◌, ◌≤◌, ◌<◌, ◌≡◌, Option, none, some, List, [], ◌∷◌, ◌++◌, leb, ◌==◌,
  if◌then◌else◌, length, get_or, take, drop, replicate,
}
use mpegts_pacer.Error.{Error, Result, ok, err}
use mpegts_pacer.Packet.{Packet, from_slice, sync_byte}
use mpegts_pacer.Pcr.{ts_packet_size}

-- A buffered reader: a read into a slice of the given length, with the bytes it put there.
pub record Reader : Type 1 where
  pub State : Type 0
  pub read : State → ℕ → Result (List ℕ) × State

-- What `AsyncRead` documents of a reader that does not fail: the bytes come in order, no more than the
-- slice holds, and none at all only at the end.
pub record IsLawful (R : Reader) : Type 0 where
  pub content : R.State → List ℕ
  pub next : R.State → ℕ → List ℕ
  pub read_ok : (r : R.State) (n : ℕ) → (R.read r n).0 ≡ ok (next r n)
  pub in_order : (r : R.State) (n : ℕ) → content r ≡ next r n ++ content (R.read r n).1
  pub fits : (r : R.State) (n : ℕ) → length (next r n) ≤ n
  pub ends : (r : R.State) (n : ℕ) → 0 < n → length (next r n) ≡ 0 → length (content r) ≡ 0

-- How the inner loop ends.
pub data Filled : Type 0 where
  full eof : Filled
  failed : Error → Filled

-- What a round of the outer loop comes to.
pub data Round : Type 0 where
  again : Round
  done : Result (Option Packet) → Round

-- The bytes read into `buf[i..]`.
unfoldable pub overwrite : List ℕ → ℕ → List ℕ → List ℕ
overwrite buf i bytes = take i buf ++ bytes ++ drop (i + length bytes) buf

-- `buf.copy_within(1.., 0)`: the last byte stays.
unfoldable pub copy_down : List ℕ → List ℕ
copy_down buf = drop 1 buf ++ drop (length buf - 1) buf

module _ (R : Reader) where
  pub record ReadSource : Type 0 where
    pub reader : R.State
    pub buf : List ℕ
    pub filled : ℕ

  unfoldable pub new : R.State → ReadSource
  new reader = record { reader = reader; buf = replicate ts_packet_size 0; filled = 0 }

  -- `self.filled += n` with the bytes that a read put in the buffer.
  abbrev pub take_in : ReadSource → R.State → List ℕ → ReadSource
  take_in s reader bytes = record {
    reader = reader;
    buf = overwrite s.buf s.filled bytes;
    filled = s.filled + length bytes;
  }

  -- The inner loop. Each of its rounds reads a byte or ends it, so as many as bytes are missing are
  -- enough.
  unfoldable pub fill : ℕ → ReadSource → Filled × ReadSource
  unfolding overwrite
  fill zero s = (full, s)
  fill (suc fuel) s =
      let reader' = (R.read s.reader (ts_packet_size - s.filled)).1 in
      if leb ts_packet_size s.filled
      then (full, s)
      else elim (R.read s.reader (ts_packet_size - s.filled)).0 [
        | err e ↦ (failed e, record s { reader = reader' })
        | ok bytes ↦
            if length bytes == 0
            then (eof, record s { reader = reader' })
            else fill fuel (take_in s reader' bytes)
      ]

  -- `Ok(Some(Packet::from_slice(&self.buf)?))`
  abbrev pub found : Result Packet → Result (Option Packet)
  found (ok p) = ok (some p)
  found (err e) = err e

  -- A round of the outer loop, once the inner one has ended.
  unfoldable pub after_fill : Filled → ReadSource → Round × ReadSource
  unfolding copy_down
  after_fill (failed e) s = (done (err e), s)
  after_fill eof s = (done (ok none), s)
  after_fill full s =
      if get_or s.buf 0 0 == sync_byte
      then (done (found (from_slice s.buf)), record s { filled = 0 })
      else (again, record s { buf = copy_down s.buf; filled = ts_packet_size - 1 })

  unfoldable pub read_round : ReadSource → Round × ReadSource
  unfolding fill after_fill
  read_round s = let (o, t) = fill (ts_packet_size - s.filled) s in after_fill o t

  -- `none` is a loop that has not ended in `fuel` rounds.
  unfoldable pub recv : ℕ → ReadSource → Option (Result (Option Packet)) × ReadSource
  unfolding read_round
  recv zero s = (none, s)
  recv (suc fuel) s = elim (read_round s).0 [
    | done r ↦ (some r, (read_round s).1)
    | again ↦ recv fuel (read_round s).1
  ]
