-- ===== src/Output/Rtp/Header.antt =====
-- src/output.rs, `RtpSink`: what a receiver reads from a sent datagram.
use mpegts_pacer.Prelude.{
  ℕ, ◌+◌, ◌-◌, ◌*◌, ◌/◌, ◌%◌, ◌^◌, ◌<◌, ◌≡◌, refl, ap, Option, none, some, List, ◌++◌, get_or, drop,
  arith, u16_mod, u32_mod,
}
use mpegts_pacer.Pcr.{write_octets}
use mpegts_pacer.Scheduler.{Framing}
use mpegts_pacer.Output.{Port}
use mpegts_pacer.Output.Rtp.{
  rtp_header, be_bytes_16, be_bytes_32, rtp_timestamp_90khz, RtpSink, numbers, send,
  rtp_header_size,
}

-- A big-endian number from `i` on.
abbrev pub read_16 : List ℕ → ℕ → ℕ
read_16 b i = get_or b i 0 * 2 ^ 8 + get_or b (i + 1) 0

abbrev pub read_32 : List ℕ → ℕ → ℕ
read_32 b i = read_16 b i * 2 ^ 16 + read_16 b (i + 2)

-- A version 2 header of an MPEG-TS payload with the given numbers, and the payload behind it.
pub record Carries (bytes : List ℕ) (sequence timestamp ssrc : ℕ) (payload : List ℕ) : Type 0 where
  pub version : get_or bytes 0 0 / 2 ^ 6 ≡ 2
  pub payload_type : get_or bytes 1 0 % 2 ^ 7 ≡ 33
  pub numbered : read_16 bytes 2 ≡ sequence
  pub stamped : read_32 bytes 4 ≡ timestamp
  pub from_source : read_32 bytes 8 ≡ ssrc
  pub behind : drop rtp_header_size bytes ≡ payload

rtp_header-Carries :
    (sequence timestamp ssrc : ℕ) (payload : List ℕ)
    → sequence < u16_mod
    → timestamp < u32_mod
    → ssrc < u32_mod
    → Carries (rtp_header sequence timestamp ssrc ++ payload) sequence timestamp ssrc payload
unfolding rtp_header be_bytes_16 be_bytes_32 write_octets
rtp_header-Carries sequence timestamp ssrc payload a b c = record {
  version = refl;
  payload_type = refl;
  numbered = omega arith;
  stamped = omega arith;
  from_source = omega arith;
  behind = refl;
}

-- The timestamp counts ninetieths of a millisecond, cut to 32 bits.
rtp_timestamp_90khz_lem :
    (elapsed : ℕ) → rtp_timestamp_90khz elapsed ≡ elapsed * 9 / 100_000 % u32_mod
unfolding rtp_timestamp_90khz
rtp_timestamp_90khz_lem elapsed = omega arith

module _ (port : Port) where
  -- The sink's numbers are of their widths.
  pub record IsNumbered (s : RtpSink port) : Type 0 where
    pub counted : s.sequence < u16_mod
    pub source : s.ssrc < u32_mod
    pub framed :
        (f : Framing) → s.framing ≡ some f → (f.sequence < u16_mod) × (f.timestamp_90khz < u32_mod)

  -- The numbers that a datagram is due: its place in the stream where the pacer has said it, and
  -- else the sink's count and the time since it was opened.
  abbrev pub due_numbers : RtpSink port → Option Framing → ℕ → ℕ × ℕ
  due_numbers s (some f) now = (f.sequence, f.timestamp_90khz)
  due_numbers s none now = (s.sequence, (now - s.started_at) * 9 / 100_000 % u32_mod)

  -- The count after it.
  abbrev pub count_after : RtpSink port → Option Framing → ℕ
  count_after s (some f) = s.sequence
  count_after s none = (s.sequence + 1) % u16_mod

  numbers_lem :
      (s : RtpSink port) (o : Option Framing) (now : ℕ)
      → numbers port s o now ≡ (due_numbers s o now, count_after s o)
  unfolding numbers
  numbers_lem s (some f) now = refl
  numbers_lem s none now =
      ap (λ t. let out : (ℕ × ℕ) × ℕ = ((s.sequence, t), (s.sequence + 1) % u16_mod) in out)
        (rtp_timestamp_90khz_lem (now - s.started_at))

  due_numbers-bounds :
      (s : RtpSink port) (o : Option Framing) (now : ℕ)
      → IsNumbered s
      → s.framing ≡ o
      → ((due_numbers s o now).0 < u16_mod)
        × ((due_numbers s o now).1 < u32_mod)
        × (count_after s o < u16_mod)
  due_numbers-bounds s (some f) now v e = let (a, b) = v.framed f e in (a, b, v.counted)
  due_numbers-bounds s none now v e = (v.counted, omega arith, omega arith)

  -- A sent datagram goes to the socket once, whole, behind a header that a receiver reads back as its
  -- numbers and the sink's source; the count moves on only for a datagram that it numbered, and the
  -- numbers keep their widths, whatever the socket answers.
  pub send-Carries :
      (s : RtpSink port) (now : ℕ) (datagram : List ℕ)
      → IsNumbered s
      → let (sent, t) = send port s now datagram in
        let (sequence, timestamp) = due_numbers s s.framing now in
        Carries t.scratch sequence timestamp s.ssrc datagram
        × (port.put s.socket t.scratch ≡ (sent, t.socket))
        × (t.sequence ≡ count_after s s.framing)
        × IsNumbered t
  unfolding send
  send-Carries s now datagram v =
      let (a, b, c) = due_numbers-bounds s s.framing now v refl in
      rw (numbers_lem s s.framing now) (
        rtp_header-Carries (due_numbers s s.framing now).0 (due_numbers s s.framing now).1 s.ssrc
            datagram a b v.source,
        refl,
        refl,
        record { counted = c; source = v.source; framed = v.framed },
      )
