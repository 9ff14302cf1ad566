-- ===== src/Output/Rtp.antt =====
-- src/output.rs, `RtpSink`: datagrams in an RTP header, numbered from the stream where the pacer says
-- where they stand, from the sink's own count where it does not.
pub mod Header
use mpegts_pacer.Prelude.{
  ℕ, ◌+◌, ◌-◌, ◌*◌, ◌/◌, ◌%◌, ◌^◌, Option, none, some, List, [], ◌∷◌, ◌++◌, replicate, set, bit_and,
  u16_mod, u32_mod, u64_mod,
}
use mpegts_pacer.Error.{Result, ok, err}
use mpegts_pacer.Pcr.{write_octets}
use mpegts_pacer.Scheduler.{Framing}
use mpegts_pacer.Output.{Sink, Port}

abbrev pub rtp_payload_type_mp2t : ℕ
rtp_payload_type_mp2t = 33

abbrev pub rtp_header_size : ℕ
rtp_header_size = 12

abbrev pub rtp_version : ℕ
rtp_version = 2

-- `to_be_bytes` of a u16 and of a u32
unfoldable pub be_bytes_16 : ℕ → List ℕ
be_bytes_16 n = n / 2 ^ 8 % 256 ∷ n % 256 ∷ []

unfoldable pub be_bytes_32 : ℕ → List ℕ
be_bytes_32 n = n / 2 ^ 24 % 256 ∷ n / 2 ^ 16 % 256 ∷ n / 2 ^ 8 % 256 ∷ n % 256 ∷ []

-- The 90 kHz timestamp of an elapsed time.
unfoldable pub rtp_timestamp_90khz : ℕ → ℕ
rtp_timestamp_90khz elapsed =
    (elapsed / 1_000_000_000 * 90_000 % u64_mod + elapsed % 1_000_000_000 * 90_000 / 1_000_000_000)
    % u64_mod
    % u32_mod

-- The twelve bytes of the header, written over zeros.
unfoldable pub rtp_header : ℕ → ℕ → ℕ → List ℕ
unfolding be_bytes_16 be_bytes_32
rtp_header sequence timestamp ssrc =
    let h0 = replicate rtp_header_size 0 in
    let h1 = set h0 0 (rtp_version * 2 ^ 6 % 256) in
    let h2 = set h1 1 (bit_and rtp_payload_type_mp2t 0x7f) in
    let h3 = write_octets h2 2 (be_bytes_16 sequence) in
    let h4 = write_octets h3 4 (be_bytes_32 timestamp) in write_octets h4 8 (be_bytes_32 ssrc)

module _ (port : Port) where
  pub record RtpSink : Type 0 where
    pub socket : port.State
    pub sequence : ℕ
    pub ssrc : ℕ
    pub started_at : ℕ
    pub framing : Option Framing
    pub scratch : List ℕ

  unfoldable pub with_ssrc : port.State → ℕ → ℕ → RtpSink
  with_ssrc socket ssrc now = record {
    socket = socket;
    sequence = 0;
    ssrc = ssrc;
    started_at = now;
    framing = none;
    scratch = [];
  }

  unfoldable pub set_framing : RtpSink → Framing → RtpSink
  set_framing s framing = record s { framing = some framing }

  -- The numbers of the next datagram, and the count after it.
  unfoldable pub numbers : RtpSink → Option Framing → ℕ → (ℕ × ℕ) × ℕ
  unfolding rtp_timestamp_90khz
  numbers s (some framing) now = ((framing.sequence, framing.timestamp_90khz), s.sequence)
  numbers s none now =
      ((s.sequence, rtp_timestamp_90khz (now - s.started_at)), (s.sequence + 1) % u16_mod)

  unfoldable pub send : RtpSink → ℕ → List ℕ → Result (Unit {0}) × RtpSink
  unfolding numbers rtp_header
  send s now datagram =
      let ((sequence, timestamp), next) = numbers s s.framing now in
      let scratch' = rtp_header sequence timestamp s.ssrc ++ datagram in
      let (sent, socket') = port.put s.socket scratch' in
      (sent, record s { socket = socket'; sequence = next; scratch = scratch' })

  abbrev pub rtp_sink : Sink
  rtp_sink = record { State = RtpSink; send = send; set_framing = set_framing }
