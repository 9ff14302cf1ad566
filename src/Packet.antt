-- ===== src/Packet.antt =====
-- src/packet.rs and src/null_insertion.rs: a validated transport packet, the null packet and the
-- packet that carries a re-inserted PCR.
pub mod Stuffing
pub mod Whole
use mpegts_pacer.Prelude.{
  ℕ, ◌+◌, ◌-◌, ◌*◌, ◌/◌, ◌%◌, ◌^◌, bit_and, bit_or, Bool, not, Option, List, ◌==◌, if◌then◌else◌,
  is_some, length, get_or, set, replicate,
}
use mpegts_pacer.Error.{Result, ok, err, invalid_packet}
use mpegts_pacer.Pcr.{ts_packet_size, read_pcr, write_pcr}

abbrev pub sync_byte : ℕ
sync_byte = 0x47

-- `Packet(Bytes)`
pub record Packet : Type 0 where
  pub bytes : List ℕ

unfoldable pub new : List ℕ → Result Packet
new bytes =
    if not (length bytes == ts_packet_size)
    then err (invalid_packet "expected exactly 188 bytes")
    else if not (get_or bytes 0 0 == sync_byte)
    then err (invalid_packet "missing 0x47 sync byte")
    else ok (record { bytes = bytes })

-- The copy that `Bytes::copy_from_slice` makes is the same list.
unfoldable pub from_slice : List ℕ → Result Packet
unfolding new
from_slice slice = new slice

unfoldable pub pid : Packet → ℕ
pid p = bit_or (bit_and (get_or p.bytes 1 0) 0x1f * 2 ^ 8) (get_or p.bytes 2 0)

unfoldable pub pcr : Packet → Option ℕ
pcr p = read_pcr p.bytes

unfoldable pub has_pcr : Packet → Bool
unfolding pcr
has_pcr p = is_some (pcr p)

abbrev pub null_pid : ℕ
null_pid = 0x1fff

-- The six assignments and the PCR field over 188 bytes of 0xff.
unfoldable pub pcr_only_packet : ℕ → ℕ → ℕ → List ℕ
pcr_only_packet pid cc pcr_ticks =
    let blank = replicate ts_packet_size 0xff in
    let p0 = set blank 0 0x47 in
    let p1 = set p0 1 (bit_and (pid / 2 ^ 8 % 256) 0x1f) in
    let p2 = set p1 2 (pid % 256) in
    let p3 = set p2 3 (bit_or 0x20 (bit_and cc 0x0f)) in
    let p4 = set p3 4 ((ts_packet_size - 5) % 256) in
    let p5 = set p4 5 0x10 in write_pcr p5 6 pcr_ticks

unfoldable pub null_packet : List ℕ
null_packet =
    let blank = replicate ts_packet_size 0xff in
    set (set (set (set blank 0 0x47) 1 0x1f) 2 0xff) 3 0x10
