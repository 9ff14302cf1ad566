-- ===== src/Source.antt =====
-- src/source.rs, `ReadSource`, and src/pacer.rs, `TsPacer::split_packets`: transport packets out of a
-- byte stream, resynchronising on the sync byte.
pub mod Split
pub mod Read
use mpegts_pacer.Prelude.{
  ℕ, zero, suc, ◌+◌, ◌-◌, Option, none, some, List, [], ◌∷◌, ◌++◌, leb, ltb, ◌==◌, if◌then◌else◌,
  length, get_or, take, drop,
}
use mpegts_pacer.Error.{Result, ok, err}
use mpegts_pacer.Packet.{Packet, from_slice, sync_byte}
use mpegts_pacer.Pcr.{ts_packet_size}

-- A parsed packet joins those before it; a slice that is no packet adds none.
abbrev pub push_ok : Result Packet → List Packet → List Packet
push_ok (ok p) packets = p ∷ packets
push_ok (err e) packets = packets

-- `Packet::from_slice(&partial[offset..offset + TS_PACKET_SIZE])`, before what the rest gives.
unfoldable pub parse_first : List ℕ → List Packet × List ℕ → List Packet × List ℕ
parse_first bytes (found, left) = (push_ok (from_slice (take ts_packet_size bytes)) found, left)

-- The loop over `partial[offset..]`, given as that list: the packets found, and what is left. Each
-- round drops a byte at least, so as many rounds as bytes are enough.
unfoldable pub split_from : ℕ → List ℕ → List Packet × List ℕ
split_from zero bytes = ([], bytes)
split_from (suc fuel) bytes =
    let skip = split_from fuel (drop 1 bytes) in
    let parsed = parse_first bytes (split_from fuel (drop ts_packet_size bytes)) in
    if leb ts_packet_size (length bytes)
    then (if get_or bytes 0 0 == sync_byte then parsed else skip)
    else ([], bytes)

-- The buffer after `data`, and the packets that it completes.
unfoldable pub split_packets : List ℕ → List ℕ → List Packet × List ℕ
unfolding split_from
split_packets partial bytes = split_from (length (partial ++ bytes)) (partial ++ bytes)
