-- ===== src/Estimate.antt =====
-- src/estimate.rs: the content bitrate of a run of packets, from its PCR clock. The products fit a
-- u128.
pub mod Pass
use mpegts_pacer.Prelude.{
  ℕ, suc, ◌+◌, ◌-◌, ◌*◌, ◌/◌, min, Option, none, some, List, [], ◌∷◌, leb, ◌==◌, if◌then◌else◌,
  is_none, take, drop, u64_max,
}
use mpegts_pacer.Pcr.{ts_packet_size, pcr_clock_hz, forward_delta}
use mpegts_pacer.Packet.{Packet, pid, pcr, null_pid}

-- `first` and `last`: a packet's index with its PCR.
abbrev pub Sample : Type 0
Sample = Option (ℕ × ℕ)

-- The effect of a packet at `index` on the two.
abbrev pub note_pcr : Sample × Sample → ℕ → Option ℕ → Sample × Sample
note_pcr (first, last) index none = (first, last)
note_pcr (first, last) index (some value) =
    (if is_none first then some (index, value) else first, some (index, value))

unfoldable pub scan : Sample × Sample → ℕ → List Packet → Sample × Sample
scan found index [] = found
scan found index (packet ∷ rest) = scan (note_pcr found index (pcr packet)) (index + 1) rest

-- `filter(|packet| packet.pid() != NULL_PID).count()`
unfoldable pub count_content : List Packet → ℕ
count_content [] = 0
count_content (packet ∷ rest) =
    let more = count_content rest in if pid packet == null_pid then more else suc more

-- The rate between two samples.
unfoldable pub rate_between : List Packet → ℕ × ℕ → ℕ × ℕ → Option ℕ
unfolding count_content
rate_between packets (first_index, first_pcr) (last_index, last_pcr) =
    let span_ticks = forward_delta first_pcr last_pcr in
    let content = count_content (take (last_index + 1 - first_index) (drop first_index packets)) in
    if leb last_index first_index
    then none
    else if span_ticks == 0
    then none
    else some (min (content * ts_packet_size * 8 * pcr_clock_hz / span_ticks) u64_max)

abbrev pub rate_of : List Packet → Sample × Sample → Option ℕ
rate_of packets (some first, some last) = rate_between packets first last
rate_of packets (_, _) = none

unfoldable pub estimate_content_bitrate : List Packet → Option ℕ
unfolding scan rate_between
estimate_content_bitrate packets = rate_of packets (scan (none, none) 0 packets)
