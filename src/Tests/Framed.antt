-- ===== src/Tests/Framed.antt =====
-- A run of the theorem on cutting a byte stream into packets.
use mpegts_pacer.Prelude.{ℕ, ◌≡◌, List, [], ◌∷◌, ◌++◌}
use mpegts_pacer.Packet.{null_packet}
use mpegts_pacer.Source.{split_packets}
use mpegts_pacer.Source.Split.{joined, split_packets-append}

-- A stray byte before a packet.
abbrev stray : List ℕ
stray = 1 ∷ null_packet

split_packets-append_example :
    split_packets [] (stray ++ stray)
    ≡ joined (split_packets [] stray) (split_packets (split_packets [] stray).1 stray)
split_packets-append_example = split_packets-append [] stray stray
