-- ===== src/Tests/Starting.antt =====
-- Runs of the theorems on what comes before the loop: the command line and the measured rate.
use mpegts_pacer.Prelude.{ℕ, ◌<◌, ◌≡◌, refl, [], ◌∷◌, true, some, arith}
use mpegts_pacer.Float.{micro}
use mpegts_pacer.Error.{ok}
use mpegts_pacer.Config.{auto_rate}
use mpegts_pacer.Pcr.{read_pcr}
use mpegts_pacer.Packet.{Packet, null_packet, has_pcr, pcr_only_packet}
use mpegts_pacer.Cli.{value, accepted, defaults, parse_options}
use mpegts_pacer.Cli.Number.Decimal.{decimal, written}
use mpegts_pacer.Cli.Options.{
  rtp, ssrc, latency, arguments, written_as, all_chosen, chosen, parse_options-arguments,
}
use mpegts_pacer.Estimate.{estimate_content_bitrate}
use mpegts_pacer.Estimate.Pass.{without_stuffing, estimate_content_bitrate-without_stuffing}
use mpegts_pacer.Pacer.{packet, eof}
use mpegts_pacer.Pacer.Warmup.{resolve_auto, gather, locked_rate}
use mpegts_pacer.Pacer.Warmup.Gather.{Measured, resolve_auto-Measured}

parse_options-arguments_example :
    parse_options 9 defaults
      ("--latency-ms" ∷ "250" ∷ "--rtp" ∷ "--ssrc" ∷ "7" ∷ "--latency-ms" ∷ "300" ∷ [])
    ≡ some (accepted (record defaults { rtp = true; ssrc = some 7; latency = some 300_000_000 }))
unfolding arguments written_as all_chosen chosen decimal written
parse_options-arguments_example =
    parse_options-arguments 9 defaults (latency 250 ∷ rtp ∷ ssrc 7 ∷ latency 300 ∷ [])
      (omega arith, (tt, (omega arith, (omega arith, tt)))) (omega arith)

abbrev stuffing : Packet
stuffing = record { bytes = null_packet }

-- A source that delivers one packet and ends.
resolve_auto-Measured_example :
    Measured [] ((ok (packet stuffing), 1) ∷ (ok eof, 2) ∷ []) (stuffing ∷ [])
    × (0 < locked_rate micro 15 (stuffing ∷ []))
unfolding resolve_auto gather has_pcr read_pcr null_packet
resolve_auto-Measured_example =
    resolve_auto-Measured micro 15 (auto_rate micro) 0
      ((ok (packet stuffing), 1) ∷ (ok eof, 2) ∷ []) (locked_rate micro 15 (stuffing ∷ []))
      (stuffing ∷ []) refl

-- A packet with a PCR.
abbrev clocked : ℕ → Packet
clocked value = record { bytes = pcr_only_packet 256 0 value }

estimate_content_bitrate-without_stuffing_example :
    estimate_content_bitrate
      (without_stuffing (clocked 0 ∷ stuffing ∷ clocked 2_700_000 ∷ stuffing ∷ []))
    ≡ estimate_content_bitrate (clocked 0 ∷ stuffing ∷ clocked 2_700_000 ∷ stuffing ∷ [])
estimate_content_bitrate-without_stuffing_example =
    estimate_content_bitrate-without_stuffing
      (clocked 0 ∷ stuffing ∷ clocked 2_700_000 ∷ stuffing ∷ [])
