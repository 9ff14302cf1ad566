-- ===== src/Pacer/Wire.antt =====
-- src/pacer.rs and src/output.rs: the datagram of a slot on its way through the RTP sink.
use mpegts_pacer.Prelude.{
  ℕ, ◌+◌, ◌/◌, ◌%◌, ◌<◌, ◌≡◌, refl, sym, ap, ◌⊎◌, inl, inr, some, List, [], ◌∷◌, length, arith,
  u16_mod, u32_mod,
}
use mpegts_pacer.Float.{Float}
use mpegts_pacer.Slot.{pcr_of_slot}
use mpegts_pacer.Grid.{StreamGrid}
use mpegts_pacer.Scheduler.{Scheduler, Framing, framing, framing_on}
use mpegts_pacer.Scheduler.Emit.{catch_up, emit_datagram}
use mpegts_pacer.Scheduler.Emit.Phase.{emit_datagram-in_place}
use mpegts_pacer.Output.{Port}
use mpegts_pacer.Output.Rtp.{RtpSink, set_framing, rtp_sink}
use mpegts_pacer.Output.Rtp.Header.{Carries, IsNumbered, send-Carries}
use mpegts_pacer.Pacer.{Pacer, emit, offer, send_if_any}

module _ (fl : Float) (port : Port) where
  open fl use {F}

  -- The datagram `bytes` of the leg goes out with the numbers of the slot in which it begins.
  abbrev pub Numbered : Scheduler F → StreamGrid → List ℕ → List ℕ → ℕ → Type 0
  Numbered s g sent bytes ssrc =
      Carries sent ((s.slot / s.packets_per_datagram % u16_mod + s.sequence_seed) % u16_mod)
        (pcr_of_slot g.map s.slot / 300 % u32_mod) ssrc bytes

  framing-on :
      (s : Scheduler F) (g : StreamGrid) → s.grid ≡ some g → framing s ≡ some (framing_on s g)
  unfolding framing
  framing-on s g e = rw e refl

  -- The bytes of a datagram through the sink that was told the position `f`.
  send_if_any-Carries :
      (r : RtpSink port) (f : Framing) (now : ℕ) (bytes : List ℕ)
      → IsNumbered port r
      → f.sequence < u16_mod
      → f.timestamp_90khz < u32_mod
      → let (sent, t) =
          send_if_any fl (rtp_sink port) (offer fl (rtp_sink port) r (some f)) now bytes in
        (t.socket ≡ r.socket)
        ⊎ (Carries t.scratch f.sequence f.timestamp_90khz r.ssrc bytes
            × (port.put r.socket t.scratch ≡ (sent, t.socket))
            × (0 < length bytes))
  unfolding set_framing
  send_if_any-Carries r f now [] v a b = inl refl
  send_if_any-Carries r f now (x ∷ bytes) v a b =
      let told : IsNumbered port (record r { framing = some f }) = record {
        counted = v.counted;
        source = v.source;
        framed = λ f' e. let same : f ≡ f' = cc e in rw (sym same) (a, b);
      } in
      let (carries, put, count, numbered) =
        send-Carries port (record r { framing = some f }) now (x ∷ bytes) told in
      inr (carries, put, omega arith)

  -- On the grid a slot leaves the socket of the RTP sink alone, or sends one packet: its header reads
  -- back as the sequence number and the timestamp of the leg's slot and the sink's source, the
  -- datagram stands behind it, and that slot is the one in which the datagram begins.
  pub emit-Numbered :
      (p : Pacer fl (rtp_sink port)) (g : StreamGrid) (now : ℕ)
      → p.scheduler.grid ≡ some g
      → IsNumbered port p.sink
      → let (sent, q) = emit fl (rtp_sink port) p now in
        (q.sink.socket ≡ p.sink.socket)
        ⊎ (Numbered p.scheduler g q.sink.scratch q.scheduler.scratch p.sink.ssrc
            × (port.put p.sink.socket q.sink.scratch ≡ (sent, q.sink.socket))
            × ((catch_up p.scheduler now).slot ≡ p.scheduler.slot))
  unfolding emit
  emit-Numbered p g now e v =
      rw (framing-on p.scheduler g e)
        (elim (send_if_any-Carries p.sink (framing_on p.scheduler g) now
          (emit_datagram fl p.scheduler now).scratch v (omega arith) (omega arith)) [
            | inl still ↦ inl still
            | inr (carries, put, full) ↦
                elim (emit_datagram-in_place fl p.scheduler now (rw e refl)) [
                  | inl same ↦ inr (carries, put, same)
                  | inr empty ↦ absurd (omega (arith, ap length empty, full))
                ]
          ])
