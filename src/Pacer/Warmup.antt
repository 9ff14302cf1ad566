-- ===== src/Pacer/Warmup.antt =====
-- src/pacer.rs: what happens before the loop: `resolve_auto`, which measures a rate, and the head of
-- `pace_with`.
pub mod Gather
use mpegts_pacer.Prelude.{
  ℕ, ◌+◌, ◌-◌, max, false, ◌||◌, Option, none, some, List, [], ◌∷◌, ◌++◌, leb, if◌then◌else◌,
  unwrap_or, length,
}
use mpegts_pacer.Float.{Float}
use mpegts_pacer.Error.{Error, Result, ok, err, source_stalled}
use mpegts_pacer.Config.{
  Config, Bitrate, constant, auto, validate, default_auto_fallback, with_bitrate,
}
use mpegts_pacer.Packet.{Packet, has_pcr}
use mpegts_pacer.Estimate.{estimate_content_bitrate}
use mpegts_pacer.Output.{Sink}
use mpegts_pacer.Scheduler
use mpegts_pacer.Scheduler.{Scheduler}
use mpegts_pacer.Scheduler.Enqueue.{enqueue}
use mpegts_pacer.Pacer.Report
use mpegts_pacer.Pacer.{Arrival, packet, eof, silent, stalls_hard, Pacer}

abbrev pub auto_warmup_pcrs : ℕ
auto_warmup_pcrs = 8

abbrev pub auto_warmup_max_packets : ℕ
auto_warmup_max_packets = 20_000

-- How the collecting of packets ends.
pub data Gathered : Type 0 where
  gathered : List Packet → Gathered
  refused : Error → Gathered
  waiting : Gathered

module _ (fl : Float) where
  open fl use {F, lit, of_ℕ, to_u64, add, mul, fmax}

  -- The loop of `resolve_auto` over the outcomes of its waits, each with the instant read after it;
  -- `waiting` is a loop that needs another one.
  unfoldable pub gather :
      Config F → (started_at : ℕ) → List Packet → (pcrs : ℕ) → List (Result Arrival × ℕ) → Gathered
  gather c started_at warmup pcrs [] = waiting
  gather c started_at warmup pcrs ((err e, now) ∷ rest) = refused e
  gather c started_at warmup pcrs ((ok eof, now) ∷ rest) = gathered warmup
  gather c started_at warmup pcrs ((ok silent, now) ∷ rest) =
      let more = gather c started_at warmup pcrs rest in
      if stalls_hard c
      then refused (source_stalled (now - started_at))
      else if leb 2 pcrs
      then gathered warmup
      else more
  gather c started_at warmup pcrs ((ok (packet p), now) ∷ rest) =
      let pcrs' = if has_pcr p then pcrs + 1 else pcrs in
      let warmup' = warmup ++ (p ∷ []) in
      let more = gather c started_at warmup' pcrs' rest in
      if leb auto_warmup_pcrs pcrs' || leb auto_warmup_max_packets (length warmup')
      then gathered warmup'
      else more

  -- The rate to lock: the content rate with its headroom.
  unfoldable pub locked_rate : F → List Packet → ℕ
  locked_rate headroom warmup =
      let content = unwrap_or (estimate_content_bitrate warmup) default_auto_fallback in
      max (to_u64 (mul (of_ℕ content) (add (lit 1 1) (fmax headroom (lit 0 1))))) 1

  -- What `resolve_auto` comes to; `none` while it waits.
  unfoldable pub resolve_auto :
      F
      → Config F
      → (started_at : ℕ) → List (Result Arrival × ℕ)
      → Option (Result (ℕ × List Packet))
  unfolding gather locked_rate
  resolve_auto headroom c started_at waits = elim (gather c started_at [] 0 waits) [
    | waiting ↦ none
    | refused e ↦ some (err e)
    | gathered warmup ↦ some (ok (locked_rate headroom warmup, warmup))
  ]

  -- The configuration with its rate resolved, and the packets already taken from the source.
  unfoldable pub resolve :
      Config F
      → Bitrate F
      → (started_at : ℕ) → List (Result Arrival × ℕ)
      → Option (Result (Config F × List Packet))
  unfolding resolve_auto
  resolve c (constant bitrate) started_at waits = some (ok (c, []))
  resolve c (auto headroom) started_at waits = elim (resolve_auto headroom c started_at waits) [
    | none ↦ none
    | some (err e) ↦ some (err e)
    | some (ok (bitrate, warmup)) ↦ some (ok (with_bitrate c (constant bitrate), warmup))
  ]

  -- The warm-up packets go in at a single instant.
  unfoldable pub enqueue_all : Scheduler F → List Packet → ℕ → Scheduler F
  enqueue_all s [] now = s
  enqueue_all s (p ∷ rest) now = enqueue_all (enqueue fl s p now) rest now

module _ (fl : Float) (snk : Sink) where
  open fl use {F}

  -- The state at the head of the loop; `none` is the panic of `Latency::target`.
  unfoldable pub begin :
      Config F → List Packet → snk.State → (started_at now : ℕ) → Option (Pacer fl snk)
  unfolding enqueue_all
  begin c warmup sink started_at now = elim (Scheduler.new fl c) [
    | none ↦ none
    | some s ↦ some (record {
      config = c;
      scheduler = enqueue_all fl s warmup now;
      closing = false;
      reporter = Report.new;
      started_at = started_at;
      sink = sink;
    })
  ]

  -- The head of `pace_with`: the checks, the rate, the first state. The outer option is a source that
  -- is still waited for, the inner one the panic.
  unfoldable pub pace_with :
      Config F
      → snk.State
      → (measured_from started_at now : ℕ) → List (Result Arrival × ℕ)
      → Option (Result (Option (Pacer fl snk)))
  unfolding resolve begin
  pace_with c sink measured_from started_at now waits = elim (validate c) [
    | err e ↦ some (err e)
    | ok _ ↦ elim (resolve fl c c.bitrate measured_from waits) [
      | none ↦ none
      | some (err e) ↦ some (err e)
      | some (ok (c', warmup)) ↦ some (ok (begin c' warmup sink started_at now))
    ]
  ]
