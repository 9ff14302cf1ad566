-- ===== src/Pacer/Handle.antt =====
-- src/pacer.rs, `TsPacer`, `WatchObserver` and `ChannelSource`: the handle that packets are pushed by.
-- The channel, the watch and the task are of another library, so they are parameters; a call that
-- waits is given the state of the channel that its wait leaves.
pub mod Stream
use mpegts_pacer.Prelude.{ℕ, Bool, Option, none, some, List, [], ◌∷◌, if◌then◌else◌}
use mpegts_pacer.Float.{Float}
use mpegts_pacer.Error.{Error, Result, ok, err, closed, io}
use mpegts_pacer.Config.{Config}
use mpegts_pacer.Packet.{Packet}
use mpegts_pacer.Output.{Sink}
use mpegts_pacer.Observe.{Health}
use mpegts_pacer.Scheduler.{priming}
use mpegts_pacer.Stats.{Stats, zeroed}
use mpegts_pacer.Source.{split_packets}

-- A bounded channel, both its ends: a send waits for room and answers whether the packet was taken; a
-- receive waits for a packet, and answers `none` once the sender is dropped and nothing is left.
pub record Channel : Type 1 where
  pub State : Type 0
  pub channel : ℕ → State
  pub send : State → Packet → Bool × State
  pub recv : State → Option Packet × State
  pub drop_sender : State → State

-- A cell that one side sets and the other reads.
pub record Watch (A : Type 0) : Type 1 where
  pub State : Type 0
  pub channel : A → State
  pub send : State → A → State
  pub borrow : State → A

abbrev pub channel_bound : ℕ
channel_bound = 1024

-- `ChannelSource::recv`
unfoldable pub recv : (ch : Channel) → ch.State → Result (Option Packet) × ch.State
recv ch rx = let (packet, rx') = ch.recv rx in (ok packet, rx')

-- What awaiting the task brings: its result, or that it panicked or was cancelled.
pub data Joined (F : Type 0) : Type 0 where
  returned : Result (Stats F) → Joined F
  failed : ℕ → Joined F

-- The sender is dropped before the task is awaited.
unfoldable pub close : {F : Type 0} → Joined F → Result (Stats F)
close (returned result) = result
close (failed e) = err (io e)

module _ (ch : Channel) {F : Type 0} (watch : Watch (Health F)) where
  pub record TsPacer : Type 0 where
    pub tx : ch.State
    pub partial : List ℕ
    pub health : watch.State

  -- `WatchObserver::on_change`
  unfoldable pub on_change : watch.State → Health F → watch.State
  on_change w health = watch.send w health

  unfoldable pub health : TsPacer → Health F
  health h = watch.borrow h.health

  unfoldable pub push_packet : TsPacer → Packet → Result (Unit {0}) × TsPacer
  push_packet h packet =
      let (taken, tx') = ch.send h.tx packet in
      (if taken then ok tt else err closed, record h { tx = tx' })

  -- The loops end with the first packet that is refused.
  unfoldable pub push_packets : TsPacer → List Packet → Result (Unit {0}) × TsPacer
  unfolding push_packet
  push_packets h [] = (ok tt, h)
  push_packets h (packet ∷ rest) =
      let (answer, h') = push_packet h packet in
      let after = push_packets h' rest in elim answer [ err e ↦ (err e, h') | ok _ ↦ after ]

  unfoldable pub push_bytes : TsPacer → List ℕ → Result (Unit {0}) × TsPacer
  unfolding push_packets
  push_bytes h bytes =
      let (packets, left) = split_packets h.partial bytes in
      push_packets (record h { partial = left }) packets

module _ (fl : Float) (ch : Channel) (watch : Watch (Health (fl.F))) (snk : Sink) where
  open fl use {F}

  -- What the spawned task runs on: `pace_with(config, ChannelSource { rx }, sink, WatchObserver(..))`.
  pub record Job : Type 0 where
    pub config : Config F
    pub rx : ch.State
    pub sink : snk.State
    pub observer : watch.State

  unfoldable pub spawn : Config F → snk.State → TsPacer ch watch × Job
  spawn config sink =
      let tx = ch.channel channel_bound in
      let health = watch.channel (record { source = priming; stats = zeroed fl }) in
      (
        record { tx = tx; partial = []; health = health },
        record { config = config; rx = tx; sink = sink; observer = health },
      )
