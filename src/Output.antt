-- ===== src/Output.antt =====
-- src/output.rs: the sinks that a paced datagram leaves by. Sockets, writers and callbacks are
-- parameters; a call that reads a clock is given the instant it reads, in nanoseconds.
pub mod Rtp
use mpegts_pacer.Prelude.{ℕ, List}
use mpegts_pacer.Error.{Result, ok, err}
use mpegts_pacer.Scheduler.{Framing}

-- The trait `Sink`. `send` is given the instant at which it runs.
pub record Sink : Type 1 where
  pub State : Type 0
  pub send : State → ℕ → List ℕ → Result (Unit {0}) × State
  pub set_framing : State → Framing → State

-- What the built-in sinks write to: one call that takes all the bytes, with its outcome.
pub record Port : Type 1 where
  pub State : Type 0
  pub put : State → List ℕ → Result (Unit {0}) × State

-- `WriteSink` over a writer (`write_all`, then `flush`), `UdpSink` over a socket with its destination,
-- and `CallbackSink` over a closure: the datagram goes on as it is, and a position is ignored, as the
-- trait does by default.
unfoldable pub plain_sink : Port → Sink
plain_sink port = record {
  State = port.State;
  send = λ s now datagram. port.put s datagram;
  set_framing = λ s framing. s;
}
