-- ===== src/Lib.antt =====
-- A model of the mpegts-pacer crate: it takes an MPEG transport stream that arrives in bursts and
-- puts it out at a constant bitrate, with null packets as stuffing and with its clock references
-- (PCR) rewritten to the output byte clock.
--
-- The parts, and the files that model them (paths from the repository's root):
--   src/pcr.rs: the PCR field of a packet, the arithmetic of the wrapping 27 MHz clock (Pcr) and the
--     regenerator that locks the PCR to the output position (Pcr/Regen).
--   src/packet.rs and src/null_insertion.rs: a validated packet, the null packet and the packet of a
--     re-inserted PCR (Packet).
--   src/slot.rs: PCR values as output slots (Slot).
--   src/jitter_buffer.rs: the bounded FIFO between input and output (Jitter).
--   src/arrival.rs: the shape of the arrival pattern, which sizes an adaptive cushion (Arrival).
--   src/config.rs: the configuration, its builders and checks (Config).
--   src/stats.rs and src/error.rs: the counters and the error kinds (Stats, Error).
--   src/scheduler.rs: the media clock that says how many packets are due (Media); the grid that
--     gives each packet a slot from the stream alone (Grid); and the scheduler that joins them: its
--     state and reads (Scheduler), how it follows the input's silence and starts its clock
--     (Scheduler/Liveness), how a packet comes in (Scheduler/Enqueue), and how a datagram goes out
--     (Scheduler/Emit).
--   src/pacer.rs and src/source.rs, `split_packets` and `ReadSource`: packets out of a byte stream
--     that is pushed (Source) or read (Source/Read).
--   src/estimate.rs: the content rate between the first and the last PCR (Estimate).
--   src/output.rs: the sinks that hand a datagram on (Output) and the one with an RTP header
--     (Output/Rtp).
--   src/observe.rs: the reports to an observer (Observe).
--   src/pacer.rs, `pace_with`: a turn of its loop as a function of the state (Pacer), which turn it
--     takes when (Pacer/Run), the rate-limited reports (Pacer/Report) and the measuring of the rate
--     before the loop (Pacer/Warmup).
--   src/pacer.rs, `TsPacer`: the handle that packets and bytes are pushed by, with the ends of its
--     channel and its watch (Pacer/Handle).
--   src/main.rs: the command line, from the arguments to the configuration (Cli), what a run comes to
--     and its exit code (Cli/Run), and the log lines about the source (Cli/Log).
-- Prelude holds what they share: Boolean tests, lists, machine words, integers and bit laws. Tests
-- holds runs at concrete inputs.
--
-- How they interact: a packet goes through `enqueue`, which shows it to the arrival profile and the
-- media clock and puts it on the grid (stream clocking) or into the jitter buffer (arrival clocking).
-- For each output datagram `emit_datagram` asks the media clock what is due, takes content from the
-- grid or the buffer slot by slot, re-inserts a PCR where the repetition limit asks for one, stuffs
-- the rest, and rewrites each PCR by the regenerator or the slot. The pacing loop waits for the
-- source or for the next slot, whichever comes first; at a slot it looks at the state of the input,
-- follows the stall policy, offers the sink the stream position and hands it the datagram, and
-- reports to the observer.
--
-- How code is read: a method that takes `&mut self` is a function that returns the new state beside
-- its result, under the method's name; a body with several blocks is cut into functions for the
-- blocks, composed as in the source. A panic or a missing value is `none`, an error is `err`; a
-- panic of `Latency::target` that ends a run under way is left out, the model going on with the
-- depths as they are (`resize` in Scheduler/Liveness), as is the overflow of `target * 2`. A
-- packet is the list of its bytes; an instant and a duration are numbers of nanoseconds, the former
-- with no upper bound. u64 arithmetic keeps its wrap-around or its saturation; the products that the
-- source takes in u128 fit one and are exact. i128 offsets are integers. The double-precision
-- arithmetic is a parameter (Float) about which nothing is assumed, so that a result about code
-- that uses it holds whatever it computes. The arguments of the command line are texts, and a
-- number among them is read as the standard library documents for an unsigned integer.
--
-- The loop of `split_packets` is on fuel: the number of bytes that it looks at, each round dropping
-- one byte at least, so that it ends before its fuel. The loop of `ReadSource::recv` is on fuel
-- too, one more than the bytes to come being enough, and its inner loop on the bytes that are
-- missing. The loop of `parse` is on fuel, the number of its arguments, of which each round takes
-- one at least. The pacing loop has no fuel: a run is any sequence of turns that its waits allow.
-- All other loops run over a list or a count.
--
-- Waits, sockets, writers, readers and callbacks are parameters: what a wait brings and the instant
-- read after it are arguments of a turn, a sink's port, a source's reader and the channel of the handle
-- are records of a state and its calls. About them only what a theorem names is assumed.
--
-- Not modelled: the scheduling of the tasks and the lock of `TsPacer` (src/pacer.rs), under which one
-- call at a time reaches the partial packet; `IterSource` (src/source.rs), which hands on an iterator;
-- `generate_ssrc` (src/output.rs), a random number; the wording of what the program prints
-- (src/main.rs: `announce`, `sample`, `report`); the examples; and log lines of the library.
pub mod Prelude
pub mod Error
pub mod Pcr
pub mod Packet
pub mod Slot
pub mod Jitter
pub mod Grid
pub mod Float
pub mod Cli
pub mod Config
pub mod Arrival
pub mod Media
pub mod Stats
pub mod Scheduler
pub mod Source
pub mod Output
pub mod Estimate
pub mod Observe
pub mod Pacer
pub mod Tests
