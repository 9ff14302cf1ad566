-- ===== src/Pacer/Run/Whole.antt =====
-- src/pacer.rs, the loop of `pace_with`: every datagram that a run sends is made of whole packets.
use mpegts_pacer.Prelude.{ℕ, ◌≡◌, refl, ◌&&◌, not, [], All}
use mpegts_pacer.Float.{Float}
use mpegts_pacer.Output.{Sink}
use mpegts_pacer.Scheduler.{state}
use mpegts_pacer.Scheduler.Liveness.{is_stalled}
use mpegts_pacer.Scheduler.Emit.Whole.{IsSound}
use mpegts_pacer.Pacer.{Pacer, Turn, running, on_over, on_due}
use mpegts_pacer.Pacer.Run.{Step, Runs, waits, ends, wakes, receives, rests, goes}
use mpegts_pacer.Pacer.Run.Policy.{left_by}
use mpegts_pacer.Pacer.Run.Sent.{
  IsSent, FedOn, FedBy, tapped, Sends, unmoved, Left, act-Left, on_waited-Left, on_received-Left,
}

module _ (fl : Float) (snk : Sink) where
  open fl use {F}

  -- What the source delivers on a run is packets, as `Packet` is built by checks alone.
  abbrev pub StepFed : (p : Pacer fl snk) (t : Turn fl snk) → Step fl snk p t → Type 0
  StepFed p _ (waits r now e) = FedBy r
  StepFed p _ (ends due now e f) = Unit {0}
  StepFed p _ (wakes due now e f g) = Unit {0}
  StepFed p _ (receives due now r e f) = FedOn r

  abbrev pub IsFed : (p : Pacer fl snk) (t : Turn fl snk) → Runs fl snk p t → Type 0
  IsFed p _ rests = Unit {0}
  IsFed p t (goes q _ run step) = IsFed p (running q) run × StepFed q t step

module _ (fl : Float) (snk : Sink) where
  open fl use {F}

  pub Step-Left :
      (n : ℕ) (p : Pacer fl (tapped fl snk)) (t : Turn fl (tapped fl snk))
      (step : Step fl (tapped fl snk) p t)
      → Sends fl snk n p
      → StepFed fl (tapped fl snk) p t step
      → Left fl snk n t
  unfolding on_due on_over
  Step-Left n p _ (waits r now e) h w = on_waited-Left fl snk n p r now h w
  Step-Left n p _ (ends due now e f) h w = unmoved fl snk n p _ h refl refl
  Step-Left n p _ (wakes due now e f g) h w =
      let current = state p.scheduler now in
      act-Left fl snk n p (is_stalled current && not p.closing) p.config.stall_policy current now h
  Step-Left n p _ (receives due now r e f) h w = on_received-Left fl snk n p r now h w

  Runs-Left :
      (n : ℕ) (p : Pacer fl (tapped fl snk)) (t : Turn fl (tapped fl snk))
      (run : Runs fl (tapped fl snk) p t)
      → Sends fl snk n p
      → IsFed fl (tapped fl snk) p t run
      → Left fl snk n t
  Runs-Left n p _ rests h w = h
  Runs-Left n p t (goes q _ run step) h (w, v) =
      Step-Left n q t step (Runs-Left n p (running q) run h w) v

  -- Whole datagrams. A run from a leg that holds whole packets only and has sent nothing sends, by any
  -- sink and whatever the sink answers, only datagrams of exactly `packets_per_datagram` packets of 188
  -- bytes with their sync byte, which a receiver's splitter reads back with nothing left over, when
  -- what its source delivers is packets.
  pub Runs-IsSent :
      (p : Pacer fl (tapped fl snk)) (t : Turn fl (tapped fl snk))
      (run : Runs fl (tapped fl snk) p t)
      → IsSound p.scheduler
      → p.sink.1 ≡ []
      → IsFed fl (tapped fl snk) p t run
      → All (IsSent p.scheduler.packets_per_datagram) (left_by fl (tapped fl snk) t).sink.1
  Runs-IsSent p t run v e w =
      let start : Sends fl snk p.scheduler.packets_per_datagram p = record {
        sound = v;
        size = refl;
        sent = rw e tt;
      } in
      (Runs-Left p.scheduler.packets_per_datagram p t run start w).sent
