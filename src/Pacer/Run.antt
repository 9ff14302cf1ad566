-- ===== src/Pacer/Run.antt =====
-- src/pacer.rs, the loop of `pace_with`: which turn it takes when.
pub mod Policy
pub mod Stalled
pub mod Drain
pub mod Sent
pub mod Whole
pub mod Counts
pub mod Gate
use mpegts_pacer.Prelude.{ℕ, suc, ◌≤◌, ◌≡◌, Bool, true, false, Option, none, some}
use mpegts_pacer.Float.{Float}
use mpegts_pacer.Error.{Result}
use mpegts_pacer.Packet.{Packet}
use mpegts_pacer.Output.{Sink}
use mpegts_pacer.Scheduler.{next_due}
use mpegts_pacer.Pacer.{
  Arrival, Pacer, Turn, running, stopped, on_waited, is_over, on_over, on_due, on_received,
}

module _ (fl : Float) (snk : Sink) where
  -- One turn of the loop. While the clock is not armed it waits for the source. Then it returns if the
  -- source has ended and nothing is left; otherwise it sleeps until the slot is due, unless a source
  -- that has not ended answers first.
  pub data Step (p : Pacer fl snk) : Turn fl snk → Type 0 where
    waits :
        (r : Result Arrival) (now : ℕ)
        → next_due p.scheduler ≡ none
        → Step p (on_waited fl snk p r now)
    ends :
        (due now : ℕ)
        → next_due p.scheduler ≡ some due
        → is_over fl snk p ≡ true
        → Step p (on_over fl snk p now)
    wakes :
        (due now : ℕ)
        → next_due p.scheduler ≡ some due
        → is_over fl snk p ≡ false
        → due ≤ now
        → Step p (on_due fl snk p now)
    receives :
        (due now : ℕ) (r : Result (Option Packet))
        → next_due p.scheduler ≡ some due
        → p.closing ≡ false
        → Step p (on_received fl snk p r now)

  -- Any number of turns.
  pub data Runs (p : Pacer fl snk) : Turn fl snk → Type 0 where
    rests : Runs p (running p)
    goes : (q : Pacer fl snk) (t : Turn fl snk) → Runs p (running q) → Step q t → Runs p t

  abbrev pub turns : (p : Pacer fl snk) (t : Turn fl snk) → Runs p t → ℕ
  turns p _ rests = 0
  turns p t (goes q _ run step) = suc (turns p (running q) run)
