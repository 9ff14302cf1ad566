-- ===== src/Pacer/Run/Gate/Stuffing.antt =====
-- src/pacer.rs, the loop of `pace_with` before its clock is armed, on a source that sends stuffing.
use mpegts_pacer.Prelude.{ℕ, ◌≡◌, refl, ◌∙◌, true, ◌==◌}
use mpegts_pacer.Float.{Float}
use mpegts_pacer.Error.{Result, ok, err}
use mpegts_pacer.Output.{Sink}
use mpegts_pacer.Packet.{pid, null_pid}
use mpegts_pacer.Scheduler.{next_due, packets_to_duration, has_pending}
use mpegts_pacer.Scheduler.Enqueue.{enqueue}
use mpegts_pacer.Pacer.{Arrival, packet, eof, silent, Pacer, Turn, running, on_waited}
use mpegts_pacer.Pacer.Run.{Step, Runs, waits, ends, wakes, receives, rests, goes}
use mpegts_pacer.Pacer.Run.Policy.{left_by}

module _ (fl : Float) (snk : Sink) where
  open fl use {F}

  abbrev IsNull : Result Arrival → Type 0
  IsNull (err e) = ⊥
  IsNull (ok eof) = ⊥
  IsNull (ok silent) = ⊥
  IsNull (ok (packet p)) = (pid p == null_pid) ≡ true

  -- A turn that receives a null packet before the clock is armed.
  abbrev pub StepNull : (p : Pacer fl snk) (t : Turn fl snk) → Step fl snk p t → Type 0
  StepNull p _ (waits r now e) = IsNull r
  StepNull p _ (ends due now e f) = ⊥
  StepNull p _ (wakes due now e f g) = ⊥
  StepNull p _ (receives due now r e f) = ⊥

  abbrev pub IsStuffing : (p : Pacer fl snk) (t : Turn fl snk) → Runs fl snk p t → Type 0
  IsStuffing p _ rests = Unit {0}
  IsStuffing p t (goes q _ run step) = IsStuffing p (running q) run × StepNull q t step

  -- The gate is still shut, and nothing was sent or reported.
  abbrev pub IsHeld : Pacer fl snk → Pacer fl snk → Type 0
  IsHeld p q =
      (next_due q.scheduler ≡ next_due p.scheduler)
      × (has_pending q.scheduler ≡ has_pending p.scheduler)
      × (q.reporter ≡ p.reporter)
      × (q.sink ≡ p.sink)

  null-IsHeld :
      (p : Pacer fl snk) (r : Result Arrival) (now : ℕ)
      → IsNull r
      → IsHeld p (left_by fl snk (on_waited fl snk p r now))
  unfolding on_waited enqueue next_due packets_to_duration has_pending
  null-IsHeld p (ok (packet received)) now e = rw e (refl, refl, refl, refl)
  null-IsHeld p (err e) now h = absurd h
  null-IsHeld p (ok eof) now h = absurd h
  null-IsHeld p (ok silent) now h = absurd h

  Step-IsHeld :
      (p : Pacer fl snk) (t : Turn fl snk) (step : Step fl snk p t)
      → StepNull p t step
      → IsHeld p (left_by fl snk t)
  Step-IsHeld p _ (waits r now e) h = null-IsHeld p r now h
  Step-IsHeld p _ (ends due now e f) h = absurd h
  Step-IsHeld p _ (wakes due now e f g) h = absurd h
  Step-IsHeld p _ (receives due now r e f) h = absurd h

  -- Stuffing alone neither opens the start gate nor is silence: on a run of turns that wait before the
  -- clock is armed and receive null packets only, however many and however long, the next due instant
  -- and whether anything is held stay what they were, and nothing is sent or reported.
  pub Runs-IsHeld :
      (p : Pacer fl snk) (t : Turn fl snk) (run : Runs fl snk p t)
      → IsStuffing p t run
      → IsHeld p (left_by fl snk t)
  Runs-IsHeld p _ rests h = (refl, refl, refl, refl)
  Runs-IsHeld p t (goes q _ run step) (h, w) =
      let (due, pending, told, sent) = Runs-IsHeld p (running q) run h in
      let (due', pending', told', sent') = Step-IsHeld q t step w in
      (due' ∙ due, pending' ∙ pending, told' ∙ told, sent' ∙ sent)
