-- ===== src/Observe.antt =====
-- src/observe.rs: a report of the pacer's health. An observer is the list of the reports made to it,
-- the latest first.
use mpegts_pacer.Scheduler.{SourceState, live, priming, starved, stalled}
use mpegts_pacer.Prelude.{Bool, true, false}
use mpegts_pacer.Stats.{Stats}

pub record Health (F : Type 0) : Type 0 where
  pub source : SourceState
  pub stats : Stats F

unfoldable pub is_live : SourceState → Bool
is_live live = true
is_live priming = false
is_live starved = false
is_live stalled = false
