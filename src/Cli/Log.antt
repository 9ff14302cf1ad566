-- ===== src/Cli/Log.antt =====
-- src/main.rs, `liveness`: the log lines that the program prints from the reports of its pacer. The
-- closure is a function of its captured state and of the instant that it reads.
pub mod Lines
use mpegts_pacer.Prelude.{
  ℕ, ◌+◌, ◌-◌, ◌/◌, Bool, false, Option, none, some, List, [], ◌∷◌, ◌++◌, leb, if◌then◌else◌,
}
use mpegts_pacer.Observe.{Health}
use mpegts_pacer.Scheduler.{SourceState, priming, live, starved, stalled}
use mpegts_pacer.Pacer.Report.{same_state}

-- A line on stderr, by what it shows.
pub data Line (F : Type 0) : Type 0 where
  sample : (seconds : ℕ) → Health F → Line F
  source_stalled : (stalls content_gap_max_ms : ℕ) → Line F
  source_live : (arrival_lead_ms latency_target_ms : ℕ) → Line F
  source : SourceState → Line F

-- What the closure captures: with `next` the instant of the next sample and the interval.
pub record Liveness : Type 0 where
  pub last : Option SourceState
  pub started : ℕ
  pub next : Option (ℕ × ℕ)

unfoldable pub liveness : Option ℕ → ℕ → Liveness
liveness none now = record { last = none; started = now; next = none }
liveness (some every) now = record { last = none; started = now; next = some (now + every, every) }

-- `last.replace(health.source) == Some(health.source)`
abbrev pub was : Option SourceState → SourceState → Bool
was none current = false
was (some before) current = same_state before current

module _ {F : Type 0} where
  -- The line of a source in a new state.
  abbrev pub state_line : SourceState → Health F → Line F
  state_line stalled health = source_stalled health.stats.stalls health.stats.content_gap_max_ms
  state_line live health = source_live health.stats.arrival_lead_ms health.stats.latency_target_ms
  state_line priming health = source priming
  state_line starved health = source starved

  -- The counter line, where one is due: the next instant, and the line.
  unfoldable pub sampled : Option (ℕ × ℕ) → ℕ → ℕ → Health F → Option (ℕ × ℕ) × List (Line F)
  sampled none started now health = (none, [])
  sampled (some (due, every)) started now health =
      if leb due now
      then (some (now + every, every), sample ((now - started) / 1_000_000_000) health ∷ [])
      else (some (due, every), [])

  unfoldable pub on_report : Liveness → Health F → ℕ → Liveness × List (Line F)
  unfolding sampled
  on_report l health now =
      let (next', samples) = sampled l.next l.started now health in
      (
        record l { last = some health.source; next = next' },
        samples ++ (if was l.last health.source then [] else state_line health.source health ∷ []),
      )
