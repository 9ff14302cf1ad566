-- ===== src/Tests/Logged.antt =====
-- A run of the theorem on the log lines.
use mpegts_pacer.Prelude.{ℕ, some, List, [], ◌∷◌}
use mpegts_pacer.Float.{micro}
use mpegts_pacer.Stats.{zeroed}
use mpegts_pacer.Observe.{Health}
use mpegts_pacer.Scheduler.{SourceState, priming, live}
use mpegts_pacer.Cli.Log.{liveness}
use mpegts_pacer.Cli.Log.Lines.{IsLog, print_all, print_all-IsLog}

abbrev health : SourceState → Health ℕ
health s = record { source = s; stats = zeroed micro }

-- A sample every second; the source goes live after two, and is live still a little later.
abbrev reports : List (ℕ × Health ℕ)
reports = (5, health priming) ∷ (2_000_000_000, health live) ∷ (2_500_000_000, health live) ∷ []

print_all-IsLog_example :
    IsLog
      (liveness (some 1_000_000_000) 0)
      reports
      (print_all (liveness (some 1_000_000_000) 0) reports)
print_all-IsLog_example = print_all-IsLog (liveness (some 1_000_000_000) 0) reports
