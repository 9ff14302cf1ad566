-- ===== src/Pacer/Report.antt =====
-- src/pacer.rs, `Reporter`: health reports limited to changes of the state and a slow heartbeat.
use mpegts_pacer.Prelude.{
  ℕ, ◌-◌, Bool, true, false, ◌||◌, not, Option, none, some, List, [], ◌∷◌, leb, if◌then◌else◌,
}
use mpegts_pacer.Float.{Float}
use mpegts_pacer.Observe.{Health}
use mpegts_pacer.Scheduler.{
  Scheduler, SourceState, live, priming, starved, stalled, state, snapshot,
}

abbrev pub health_interval : ℕ
health_interval = 250_000_000

-- `==` on states.
abbrev pub same_state : SourceState → SourceState → Bool
same_state priming priming = true
same_state live live = true
same_state starved starved = true
same_state stalled stalled = true
same_state _ _ = false

-- With the reports made to the observer, the latest first.
pub record Reporter (F : Type 0) : Type 0 where
  pub last : Option (SourceState × ℕ)
  pub told : List (Health F)

-- Whether a report of the state is due.
unfoldable pub is_due : Option (SourceState × ℕ) → SourceState → ℕ → Bool
is_due none current now = true
is_due (some (before, at)) current now =
    not (same_state before current) || leb health_interval (now - at)

module _ {F : Type 0} where
  unfoldable pub new : Reporter F
  new = record { last = none; told = [] }

module _ (fl : Float) where
  open fl use {F}

  unfoldable pub emit : Reporter F → Scheduler F → SourceState → ℕ → Reporter F
  emit r s current now = record {
    last = some (current, now);
    told = (record { source = current; stats = snapshot fl s }) ∷ r.told;
  }

  unfoldable pub report : Reporter F → Scheduler F → SourceState → ℕ → Reporter F
  unfolding is_due emit
  report r s current now = if is_due r.last current now then emit r s current now else r

  unfoldable pub force : Reporter F → Scheduler F → ℕ → Reporter F
  unfolding emit
  force r s now = emit r s (state s now) now
