-- ===== src/Cli/Log/Lines.antt =====
-- src/main.rs, `liveness`: what the log tells its reader.
use mpegts_pacer.Prelude.{
  ℕ, ◌+◌, ◌≤◌, ◌≡◌, ◌≢◌, refl, ap, ◌∙◌, inl, inr, Bool, true, false, Option, none, some, List, [],
  ◌∷◌, ◌++◌, leb, append_assoc, if◌then◌else◌, Bool-cases, arith,
}
use mpegts_pacer.Observe.{Health}
use mpegts_pacer.Scheduler.{SourceState, priming, live, starved, stalled}
use mpegts_pacer.Pacer.Report.{same_state}
use mpegts_pacer.Pacer.Run.Policy.{same_state-eq}
use mpegts_pacer.Cli.Log.{
  Line, sample, source_stalled, source_live, source, Liveness, was, state_line, sampled, on_report,
}

same_state_refl : (a : SourceState) → same_state a a ≡ true
same_state_refl priming = refl
same_state_refl live = refl
same_state_refl starved = refl
same_state_refl stalled = refl

was_not : (o : Option SourceState) (s : SourceState) → was o s ≡ false → o ≢ some s
was_not none s e h = absurd (cc h)
was_not (some before) s e h =
    let same : before ≡ s = cc h in absurd (ground (arith, rw same at e, same_state_refl s))

was_so : (o : Option SourceState) (s : SourceState) → was o s ≡ true → o ≡ some s
was_so none s e = absurd (ground (arith, e))
was_so (some before) s e = ap some (same_state-eq before s e)

-- The state that a line shows, and whether it is a sample.
abbrev pub shown : {F : Type 0} → Line F → Option SourceState
shown (sample t h) = none
shown (source_stalled n gap) = some stalled
shown (source_live lead held) = some live
shown (source s) = some s

abbrev pub is_sample : {F : Type 0} → Line F → Bool
is_sample (sample t h) = true
is_sample (source_stalled n gap) = false
is_sample (source_live lead held) = false
is_sample (source s) = false

-- What a reader of the log takes for the state, after the lines behind it.
abbrev pub read_state : {F : Type 0} → Option SourceState → List (ℕ × Line F) → Option SourceState
read_state before [] = before
read_state before ((at, line) ∷ rest) = elim (shown line) [
  | none ↦ read_state before rest
  | some s ↦ read_state (some s) rest
]

-- No line shows the state that the reader knows already.
abbrev pub IsNews : {F : Type 0} → Option SourceState → List (ℕ × Line F) → Type 0
IsNews before [] = Unit {0}
IsNews before ((at, line) ∷ rest) = elim (shown line) [
  | none ↦ IsNews before rest
  | some s ↦ (before ≢ some s) × IsNews (some s) rest
]

-- No sample comes before it is due, and each puts the next off by the interval; without one there is
-- no sample at all.
abbrev pub IsPaced : {F : Type 0} → Option (ℕ × ℕ) → List (ℕ × Line F) → Type 0
IsPaced next [] = Unit {0}
IsPaced none ((at, line) ∷ rest) = (is_sample line ≡ false) × IsPaced none rest
IsPaced (some (due, every)) ((at, line) ∷ rest) =
    if is_sample line
    then (due ≤ at) × IsPaced (some (at + every, every)) rest
    else IsPaced (some (due, every)) rest

-- The state of the last report.
abbrev pub last_reported :
    {F : Type 0} → Option SourceState → List (ℕ × Health F) → Option SourceState
last_reported before [] = before
last_reported before ((now, health) ∷ rest) = last_reported (some health.source) rest

abbrev pub stamped : {F : Type 0} → ℕ → List (Line F) → List (ℕ × Line F)
stamped now [] = []
stamped now (line ∷ rest) = (now, line) ∷ stamped now rest

-- The lines that a run of reports makes the program print, each with the instant of its report.
unfoldable pub print_all : {F : Type 0} → Liveness → List (ℕ × Health F) → List (ℕ × Line F)
print_all l [] = []
print_all l ((now, health) ∷ rest) =
    let (l', lines) = on_report l health now in stamped now lines ++ print_all l' rest

module _ {F : Type 0} where
  -- What is true of the log behind a closure in a given state.
  pub record IsLog (l : Liveness) (reports : List (ℕ × Health F)) (log : List (ℕ × Line F))
      : Type 0 where
    pub told : read_state l.last log ≡ last_reported l.last reports
    pub news : IsNews l.last log
    pub paced : IsPaced l.next log

  read-state_line :
      (s : SourceState) (health : Health F) (now : ℕ) (before : Option SourceState)
      (log : List (ℕ × Line F))
      → read_state before ((now, state_line s health) ∷ log) ≡ read_state (some s) log
  read-state_line priming health now before log = refl
  read-state_line live health now before log = refl
  read-state_line starved health now before log = refl
  read-state_line stalled health now before log = refl

  IsNews-state_line :
      (s : SourceState) (health : Health F) (now : ℕ) (before : Option SourceState)
      (log : List (ℕ × Line F))
      → before ≢ some s
      → IsNews (some s) log
      → IsNews before ((now, state_line s health) ∷ log)
  IsNews-state_line priming health now before log ne v = (ne, v)
  IsNews-state_line live health now before log ne v = (ne, v)
  IsNews-state_line starved health now before log ne v = (ne, v)
  IsNews-state_line stalled health now before log ne v = (ne, v)

  is_sample-state_line :
      (s : SourceState) (health : Health F) → is_sample (state_line s health) ≡ false
  is_sample-state_line priming health = refl
  is_sample-state_line live health = refl
  is_sample-state_line starved health = refl
  is_sample-state_line stalled health = refl

  IsPaced-other :
      (next : Option (ℕ × ℕ)) (now : ℕ) (line : Line F) (log : List (ℕ × Line F))
      → is_sample line ≡ false
      → IsPaced next log
      → IsPaced next ((now, line) ∷ log)
  IsPaced-other none now line log e v = (e, v)
  IsPaced-other (some (due, every)) now line log e v = rw e v

  -- The state line of a report in front of the log of the later ones.
  IsLog-state :
      (l : Liveness) (now : ℕ) (health : Health F) (rest : List (ℕ × Health F))
      (log : List (ℕ × Line F))
      → IsLog (record l { last = some health.source }) rest log
      → let lines : List (Line F) =
          if was l.last health.source then [] else state_line health.source health ∷ [] in
        IsLog l ((now, health) ∷ rest) (stamped now lines ++ log)
  IsLog-state l now health rest log v = by_state (was l.last health.source) refl
    where
      line : Line F
      line = state_line health.source health

      by_state :
          (b : Bool)
          → was l.last health.source ≡ b
          → let lines : List (Line F) = if b then [] else line ∷ [] in
            IsLog l ((now, health) ∷ rest) (stamped now lines ++ log)
      by_state true e =
          let same = was_so l.last health.source e in
          record { told = rw same v.told; news = rw same v.news; paced = v.paced }
      by_state false e = record {
        told = read-state_line health.source health now l.last log ∙ v.told;
        news =
            IsNews-state_line health.source health now l.last log (was_not l.last health.source e)
              v.news;
        paced =
            IsPaced-other l.next now line log (is_sample-state_line health.source health) v.paced;
      }

  -- The sample of a report in front of the lines behind it.
  IsLog-sampled :
      (l : Liveness) (now : ℕ) (health : Health F) (reports : List (ℕ × Health F))
      (log : List (ℕ × Line F))
      → let (next', lines) = sampled l.next l.started now health in
        IsLog (record l { next = next' }) reports log → IsLog l reports (stamped now lines ++ log)
  unfolding sampled
  IsLog-sampled l now health reports log v = by_next l.next v
    where
      by_next :
          (o : Option (ℕ × ℕ))
          → (let (next', lines) = sampled o l.started now health in
              IsLog (record l { next = next' }) reports log)
          → IsLog
              (record l { next = o })
              reports
              (stamped now (sampled o l.started now health).1 ++ log)
      by_next none v = v
      by_next (some (due, every)) v = elim (Bool-cases (leb due now)) [
        | inl e ↦
            let w = rw e at v in
            rw e record { told = w.told; news = w.news; paced = (ground (arith, e), w.paced) }
        | inr e ↦ rw e (rw e at v)
      ]

  stamped-append :
      (now : ℕ) (xs ys : List (Line F)) → stamped now (xs ++ ys) ≡ stamped now xs ++ stamped now ys
  stamped-append now [] ys = refl
  stamped-append now (x ∷ xs) ys = ap (λ t. (now, x) ∷ t) (stamped-append now xs ys)

  -- What the log of a run tells, whatever the reports and their instants: after every report the last
  -- state that a line shows is the state reported last, no line shows the state that is known
  -- already, and no counter line comes before the interval has gone by since the last, or since the
  -- start, and none without an interval.
  pub print_all-IsLog :
      (l : Liveness) (reports : List (ℕ × Health F)) → IsLog l reports (print_all l reports)
  unfolding print_all on_report
  print_all-IsLog l [] = record { told = refl; news = tt; paced = tt }
  print_all-IsLog l ((now, health) ∷ rest) =
      let (next', samples) = sampled l.next l.started now health in
      let l' = record l { last = some health.source; next = next' } in
      let states : List (Line F) =
        if was l.last health.source then [] else state_line health.source health ∷ [] in
      let later = print_all l' rest in
      let behind =
        IsLog-state (record l { next = next' }) now health rest later (print_all-IsLog l' rest) in
      let all =
        IsLog-sampled l now health ((now, health) ∷ rest) (stamped now states ++ later) behind in
      rw
        (
          stamped-append now samples states,
          append_assoc (stamped now samples) (stamped now states) later,
        )
        all
