-- ===== src/Arrival.antt =====
-- src/arrival.rs: the shape of the input's arrival pattern. Instants and durations are nanoseconds.
use mpegts_pacer.Prelude.{
  ℕ, ◌+◌, ◌-◌, ◌%◌, max, Bool, true, false, Option, none, some, List, [], ◌∷◌, ltb, leb,
  if◌then◌else◌, replicate, set, sat_add, unwrap_or,
}
use mpegts_pacer.Float.{Float}

abbrev pub window : ℕ
window = 8

abbrev pub burst_separation : ℕ
burst_separation = 1_000_000

abbrev pub delivery_gap : ℕ
delivery_gap = 250_000_000

abbrev pub bursty_lead : ℕ
bursty_lead = 250_000_000

pub record ArrivalProfile : Type 0 where
  pub anchor : Option ℕ
  pub packets : ℕ
  pub peak : ℕ
  pub recent : List ℕ
  pub next : ℕ
  pub cycles : ℕ
  pub last_at : Option ℕ
  pub burst : ℕ
  pub burst_max : ℕ
  pub bursts : ℕ

unfoldable pub new : ArrivalProfile
new = record {
  anchor = none;
  packets = 0;
  peak = 0;
  recent = replicate window 0;
  next = 0;
  cycles = 0;
  last_at = none;
  burst = 0;
  burst_max = 0;
  bursts = 0;
}

unfoldable pub close_cycle : ArrivalProfile → ArrivalProfile
close_cycle a = record a {
  recent = set a.recent a.next a.peak;
  next = (a.next + 1) % window;
  cycles = sat_add a.cycles 1;
  peak = 0;
}

-- Whether the silence since the last arrival separates two bursts.
abbrev pub separated : Option ℕ → ℕ → Bool
separated none now = false
separated (some last) now = ltb burst_separation (now - last)

unfoldable pub group_burst : ArrivalProfile → ℕ → ArrivalProfile
group_burst a now =
    if separated a.last_at now
    then record a {
      burst_max = max a.burst_max a.burst;
      bursts = sat_add a.bursts 1;
      burst = sat_add 0 1;
    }
    else record a { burst = sat_add a.burst 1 }

unfoldable pub lead : ArrivalProfile → ℕ
lead a = longest a.peak a.recent
  where
    longest : ℕ → List ℕ → ℕ
    longest m [] = m
    longest m (x ∷ xs) = longest (max m x) xs

unfoldable pub bursty : ArrivalProfile → Bool
unfolding lead
bursty a = ltb bursty_lead (lead a)

unfoldable pub between_deliveries : ArrivalProfile → ℕ → Bool
between_deliveries a now = elim a.last_at [
  | some last ↦ leb delivery_gap (now - last)
  | none ↦ true
]

unfoldable pub burst_max_packets : ArrivalProfile → ℕ
burst_max_packets a = max a.burst_max a.burst

-- One more packet on the cycle that began at `anchor`, with `media` the time that its packets last.
unfoldable pub advance_cycle : ArrivalProfile → ℕ → ℕ → ℕ → ArrivalProfile
unfolding close_cycle
advance_cycle a anchor media now =
    if leb media (now - anchor)
    then record (close_cycle a) { anchor = some now; packets = 1 }
    else record a {
      anchor = some anchor;
      packets = sat_add a.packets 1;
      peak = max a.peak (media - (now - anchor));
    }

module _ (fl : Float) where
  open fl use {F, lit, of_ℕ, from_secs, div, le}

  -- The quotient is a duration, as the media clock's rates above zero are far from `2 ^ -64`.
  unfoldable pub media_duration : ℕ → F → ℕ
  media_duration packets media_rate_pps =
      if le media_rate_pps (lit 0 1)
      then 0
      else unwrap_or (from_secs (div (of_ℕ packets) media_rate_pps)) 0

  unfoldable pub observe : ArrivalProfile → ℕ → F → ArrivalProfile
  unfolding group_burst advance_cycle media_duration
  observe a now media_rate_pps =
      let seen = record (group_burst a now) { last_at = some now } in
      if le media_rate_pps (lit 0 1)
      then seen
      else advance_cycle seen (unwrap_or seen.anchor now)
          (media_duration (sat_add seen.packets 1) media_rate_pps) now
