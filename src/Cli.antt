-- ===== src/Cli.antt =====
-- src/main.rs: the command line, from the arguments to the configuration. A `match` on the text of an
-- argument is cut in two: which option it names, and what the option does.
pub mod Number
pub mod Options
pub mod Run
pub mod Log
use Prim.Native.String.{String}
use text.Mathlib.Text.{◌==◌}
use mpegts_pacer.Prelude.{
  ℕ, zero, suc, ◌*◌, ◌-◌, ◌^◌, Bool, true, false, Option, none, some, List, [], ◌∷◌, if◌then◌else◌,
  length,
}
use mpegts_pacer.Float.{Float}
use mpegts_pacer.Config.{
  Config, PcrMode, regenerate, preserve, Clocking, arrival, stream, StallPolicy, mute, continue,
  fail, PcrPositionPolicy, report, default_latency, default_latency_factor, new, auto_rate,
  with_pcr_mode, with_clocking, with_sequence_seed, with_pcr_position_policy, with_segment_duration,
  with_align, with_adaptive_latency, with_latency, with_max_latency, with_stall_timeout,
  with_stall_grace, with_stall_policy,
}
use mpegts_pacer.Cli.Number.{parse_uint}

-- `Failure::Usage`, by the subject of its message.
pub data Usage : Type 0 where
  missing_destination missing_bitrate bad_bitrate bad_destination : Usage
  needs_value not_whole : String → Usage
  unknown_policy unknown_argument : String → Usage

pub data Outcome (A : Type 0) : Type 0 where
  accepted : A → Outcome A
  usage : Usage → Outcome A

-- The locals of `parse`.
pub record Settings : Type 0 where
  pub rtp : Bool
  pub ssrc : Option ℕ
  pub pcr : PcrMode
  pub segment : Option ℕ
  pub latency : Option ℕ
  pub max_latency : Option ℕ
  pub ceiling : Option ℕ
  -- the inner option is none where detection is disabled
  pub stall_timeout : Option (Option ℕ)
  pub stall_grace : Option ℕ
  pub stall_policy : Option StallPolicy
  pub clocking : Clocking
  pub sequence_seed : ℕ
  pub align : Option ℕ
  pub pcr_position_policy : PcrPositionPolicy
  pub stats_interval : Option ℕ

abbrev pub defaults : Settings
defaults = record {
  rtp = false;
  ssrc = none;
  pcr = regenerate;
  segment = none;
  latency = none;
  max_latency = none;
  ceiling = none;
  stall_timeout = none;
  stall_grace = none;
  stall_policy = none;
  clocking = arrival;
  sequence_seed = 0;
  align = none;
  pcr_position_policy = report;
  stats_interval = none;
}

-- What an option does: it sets something, takes a number up to the largest of its type or a count of
-- milliseconds, or takes the name of a policy.
pub data Effect : Type 0 where
  sets : (Settings → Settings) → Effect
  takes_number : ℕ → (Settings → ℕ → Settings) → Effect
  takes_millis : (Settings → ℕ → Settings) → Effect
  takes_policy refused : Effect

-- `(!ms.is_zero()).then_some(ms)`
abbrev pub unless_zero : ℕ → Option ℕ
unless_zero zero = none
unless_zero (suc n) = some (suc n)

unfoldable pub effect_of : String → Effect
effect_of arg =
    if arg == "--rtp"
    then sets (λ s. record s { rtp = true })
    else if arg == "--preserve"
    then sets (λ s. record s { pcr = preserve })
    else if arg == "--ssrc"
    then takes_number (2 ^ 32 - 1) (λ s n. record s { ssrc = some n })
    else if arg == "--segment-ms"
    then takes_millis (λ s d. record s { segment = some d })
    else if arg == "--latency-ms"
    then takes_millis (λ s d. record s { latency = some d })
    else if arg == "--max-latency-ms"
    then takes_millis (λ s d. record s { max_latency = some d })
    else if arg == "--latency-ceiling-ms"
    then takes_millis (λ s d. record s { ceiling = some d })
    else if arg == "--stall-ms"
    then takes_millis (λ s d. record s { stall_timeout = some (unless_zero d) })
    else if arg == "--stall-grace-ms"
    then takes_millis (λ s d. record s { stall_grace = some d })
    else if arg == "--on-stall"
    then takes_policy
    else if arg == "--stream-clock"
    then sets (λ s. record s { clocking = stream })
    else if arg == "--sequence-seed"
    then takes_number (2 ^ 16 - 1) (λ s n. record s { sequence_seed = n })
    else if arg == "--align-ms"
    then takes_millis (λ s d. record s { align = some d })
    else if arg == "--require-pcr-position"
    then sets (λ s. record s { pcr_position_policy = fail })
    else if arg == "--stats-interval-ms"
    then takes_millis (λ s d. record s { stats_interval = unless_zero d })
    else refused

-- The next argument, consumed, and what is left.
unfoldable pub value : String → List String → Outcome (String × List String)
value flag [] = usage (needs_value flag)
value flag (raw ∷ rest) = accepted (raw, rest)

unfoldable pub number : ℕ → String → List String → Outcome (ℕ × List String)
unfolding value
number most flag args = elim (value flag args) [
  | usage u ↦ usage u
  | accepted (raw, rest) ↦ elim (parse_uint most raw) [
    | none ↦ usage (not_whole flag)
    | some n ↦ accepted (n, rest)
  ]
]

unfoldable pub millis : String → List String → Outcome (ℕ × List String)
unfolding number
millis flag args = elim (number (2 ^ 64 - 1) flag args) [
  | usage u ↦ usage u
  | accepted (n, rest) ↦ accepted (n * 1_000_000, rest)
]

unfoldable pub policy_of : String → Outcome StallPolicy
policy_of raw =
    if raw == "mute"
    then accepted mute
    else if raw == "continue"
    then accepted continue
    else if raw == "fail"
    then accepted fail
    else usage (unknown_policy raw)

abbrev pub set_with :
    (Settings → ℕ → Settings)
    → Settings
    → Outcome (ℕ × List String)
    → Outcome (Settings × List String)
set_with f s (usage u) = usage u
set_with f s (accepted (n, rest)) = accepted (f s n, rest)

abbrev pub set_policy :
    Settings → Outcome StallPolicy → List String → Outcome (Settings × List String)
set_policy s (usage u) rest = usage u
set_policy s (accepted policy) rest = accepted (record s { stall_policy = some policy }, rest)

-- One round of the loop, once the argument has been read.
unfoldable pub apply : String → Effect → Settings → List String → Outcome (Settings × List String)
unfolding number millis value policy_of
apply arg (sets f) s rest = accepted (f s, rest)
apply arg (takes_number most f) s rest = set_with f s (number most arg rest)
apply arg (takes_millis f) s rest = set_with f s (millis arg rest)
apply arg takes_policy s rest = elim (value arg rest) [
  | usage u ↦ usage u
  | accepted (raw, rest') ↦ set_policy s (policy_of raw) rest'
]
apply arg refused s rest = usage (unknown_argument arg)

-- The loop; `none` has run out of rounds. Each round takes one argument at least.
unfoldable pub parse_options : ℕ → Settings → List String → Option (Outcome Settings)
unfolding apply effect_of
parse_options n s [] = some (accepted s)
parse_options zero s (arg ∷ rest) = none
parse_options (suc n) s (arg ∷ rest) = elim (apply arg (effect_of arg) s rest) [
  | usage u ↦ some (usage u)
  | accepted (s', rest') ↦ parse_options n s' rest'
]

module _ (fl : Float) where
  open fl use {F}

  -- `if let Some(x) = option { config = ... }`; the configuration is `none` after a panic.
  abbrev pub given :
      Option ℕ → (Config F → ℕ → Option (Config F)) → Option (Config F) → Option (Config F)
  given none f c = c
  given (some x) f none = none
  given (some x) f (some c) = f c x

  -- The configuration at a rate, before its refinements.
  abbrev pub config_at : String → Outcome (Config F)
  config_at rate =
      if rate == "auto" then accepted (auto_rate fl) else elim (parse_uint (2 ^ 64 - 1) rate) [
        | none ↦ usage bad_bitrate
        | some bitrate ↦ accepted (new fl bitrate)
      ]

  abbrev pub with_modes : Settings → Config F → Config F
  with_modes s c =
      with_pcr_position_policy
        (with_sequence_seed (with_clocking (with_pcr_mode c s.pcr) s.clocking) s.sequence_seed)
        s.pcr_position_policy

  abbrev pub with_timeout : Option (Option ℕ) → Option (Config F) → Option (Config F)
  with_timeout none c = c
  with_timeout (some timeout) none = none
  with_timeout (some timeout) (some c) = some (with_stall_timeout c timeout)

  abbrev pub with_policy : Option StallPolicy → Option (Config F) → Option (Config F)
  with_policy none c = c
  with_policy (some policy) none = none
  with_policy (some policy) (some c) = some (with_stall_policy c policy)

  -- The refinements in the order of the source.
  unfoldable pub refine : Settings → Config F → Option (Config F)
  refine s c =
      let c1 = given s.segment (with_segment_duration fl) (some (with_modes s c)) in
      let c2 = given s.align (λ c window. some (with_align c window)) c1 in
      let c3 =
        given s.ceiling
          (λ c most.
            some (with_adaptive_latency c default_latency most (default_latency_factor fl)))
          c2 in
      let c4 = given s.latency (λ c pinned. some (with_latency fl c pinned)) c3 in
      let c5 = given s.max_latency (with_max_latency fl) c4 in
      let c6 = with_timeout s.stall_timeout c5 in
      let c7 = given s.stall_grace (λ c grace. some (with_stall_grace c grace)) c6 in
      with_policy s.stall_policy c7

  -- Everything the command line says; a configuration of `none` is a panic while it is put together.
  pub record Invocation : Type 0 where
    pub config : Option (Config F)
    pub dest : String
    pub rate : String
    pub rtp : Bool
    pub ssrc : Option ℕ
    pub stats_interval : Option ℕ

  abbrev pub invocation : String → String → Settings → Outcome Invocation
  invocation dest rate s = elim (config_at rate) [
    | usage u ↦ usage u
    | accepted c ↦ accepted (record {
      config = refine s c;
      dest = dest;
      rate = rate;
      rtp = s.rtp;
      ssrc = s.ssrc;
      stats_interval = s.stats_interval;
    })
  ]

  abbrev pub invocation_of :
      String → String → Option (Outcome Settings) → Option (Outcome Invocation)
  invocation_of dest rate none = none
  invocation_of dest rate (some (usage u)) = some (usage u)
  invocation_of dest rate (some (accepted s)) = some (invocation dest rate s)

  unfoldable pub parse : List String → Option (Outcome Invocation)
  unfolding parse_options refine
  parse [] = some (usage missing_destination)
  parse (dest ∷ []) = some (usage missing_bitrate)
  parse (dest ∷ rate ∷ rest) = invocation_of dest rate (parse_options (length rest) defaults rest)
