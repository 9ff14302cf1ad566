-- ===== src/Cli/Options.antt =====
-- src/main.rs, the loop of `parse`: options written as arguments are read back.
use Prim.Native.String.{String}
use mpegts_pacer.Prelude.{
  ℕ, zero, suc, ◌*◌, ◌≤◌, ◌≡◌, refl, ◌∙◌, ap, true, some, Option, List, [], ◌∷◌, ◌++◌, length, All,
  arith, ◌^◌, ◌-◌,
}
use mpegts_pacer.Cli.{
  Outcome, accepted, Settings, unless_zero, effect_of, value, number, millis, policy_of, apply,
  usage, set_with, parse_options,
}
use mpegts_pacer.Config.{StallPolicy, mute, continue, fail, preserve, stream, PcrPositionPolicy}
use mpegts_pacer.Cli.Number.Decimal.{decimal, parse_uint-decimal}

-- What the command line can say between the destination and the end, in the terms of its usage text.
pub data Choice : Type 0 where
  rtp keep_pcr stream_clock require_position : Choice
  ssrc sequence_seed : ℕ → Choice
  segment latency max_latency ceiling stall stall_grace align_to stats_every : ℕ → Choice
  on_stall : StallPolicy → Choice

-- A number with its flag in front.
abbrev flagged : String → ℕ → List String
flagged flag n = flag ∷ decimal n ∷ []

abbrev policy_name : StallPolicy → String
policy_name mute = "mute"
policy_name continue = "continue"
policy_name fail = "fail"

-- The arguments for a choice; times are in milliseconds.
unfoldable pub written_as : Choice → List String
written_as rtp = "--rtp" ∷ []
written_as keep_pcr = "--preserve" ∷ []
written_as stream_clock = "--stream-clock" ∷ []
written_as require_position = "--require-pcr-position" ∷ []
written_as (ssrc n) = flagged "--ssrc" n
written_as (sequence_seed n) = flagged "--sequence-seed" n
written_as (segment ms) = flagged "--segment-ms" ms
written_as (latency ms) = flagged "--latency-ms" ms
written_as (max_latency ms) = flagged "--max-latency-ms" ms
written_as (ceiling ms) = flagged "--latency-ceiling-ms" ms
written_as (stall ms) = flagged "--stall-ms" ms
written_as (stall_grace ms) = flagged "--stall-grace-ms" ms
written_as (align_to ms) = flagged "--align-ms" ms
written_as (stats_every ms) = flagged "--stats-interval-ms" ms
written_as (on_stall policy) = "--on-stall" ∷ policy_name policy ∷ []

unfoldable pub arguments : List Choice → List String
arguments [] = []
arguments (c ∷ cs) = written_as c ++ arguments cs

-- The settings behind a choice; a time is kept in nanoseconds, and zero turns what it limits off.
unfoldable pub chosen : Settings → Choice → Settings
chosen s rtp = record s { rtp = true }
chosen s keep_pcr = record s { pcr = preserve }
chosen s stream_clock = record s { clocking = stream }
chosen s require_position = record s { pcr_position_policy = PcrPositionPolicy.fail }
chosen s (ssrc n) = record s { ssrc = some n }
chosen s (sequence_seed n) = record s { sequence_seed = n }
chosen s (segment ms) = record s { segment = some (ms * 1_000_000) }
chosen s (latency ms) = record s { latency = some (ms * 1_000_000) }
chosen s (max_latency ms) = record s { max_latency = some (ms * 1_000_000) }
chosen s (ceiling ms) = record s { ceiling = some (ms * 1_000_000) }
chosen s (stall ms) = record s { stall_timeout = some (unless_zero (ms * 1_000_000)) }
chosen s (stall_grace ms) = record s { stall_grace = some (ms * 1_000_000) }
chosen s (align_to ms) = record s { align = some (ms * 1_000_000) }
chosen s (stats_every ms) = record s { stats_interval = unless_zero (ms * 1_000_000) }
chosen s (on_stall policy) = record s { stall_policy = some policy }

unfoldable pub all_chosen : Settings → List Choice → Settings
all_chosen s [] = s
all_chosen s (c ∷ cs) = all_chosen (chosen s c) cs

-- The number of a choice fits the type that it is read into.
abbrev pub IsInRange : Choice → Type 0
IsInRange (ssrc n) = n ≤ 2 ^ 32 - 1
IsInRange (sequence_seed n) = n ≤ 2 ^ 16 - 1
IsInRange (segment ms) = ms ≤ 2 ^ 64 - 1
IsInRange (latency ms) = ms ≤ 2 ^ 64 - 1
IsInRange (max_latency ms) = ms ≤ 2 ^ 64 - 1
IsInRange (ceiling ms) = ms ≤ 2 ^ 64 - 1
IsInRange (stall ms) = ms ≤ 2 ^ 64 - 1
IsInRange (stall_grace ms) = ms ≤ 2 ^ 64 - 1
IsInRange (align_to ms) = ms ≤ 2 ^ 64 - 1
IsInRange (stats_every ms) = ms ≤ 2 ^ 64 - 1
IsInRange _ = Unit {0}

number-decimal :
    (most : ℕ) (flag : String) (n : ℕ) (rest : List String)
    → n ≤ most
    → number most flag (decimal n ∷ rest) ≡ accepted (n, rest)
unfolding number value
number-decimal most flag n rest room = rw (number, parse_uint-decimal most n room) refl

millis-decimal :
    (flag : String) (n : ℕ) (rest : List String)
    → n ≤ 2 ^ 64 - 1
    → millis flag (decimal n ∷ rest) ≡ accepted (n * 1_000_000, rest)
unfolding millis
millis-decimal flag n rest room = rw (millis, number-decimal (2 ^ 64 - 1) flag n rest room) refl

-- What the loop does with what a round comes to.
abbrev continued : ℕ → Outcome (Settings × List String) → Option (Outcome Settings)
continued n o = elim o [ usage u ↦ some (usage u) | accepted (s, rest) ↦ parse_options n s rest ]

-- One choice read, and the arguments behind it next.
parse_options-written_as :
    (n : ℕ) (s : Settings) (c : Choice) (rest : List String)
    → IsInRange c
    → parse_options (suc n) s (written_as c ++ rest) ≡ parse_options n (chosen s c) rest
unfolding parse_options effect_of apply written_as chosen value policy_of
parse_options-written_as n s rtp rest h = refl
parse_options-written_as n s keep_pcr rest h = refl
parse_options-written_as n s stream_clock rest h = refl
parse_options-written_as n s require_position rest h = refl
parse_options-written_as n s (ssrc k) rest h =
    rw (parse_options, apply, number-decimal (2 ^ 32 - 1) "--ssrc" k rest h) refl
parse_options-written_as n s (sequence_seed k) rest h =
    ap
      (λ o. elim (set_with (λ t d. record t { sequence_seed = d }) s o) [
        | usage u ↦ some (usage u)
        | accepted (t, more) ↦ parse_options n t more
      ])
      (number-decimal (2 ^ 16 - 1) "--sequence-seed" k rest h)
parse_options-written_as n s (segment ms) rest h =
    ap (λ o. continued n (set_with (λ t d. record t { segment = some d }) s o))
      (millis-decimal "--segment-ms" ms rest h)
parse_options-written_as n s (latency ms) rest h =
    ap (λ o. continued n (set_with (λ t d. record t { latency = some d }) s o))
      (millis-decimal "--latency-ms" ms rest h)
parse_options-written_as n s (max_latency ms) rest h =
    ap (λ o. continued n (set_with (λ t d. record t { max_latency = some d }) s o))
      (millis-decimal "--max-latency-ms" ms rest h)
parse_options-written_as n s (ceiling ms) rest h =
    ap (λ o. continued n (set_with (λ t d. record t { ceiling = some d }) s o))
      (millis-decimal "--latency-ceiling-ms" ms rest h)
parse_options-written_as n s (stall ms) rest h =
    ap (λ o. continued n (set_with (λ t d. record t { stall_timeout = some (unless_zero d) }) s o))
      (millis-decimal "--stall-ms" ms rest h)
parse_options-written_as n s (stall_grace ms) rest h =
    ap (λ o. continued n (set_with (λ t d. record t { stall_grace = some d }) s o))
      (millis-decimal "--stall-grace-ms" ms rest h)
parse_options-written_as n s (align_to ms) rest h =
    ap (λ o. continued n (set_with (λ t d. record t { align = some d }) s o))
      (millis-decimal "--align-ms" ms rest h)
parse_options-written_as n s (stats_every ms) rest h =
    ap (λ o. continued n (set_with (λ t d. record t { stats_interval = unless_zero d }) s o))
      (millis-decimal "--stats-interval-ms" ms rest h)
parse_options-written_as n s (on_stall mute) rest h = refl
parse_options-written_as n s (on_stall continue) rest h = refl
parse_options-written_as n s (on_stall fail) rest h = refl

-- Whatever options are chosen, in whatever order and however often, written as arguments they are
-- read back as the settings that they stand for, each later one over the earlier, when their numbers
-- fit; a round for each of them is enough for the loop.
pub parse_options-arguments :
    (n : ℕ) (s : Settings) (cs : List Choice)
    → All IsInRange cs
    → length cs ≤ n
    → parse_options n s (arguments cs) ≡ some (accepted (all_chosen s cs))
unfolding parse_options arguments all_chosen
parse_options-arguments n s [] h room = refl
parse_options-arguments zero s (c ∷ cs) h room = absurd (omega (arith, room))
parse_options-arguments (suc n) s (c ∷ cs) (h, hs) room =
    parse_options-written_as n s c (arguments cs) h
    ∙ parse_options-arguments n (chosen s c) cs hs (omega (arith, room))
