-- ===== src/Cli/Run.antt =====
-- src/main.rs: `main`, `run` and `egress`: from the arguments to the exit code. What lies outside the
-- program is a parameter: the address parser, the socket, and how the pacing of stdin to a sink ends.
use Prim.Native.String.{String}
use text.Mathlib.Text.{◌==◌}
use mpegts_pacer.Prelude.{
  ℕ, Bool, false, ◌||◌, Option, none, some, List, [], ◌∷◌, ◌++◌, if◌then◌else◌,
}
use mpegts_pacer.Float.{Float}
use mpegts_pacer.Error.{Error, Result, ok, err}
use mpegts_pacer.Config.{Config, validate}
use mpegts_pacer.Stats.{Stats}
use mpegts_pacer.Cli.{Usage, bad_destination, Outcome, accepted, usage, Invocation, parse}

-- `Failure`, each with what its message is about.
pub data Failure : Type 0 where
  misused : Usage → Failure
  runtime : Error → Failure

-- The sink that `egress` builds.
pub data Target (Socket Addr : Type 0) : Type 0 where
  stdout : Target Socket Addr
  udp : Socket → Addr → Target Socket Addr
  rtp : Socket → Addr → Option ℕ → Target Socket Addr

pub record Outside (F : Type 0) : Type 1 where
  pub Socket : Type 0
  pub Addr : Type 0
  pub parse_addr : String → Option Addr
  pub bind : Result Socket
  -- with the interval of the counter lines
  pub pace_with : Config F → Target Socket Addr → Option ℕ → Result (Stats F)

-- `args.iter().any(|arg| arg == short || arg == long)`
unfoldable pub asks_for : String → String → List String → Bool
asks_for short long [] = false
asks_for short long (arg ∷ rest) = (arg == short || arg == long) || asks_for short long rest

module _ (fl : Float) (out : Outside (fl.F)) where
  open fl use {F}

  -- What the program prints, by its subject.
  pub data Said : Type 0 where
    help version : Said
    announced : Invocation fl → Said
    reported : Stats F → Said
    complained : Failure → Said

  pub data Ended (A : Type 0) : Type 0 where
    done : A → Ended A
    fails : Failure → Ended A

  -- `.map_err(failed)`
  abbrev pub or_failed : {A : Type 0} → Result A → Ended A
  or_failed (ok a) = done a
  or_failed (err e) = fails (runtime e)

  abbrev pub target_for : Invocation fl → out.Socket → out.Addr → Target out.Socket out.Addr
  target_for i socket addr = if i.rtp then rtp socket addr i.ssrc else udp socket addr

  unfoldable pub egress : Invocation fl → Config F → Ended (Stats F)
  egress i c =
      if i.dest == "-" || i.dest == "stdout"
      then or_failed (out.pace_with c stdout i.stats_interval)
      else elim (out.parse_addr i.dest) [
        | none ↦ fails (misused bad_destination)
        | some addr ↦ elim (out.bind) [
          | err e ↦ fails (runtime e)
          | ok socket ↦ or_failed (out.pace_with c (target_for i socket addr) i.stats_interval)
        ]
      ]

  -- What is printed before the failure, and behind a run.
  abbrev pub closing : Invocation fl → Ended (Stats F) → List Said × Ended (Unit {0})
  closing i (fails f) = (announced i ∷ [], fails f)
  closing i (done stats) = (announced i ∷ reported stats ∷ [], done tt)

  -- A configuration that could be put together, checked and run.
  unfoldable pub run_checked : Invocation fl → Config F → List Said × Ended (Unit {0})
  unfolding egress
  run_checked i c = elim (validate c) [
    | err e ↦ ([], fails (runtime e))
    | ok _ ↦ closing i (egress i c)
  ]

  abbrev pub run_parsed : Option (Outcome (Invocation fl)) → Option (List Said × Ended (Unit {0}))
  run_parsed none = none
  run_parsed (some (usage u)) = some ([], fails (misused u))
  run_parsed (some (accepted i)) = elim i.config [ none ↦ none | some c ↦ some (run_checked i c) ]

  -- `none` is a panic while the configuration is put together.
  unfoldable pub run : List String → Option (List Said × Ended (Unit {0}))
  unfolding run_checked
  run args =
      if asks_for "-h" "--help" args
      then some (help ∷ [], done tt)
      else if asks_for "-V" "--version" args
      then some (version ∷ [], done tt)
      else run_parsed (parse fl args)

  abbrev pub exit_with : List Said × Ended (Unit {0}) → ℕ × List Said
  exit_with (said, done _) = (0, said)
  exit_with (said, fails (misused u)) = (2, said ++ (complained (misused u) ∷ []))
  exit_with (said, fails (runtime e)) = (1, said ++ (complained (runtime e) ∷ []))

  -- The exit code, and what was printed.
  unfoldable pub main : List String → Option (ℕ × List Said)
  unfolding run
  main args = elim (run args) [ none ↦ none | some ended ↦ some (exit_with ended) ]
