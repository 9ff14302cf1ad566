-- ===== src/Float.antt =====
-- The double-precision arithmetic of the crate, as a parameter: the operations that the source calls
-- on f64, with no law. What is proved of code that uses it holds whatever they compute.
use mpegts_pacer.Prelude.{
  ℕ, ◌+◌, ◌*◌, ◌/◌, ◌%◌, Bool, ltb, leb, ◌-◌, u64_max, u64_mod, min, max, Option, none, some,
  if◌then◌else◌,
}

pub record Float : Type 1 where
  pub F : Type 0
  -- a literal, as the quotient of two numbers
  pub lit : ℕ → ℕ → F
  -- `n as f64`
  pub of_ℕ : ℕ → F
  -- `x as u64` and `x as usize`
  pub to_u64 : F → ℕ
  -- `Duration::from_secs_f64`, in nanoseconds; `none` is its panic, on a value that is negative, not
  -- finite or past the longest duration
  pub from_secs : F → Option ℕ
  pub add : F → F → F
  pub sub : F → F → F
  pub mul : F → F → F
  pub div : F → F → F
  pub neg : F → F
  pub exp : F → F
  pub ceil : F → F
  pub fmax : F → F → F
  pub clamp : F → F → F → F
  pub lt : F → F → Bool
  pub le : F → F → Bool

abbrev pub nanos_per_sec : ℕ
nanos_per_sec = 1_000_000_000

module _ (fl : Float) where
  open fl use {F, of_ℕ, from_secs, add, div, mul}

  -- `Duration::as_secs_f64`: the whole seconds plus the nanoseconds over a billion.
  abbrev pub as_secs : ℕ → F
  as_secs d = add (of_ℕ (d / nanos_per_sec)) (div (of_ℕ (d % nanos_per_sec)) (of_ℕ nanos_per_sec))

  -- `Duration::mul_f64`, with the same panic
  abbrev pub mul_duration : ℕ → F → Option ℕ
  mul_duration d x = from_secs (mul x (as_secs d))

-- An instance to run the model on: whole microunits, with the exponential cut to one.
abbrev pub micro : Float
micro = record {
  F = ℕ;
  lit = λ n d. n * 1_000_000 / d;
  of_ℕ = λ n. n * 1_000_000;
  to_u64 = λ x. min (x / 1_000_000) u64_max;
  from_secs = λ x. if ltb (x / 1_000_000) u64_mod then some (x * 1000) else none;
  add = λ x y. x + y;
  sub = λ x y. x - y;
  mul = λ x y. x * y / 1_000_000;
  div = λ x y. x * 1_000_000 / y;
  neg = λ x. x;
  exp = λ x. 1_000_000;
  ceil = λ x. (x + 999_999) / 1_000_000 * 1_000_000;
  fmax = λ x y. max x y;
  clamp = λ x lo hi. max lo (min x hi);
  lt = λ x y. ltb x y;
  le = λ x y. leb x y;
}
