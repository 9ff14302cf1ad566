-- ===== src/Error.antt =====
-- src/error.rs: the errors of the crate as values, and `Result`.
use Prim.Native.String.{String}
use mpegts_pacer.Prelude.{ℕ, ◌≡◌, ◌⊎◌, inl, inr, refl}

-- A duration is a number of nanoseconds. What an I/O error holds is the operating system's: a number.
pub data Error : Type 0 where
  invalid_packet : String → Error
  io : ℕ → Error
  closed : Error
  config : String → Error
  source_stalled : (silent_for : ℕ) → Error
  source_pcr_position : (displacement_packets overruns : ℕ) → Error

pub data Result {ℓ} (A : Type ℓ) : Type ℓ where
  ok : A → Result A
  err : Error → Result A

infixl 5 ◌>>=◌
abbrev pub ◌>>=◌ {ℓ κ} : {A : Type ℓ} {B : Type κ} → Result A → (A → Result B) → Result B
ok a >>= f = f a
err e >>= f = err e

pub Result-cases {ℓ} :
    {A : Type ℓ} (r : Result A) → ((a : A) × (r ≡ ok a)) ⊎ ((e : Error) × (r ≡ err e))
Result-cases (ok a) = inl (a, refl)
Result-cases (err e) = inr (e, refl)
