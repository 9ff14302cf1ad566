-- ===== src/Cli/Number.antt =====
-- `str::parse` on the unsigned integers, as src/main.rs uses it: an optional plus sign, then one
-- decimal digit or more, within the type's largest value.
pub mod Decimal
use Prim.Native.Char.{code}
use Prim.Native.String.{String, [], ◌∷◌}
use mpegts_pacer.Prelude.{ℕ, ◌+◌, ◌-◌, ◌*◌, ◌&&◌, Option, none, some, leb, ◌==◌, if◌then◌else◌}

unfoldable pub digits : ℕ → ℕ → String → Option ℕ
digits most n [] = some n
digits most n (ch ∷ rest) =
    let next = n * 10 + (code ch - 48) in
    let more = digits most next rest in
    if leb 48 (code ch) && leb (code ch) 57 && leb next most then more else none

abbrev pub nonempty_digits : ℕ → String → Option ℕ
nonempty_digits most [] = none
nonempty_digits most (ch ∷ rest) = digits most 0 (ch ∷ rest)

unfoldable pub parse_uint : ℕ → String → Option ℕ
unfolding digits
parse_uint most [] = none
parse_uint most (ch ∷ rest) =
    if code ch == 43 then nonempty_digits most rest else digits most 0 (ch ∷ rest)
