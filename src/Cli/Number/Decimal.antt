-- ===== src/Cli/Number/Decimal.antt =====
-- Numbers as an argument writes them, in decimal digits, which `parse` in src/main.rs reads back.
use Prim.Native.Char.{Char, code}
use Prim.Native.String.{String, [], ◌∷◌}
use mpegts_pacer.Prelude.{
  ℕ, zero, suc, ◌+◌, ◌*◌, ◌/◌, ◌%◌, ◌≤◌, ◌<◌, ◌≡◌, refl, ◌∙◌, true, false, some, ap, sym, ◌-◌, ◌==◌,
  ltb, leb, arith, if◌then◌else◌, inl, inr, Bool-cases,
}
use mpegts_pacer.Cli.Number.{digits, parse_uint}

abbrev digit : ℕ → Char
digit zero = "0"
digit (suc zero) = "1"
digit (suc (suc zero)) = "2"
digit (suc (suc (suc zero))) = "3"
digit (suc (suc (suc (suc zero)))) = "4"
digit (suc (suc (suc (suc (suc zero))))) = "5"
digit (suc (suc (suc (suc (suc (suc zero)))))) = "6"
digit (suc (suc (suc (suc (suc (suc (suc zero))))))) = "7"
digit (suc (suc (suc (suc (suc (suc (suc (suc zero)))))))) = "8"
digit _ = "9"

code-digit : (n : ℕ) → n < 10 → code (digit n) ≡ 48 + n
code-digit zero h = refl
code-digit (suc zero) h = refl
code-digit (suc (suc zero)) h = refl
code-digit (suc (suc (suc zero))) h = refl
code-digit (suc (suc (suc (suc zero)))) h = refl
code-digit (suc (suc (suc (suc (suc zero))))) h = refl
code-digit (suc (suc (suc (suc (suc (suc zero)))))) h = refl
code-digit (suc (suc (suc (suc (suc (suc (suc zero))))))) h = refl
code-digit (suc (suc (suc (suc (suc (suc (suc (suc zero)))))))) h = refl
code-digit (suc (suc (suc (suc (suc (suc (suc (suc (suc zero))))))))) h = refl
code-digit (suc (suc (suc (suc (suc (suc (suc (suc (suc (suc n)))))))))) h =
    absurd (omega (arith, h))

-- The digits of a number in front of what is written, on fuel.
unfoldable pub written : ℕ → ℕ → String → String
written zero n rest = rest
written (suc fuel) n rest =
    let more = written fuel (n / 10) (digit (n % 10) ∷ rest) in
    if ltb n 10 then digit (n % 10) ∷ rest else more

unfoldable pub decimal : ℕ → String
decimal n = written (suc n) n []

-- One digit read: the number so far, ten times over, and the digit.
digits-digit :
    (most n k : ℕ) (rest : String)
    → k < 10
    → n * 10 + k ≤ most
    → digits most n (digit k ∷ rest) ≡ digits most (n * 10 + k) rest
unfolding digits
digits-digit most n k rest small room =
    let c = code-digit k small in
    let low : leb 48 (48 + k) ≡ true = ground arith in
    let high : leb (48 + k) 57 ≡ true = ground arith in
    let value : 48 + k - 48 ≡ k = omega arith in
    let within : leb (n * 10 + k) most ≡ true = ground arith in
    rw (c, low, high, value, within) refl

digits-written :
    (fuel most n : ℕ) (rest : String)
    → n < fuel
    → n ≤ most
    → digits most 0 (written fuel n rest) ≡ digits most n rest
unfolding written
digits-written zero most n rest h room = absurd (omega (arith, h))
digits-written (suc fuel) most n rest h room = elim (Bool-cases (ltb n 10)) [
  | inl e ↦
      let low : n < 10 = ground (arith, e) in
      let same : n % 10 ≡ n = omega (arith, low) in
      let plain : 0 * 10 + n ≡ n = omega arith in
      rw (e, same)
        (digits-digit most 0 n rest low (omega (arith, room)) ∙ ap (λ k. digits most k rest) plain)
  | inr e ↦
      let high : 10 ≤ n = ground (arith, e) in
      let back : n / 10 * 10 + n % 10 ≡ n = omega arith in
      rw e (
        digits-written fuel most (n / 10) (digit (n % 10) ∷ rest) (omega (arith, h, high))
          (omega (arith, room))
        ∙ digits-digit most (n / 10) (n % 10) rest (omega arith) (omega (arith, back, room))
        ∙ ap (λ k. digits most k rest) back)
]

-- What is written begins with a digit.
written-first :
    (fuel n : ℕ) (rest : String)
    → n < fuel
    → (k : ℕ) × (k < 10) × (tail : String) × (written fuel n rest ≡ digit k ∷ tail)
unfolding written
written-first zero n rest h = absurd (omega (arith, h))
written-first (suc fuel) n rest h = elim (Bool-cases (ltb n 10)) [
  | inl e ↦ (n % 10, omega arith, rest, rw e refl)
  | inr e ↦
      let high : 10 ≤ n = ground (arith, e) in
      let (k, small, tail, first) =
        written-first fuel (n / 10) (digit (n % 10) ∷ rest) (omega (arith, h, high)) in
      (k, small, tail, rw e first)
]

-- No sign stands before a digit.
parse_uint-digit :
    (most k : ℕ) (rest : String)
    → k < 10
    → parse_uint most (digit k ∷ rest) ≡ digits most 0 (digit k ∷ rest)
unfolding parse_uint
parse_uint-digit most k rest small =
    let c = code-digit k small in
    let unsigned : (code (digit k) == 43) ≡ false = rw c (ground arith) in rw unsigned refl

digits-nil : (most n : ℕ) → digits most n [] ≡ some n
unfolding digits
digits-nil most n = refl

-- A number that fits is read back from its decimal digits.
pub parse_uint-decimal : (most n : ℕ) → n ≤ most → parse_uint most (decimal n) ≡ some n
unfolding decimal
parse_uint-decimal most n room =
    let (k, small, tail, first) = written-first (suc n) n [] (omega arith) in
    ap (parse_uint most) first
    ∙ parse_uint-digit most k tail small
    ∙ ap (digits most 0) (sym first)
    ∙ digits-written (suc n) most n [] (omega arith) room
    ∙ digits-nil most n
