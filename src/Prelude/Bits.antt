-- ===== src/Prelude/Bits.antt =====
-- The bit operations of the packet code as arithmetic: `|` of disjoint fields, `&` with a low mask.
use Prim.Native.Nat.{ℕ, zero, suc, ◌+◌, ◌-◌, ◌*◌, ◌/◌, ◌%◌, ◌^◌, ◌≤◌, ◌<◌, min, max}
use Prim.Native.Nat.{bit_and, bit_or, digits, bitwise, bit_and-bitwise, bit_or-bitwise}
use mathlib.Core.Path.{◌≡◌, refl, ap}
use mathlib.Core.Bool.{Bool, true, false}
use native.Mathlib.Nat.{pow-suc, one-le-pow, div-add-mod', mod-lt}
use native.Mathlib.Omega.{arith}
use mpegts_pacer.Prelude.Tests.{◌==◌, ==→eq, if◌then◌else◌}

-- Over a byte a law is a table, checked by evaluation: the two sides at every number below `count`.
agree : (f g : ℕ → ℕ) (count : ℕ) → Bool
agree f g zero = true
agree f g (suc last) = if f last == g last then agree f g last else false

agree_at : (f g : ℕ → ℕ) (count b : ℕ) → b < count → agree f g count ≡ true → f b ≡ g b
unfolding agree
agree_at f g zero b lt table = absurd (omega arith)
agree_at f g (suc last) b lt table = ground (arith, agree_at f g last b, ==→eq (f last) (g last))

byte_law : (f g : ℕ → ℕ) → agree f g 256 ≡ true → (b : ℕ) → b < 256 → f b ≡ g b
byte_law f g table b lt = agree_at f g 256 b lt table

-- The native operations recur on binary digits with fuel; any two fuels that suffice agree.
module _ (base : ℕ → ℕ) (digit : ℕ → ℕ → ℕ) where
  enough_fuel : (n m a b : ℕ) → a ≤ n → a ≤ m → digits base digit n a b ≡ digits base digit m a b
  enough_fuel zero zero a b hn hm = refl
  enough_fuel zero (suc m) zero b hn hm = refl
  enough_fuel zero (suc m) (suc a) b hn hm = absurd (omega arith)
  enough_fuel (suc n) zero zero b hn hm = refl
  enough_fuel (suc n) zero (suc a) b hn hm = absurd (omega arith)
  enough_fuel (suc n) (suc m) zero b hn hm = refl
  enough_fuel (suc n) (suc m) (suc a) b hn hm =
      rw (enough_fuel n m (suc a / 2) (b / 2) (omega arith) (omega arith))

  lowest_digit :
      (a b : ℕ)
      → bitwise base digit (suc a) b
        ≡ digit (suc a % 2) (b % 2) + 2 * bitwise base digit (suc a / 2) (b / 2)
  lowest_digit a b =
      omega (arith, enough_fuel a (suc a / 2) (suc a / 2) (b / 2) (omega arith) (omega arith))

or_digit : (a b : ℕ) → bit_or a b ≡ max (a % 2) (b % 2) + 2 * bit_or (a / 2) (b / 2)
or_digit zero b = simp bit_or-bitwise (omega arith)
or_digit (suc a) b = simp bit_or-bitwise (lowest_digit (λ y. y) max a b)

and_digit : (a b : ℕ) → bit_and a b ≡ min (a % 2) (b % 2) + 2 * bit_and (a / 2) (b / 2)
and_digit zero b = simp bit_and-bitwise (omega arith)
and_digit (suc a) b = simp bit_and-bitwise (lowest_digit (λ y. 0) min a b)

or_zero : (n a : ℕ) → a ≤ n → bit_or a 0 ≡ a
or_zero n zero h = refl
or_zero zero (suc a) h = absurd (omega arith)
or_zero (suc n) (suc a) h = omega (arith, or_digit (suc a) 0, or_zero n (suc a / 2) (omega arith))

and_zero : (n a : ℕ) → a ≤ n → bit_and a 0 ≡ 0
and_zero n zero h = refl
and_zero zero (suc a) h = absurd (omega arith)
and_zero (suc n) (suc a) h =
    omega (arith, and_digit (suc a) 0, and_zero n (suc a / 2) (omega arith))

double : (q k : ℕ) → q * 2 ^ suc k ≡ 2 * (q * 2 ^ k)
double q k = omega (arith, ap (λ (t : ℕ). q * t) (pow-suc 2 k))

or_fields : (k q r : ℕ) → r < 2 ^ k → bit_or (q * 2 ^ k) r ≡ q * 2 ^ k + r
or_fields zero q r fits = ground (arith, or_zero q q)
or_fields (suc k) q r fits =
    ground (arith, or_digit (q * 2 ^ suc k) r, double q k, or_fields k q (r / 2) (omega arith))

-- `a | r` is a sum when the low `k` bits of `a` are clear and `r` fits them.
pub or_add : (k a r : ℕ) → a % 2 ^ k ≡ 0 → r < 2 ^ k → bit_or a r ≡ a + r
or_add k a r clear fits =
    let e : a / 2 ^ k * 2 ^ k ≡ a = omega (arith, div-add-mod' a (2 ^ k)) in
    rw e at (or_fields k (a / 2 ^ k) r fits)

and_fields : (k q r : ℕ) → r < 2 ^ k → bit_and (q * 2 ^ k + r) (2 ^ k - 1) ≡ r
and_fields zero q r fits = ground (arith, and_zero (q * 2 ^ 0 + r) (q * 2 ^ 0 + r))
and_fields (suc k) q r fits = ground (
  arith,
  and_digit (q * 2 ^ suc k + r) (2 ^ suc k - 1),
  double q k,
  pow-suc 2 k,
  one-le-pow k 2,
  and_fields k q (r / 2) (omega arith),
)

-- `a & (2^k - 1)` is the remainder.
pub and_mask : (k a : ℕ) → bit_and a (2 ^ k - 1) ≡ a % 2 ^ k
and_mask k a =
    rw (div-add-mod' a (2 ^ k)) at
      (and_fields k (a / 2 ^ k) (a % 2 ^ k) (mod-lt a (one-le-pow k 2 (omega arith))))

-- The single-bit tests and writes of the packet code, over a byte.
pub bit_4 : (b : ℕ) → b < 256 → bit_and b 0x10 ≡ b / 16 % 2 * 16
unfolding agree
bit_4 = byte_law (λ b. bit_and b 0x10) (λ b. b / 16 % 2 * 16) refl

pub bit_5 : (b : ℕ) → b < 256 → bit_and b 0x20 ≡ b / 32 % 2 * 32
unfolding agree
bit_5 = byte_law (λ b. bit_and b 0x20) (λ b. b / 32 % 2 * 32) refl

pub bit_7 : (b : ℕ) → b < 256 → bit_and b 0x80 ≡ b / 128 * 128
unfolding agree
bit_7 = byte_law (λ b. bit_and b 0x80) (λ b. b / 128 * 128) refl

pub set_bit_7 : (b : ℕ) → b < 256 → bit_or b 0x80 ≡ b % 128 + 128
unfolding agree
set_bit_7 = byte_law (λ b. bit_or b 0x80) (λ b. b % 128 + 128) refl

pub set_bit_7-keeps_bit_4 : (b : ℕ) → b < 256 → bit_and (bit_or b 0x80) 0x10 ≡ bit_and b 0x10
unfolding agree
set_bit_7-keeps_bit_4 = byte_law (λ b. bit_and (bit_or b 0x80) 0x10) (λ b. bit_and b 0x10) refl
