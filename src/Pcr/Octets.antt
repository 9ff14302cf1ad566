-- ===== src/Pcr/Octets.antt =====
-- The six PCR octets as numbers, and what writing octets into a packet does to its bytes.
use mpegts_pacer.Prelude.{
  ℕ, zero, suc, ◌+◌, ◌*◌, ◌/◌, ◌%◌, ◌^◌, ◌≤◌, ◌<◌, ◌≡◌, refl, ◌∙◌, ◌⊎◌, List, [], ◌∷◌, bit_and,
  bit_or, length, get_or, set, length-set, get_or-set_self, get_or-set_ne, arith,
}
use mpegts_pacer.Prelude.Bits.{or_add, and_mask}
use mpegts_pacer.Pcr.{pcr_base, pcr_ext, pcr_octets, pcr_wrap_ticks, write_octets}

pub length-write_octets :
    (p : List ℕ) (i : ℕ) (os : List ℕ) → length (write_octets p i os) ≡ length p
unfolding write_octets
length-write_octets p i [] = refl
length-write_octets p i (o ∷ os) = length-write_octets (set p i o) (i + 1) os ∙ length-set p i o

pub get_or-write_octets_outside :
    (p : List ℕ) (i : ℕ) (os : List ℕ) (j : ℕ)
    → (j < i) ⊎ (i + length os ≤ j)
    → get_or (write_octets p i os) j 0 ≡ get_or p j 0
unfolding write_octets
get_or-write_octets_outside p i [] j h = refl
get_or-write_octets_outside p i (o ∷ os) j h =
    get_or-write_octets_outside (set p i o) (i + 1) os j (omega arith)
    ∙ get_or-set_ne p i j o 0 (omega arith)

pub get_or-write_octets :
    (p : List ℕ) (i : ℕ) (os : List ℕ) (k : ℕ)
    → k < length os
    → i + length os ≤ length p
    → get_or (write_octets p i os) (i + k) 0 ≡ get_or os k 0
unfolding write_octets
get_or-write_octets p i [] k h fits = absurd (omega arith)
get_or-write_octets p i (o ∷ os) zero h fits =
    let e : i + 0 ≡ i = omega arith in
    rw e (
      get_or-write_octets_outside (set p i o) (i + 1) os i (omega arith)
      ∙ get_or-set_self p i o 0 (omega arith))
get_or-write_octets p i (o ∷ os) (suc k) h fits =
    let e : i + suc k ≡ (i + 1) + k = omega arith in
    rw e
      (get_or-write_octets (set p i o) (i + 1) os k (omega arith) (omega (arith, length-set p i o)))

-- The base is the sum of its fields.
pub pcr_base-sum :
    (p0 p1 p2 p3 p4 : ℕ)
    → p1 < 256
    → p2 < 256
    → p3 < 256
    → p4 < 256
    → pcr_base p0 p1 p2 p3 p4 ≡ p0 * 2 ^ 25 + p1 * 2 ^ 17 + p2 * 2 ^ 9 + p3 * 2 ^ 1 + p4 / 2 ^ 7
unfolding pcr_base
pcr_base-sum p0 p1 p2 p3 p4 h1 h2 h3 h4 =
    rw
      (
        or_add 25 (p0 * 2 ^ 25) (p1 * 2 ^ 17) (omega arith) (omega arith),
        or_add 17 (p0 * 2 ^ 25 + p1 * 2 ^ 17) (p2 * 2 ^ 9) (omega arith) (omega arith),
        or_add 9 (p0 * 2 ^ 25 + p1 * 2 ^ 17 + p2 * 2 ^ 9) (p3 * 2 ^ 1) (omega arith) (omega arith),
        or_add 1 (p0 * 2 ^ 25 + p1 * 2 ^ 17 + p2 * 2 ^ 9 + p3 * 2 ^ 1) (p4 / 2 ^ 7) (omega arith)
            (omega arith),
      )
      refl

pub pcr_ext-sum : (p4 p5 : ℕ) → p5 < 256 → pcr_ext p4 p5 ≡ p4 % 2 * 256 + p5
unfolding pcr_ext
pcr_ext-sum p4 p5 h =
    rw (and_mask 1 p4, or_add 8 (p4 % 2 * 2 ^ 8) p5 (omega arith) (omega arith)) refl

two_bits : (x y : ℕ) → x < 2 → y < 2 → bit_or (bit_or (x * 128) 0x7e) y ≡ x * 128 + 126 + y
two_bits zero zero hx hy = refl
two_bits zero (suc zero) hx hy = refl
two_bits zero (suc (suc y)) hx hy = absurd (omega arith)
two_bits (suc zero) zero hx hy = refl
two_bits (suc zero) (suc zero) hx hy = refl
two_bits (suc zero) (suc (suc y)) hx hy = absurd (omega arith)
two_bits (suc (suc x)) y hx hy = absurd (omega arith)

-- The fifth octet: the last bit of the base, six reserved ones, the first bit of the extension.
fifth_octet :
    (b e : ℕ)
    → bit_or (bit_or (bit_and b 0x01 % 256 * 2 ^ 7 % 256) 0x7e) (bit_and (e / 2 ^ 8 % 256) 0x01)
      ≡ b % 2 * 128 + 126 + e / 256 % 2
fifth_octet b e =
    let low : b % 2 % 256 * 128 % 256 ≡ b % 2 * 128 = omega arith in
    let high : e / 256 % 256 % 2 ≡ e / 256 % 2 = omega arith in
    rw (and_mask 1 b, and_mask 1 (e / 2 ^ 8 % 256), low, high)
      (two_bits (b % 2) (e / 256 % 2) (omega arith) (omega arith))

recombine :
    (b e : ℕ)
    → b < 2 ^ 33
    → e < 300
    → let p4 = b % 2 * 128 + 126 + e / 256 % 2 in
      pcr_base (b / 2 ^ 25 % 256) (b / 2 ^ 17 % 256) (b / 2 ^ 9 % 256) (b / 2 ^ 1 % 256) p4 * 300
        + pcr_ext p4 (e % 256)
      ≡ b * 300 + e
recombine b e hb he = omega (
  arith,
  pcr_base-sum (b / 2 ^ 25 % 256) (b / 2 ^ 17 % 256) (b / 2 ^ 9 % 256) (b / 2 ^ 1 % 256)
      (b % 2 * 128 + 126 + e / 256 % 2) (omega arith) (omega arith) (omega arith) (omega arith),
  pcr_ext-sum (b % 2 * 128 + 126 + e / 256 % 2) (e % 256) (omega arith),
)

-- What the octets of a tick count read back as: the count on the wrapping clock.
pub pcr_octets-decode :
    (t : ℕ)
    → pcr_base
            (get_or (pcr_octets t) 0 0)
            (get_or (pcr_octets t) 1 0)
            (get_or (pcr_octets t) 2 0)
            (get_or (pcr_octets t) 3 0)
            (get_or (pcr_octets t) 4 0)
          * 300
        + pcr_ext (get_or (pcr_octets t) 4 0) (get_or (pcr_octets t) 5 0)
      ≡ t % pcr_wrap_ticks
unfolding pcr_octets
pcr_octets-decode t =
    rw (and_mask 33 (t / 300), fifth_octet (t / 300 % 2 ^ 33) (t % 300))
      (recombine (t / 300 % 2 ^ 33) (t % 300) (omega arith) (omega arith) ∙ omega arith)
