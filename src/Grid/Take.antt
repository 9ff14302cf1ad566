-- ===== src/Grid/Take.antt =====
-- What the grid hands over for an output slot: exactly the packet placed there, and every packet
-- whose slot has passed counted as late.
use mpegts_pacer.Prelude.{
  ℕ, suc, ◌+◌, ◌≤◌, ◌<◌, ◌≡◌, refl, sym, ap, ◌∙◌, false, Option, none, some, List, [], ◌∷◌, ◌++◌,
  ltb, ◌==◌, if◌then◌else◌, length, arith, is_some, tail, Bool-cases, inl, inr,
}
use mpegts_pacer.Prelude.Int.{ℤ}
use mpegts_pacer.Packet.{Packet}
use mpegts_pacer.Grid.{StreamGrid, Base, pass_bases, take_from, take}

-- Slots strictly rising from `lo` on, all below `hi`.
abbrev pub Ordered : ℕ → List (ℕ × Packet) → ℕ → Type 0
Ordered lo [] hi = lo ≤ hi
Ordered lo ((slot, packet) ∷ rest) hi = (lo ≤ slot) × Ordered (suc slot) rest hi

pub Ordered-bound : (lo : ℕ) (xs : List (ℕ × Packet)) (hi : ℕ) → Ordered lo xs hi → lo ≤ hi
Ordered-bound lo [] hi o = o
Ordered-bound lo ((slot, packet) ∷ rest) hi (le, o) =
    omega (arith, Ordered-bound (suc slot) rest hi o)

pub Ordered-weaken :
    (lo lo' : ℕ) (xs : List (ℕ × Packet)) (hi : ℕ) → lo' ≤ lo → Ordered lo xs hi → Ordered lo' xs hi
Ordered-weaken lo lo' [] hi le o = omega arith
Ordered-weaken lo lo' ((slot, packet) ∷ rest) hi le (le', o) = (omega arith, o)

pub Ordered-append :
    (lo : ℕ) (xs : List (ℕ × Packet)) (mid slot hi : ℕ) (packet : Packet)
    → Ordered lo xs mid
    → mid ≤ slot
    → slot < hi
    → Ordered lo (xs ++ ((slot, packet) ∷ [])) hi
Ordered-append lo [] mid slot hi packet o le lt = (omega arith, lt)
Ordered-append lo ((s, p) ∷ rest) mid slot hi packet (le', o) le lt =
    (le', Ordered-append (suc s) rest mid slot hi packet o le lt)

pub Ordered-tail :
    (lo : ℕ) (xs : List (ℕ × Packet)) (hi : ℕ) → Ordered lo xs hi → Ordered lo (tail xs) hi
Ordered-tail lo [] hi o = o
Ordered-tail lo ((s, p) ∷ rest) hi (le, o) = Ordered-weaken (suc s) lo rest hi (omega arith) o

-- How many placed packets have a slot before the given one, and the one placed exactly there.
unfoldable pub count_before : ℕ → List (ℕ × Packet) → ℕ
count_before slot [] = 0
count_before slot ((s, p) ∷ rest) = (if ltb s slot then 1 else 0) + count_before slot rest

unfoldable pub packet_at : ℕ → List (ℕ × Packet) → Option Packet
packet_at slot [] = none
packet_at slot ((s, p) ∷ rest) = if s == slot then some p else packet_at slot rest

unfoldable pub from_slot : ℕ → List (ℕ × Packet) → List (ℕ × Packet)
from_slot slot [] = []
from_slot slot ((s, p) ∷ rest) = if ltb s slot then from_slot slot rest else (s, p) ∷ rest

pub nothing_before :
    (slot lo : ℕ) (xs : List (ℕ × Packet)) (hi : ℕ)
    → Ordered lo xs hi
    → slot < lo
    → (count_before slot xs ≡ 0) × (packet_at slot xs ≡ none)
unfolding count_before packet_at
nothing_before slot lo [] hi o h = (refl, refl)
nothing_before slot lo ((s, p) ∷ rest) hi (le, o) h =
    ground (arith, nothing_before slot (suc s) rest hi o (omega arith))

from_slot_above :
    (slot lo : ℕ) (xs : List (ℕ × Packet)) (hi : ℕ)
    → Ordered lo xs hi
    → slot ≤ lo
    → from_slot slot xs ≡ xs
unfolding from_slot
from_slot_above slot lo [] hi o h = refl
from_slot_above slot lo ((s, p) ∷ rest) hi (le, o) h = ground arith

abbrev pub packet_of : Option (Packet × Base) → Option Packet
packet_of none = none
packet_of (some (p, b)) = some p

take_from_lem :
    (placed : List (ℕ × Packet)) (bases : List (ℕ × ℤ)) (taken : ℤ) (slot late lo hi : ℕ)
    → Ordered lo placed hi
    → let t = take_from placed bases taken slot late in
      (packet_of t.due ≡ packet_at slot placed)
      × (t.late ≡ late + count_before slot placed)
      × (t.placed ≡ from_slot (suc slot) placed)
unfolding take_from count_before packet_at from_slot
take_from_lem [] bases taken slot late lo hi o = (refl, omega arith, refl)
take_from_lem ((s, p) ∷ rest) bases taken slot late lo hi (le, o) = ground (
  arith,
  nothing_before slot (suc s) rest hi o,
  from_slot_above (suc slot) (suc s) rest hi o,
  take_from_lem rest (pass_bases bases taken false s).2 (pass_bases bases taken false s).0 slot
      (late + 1) (suc s) hi o,
)

from_slot-Ordered :
    (slot lo : ℕ) (xs : List (ℕ × Packet)) (hi : ℕ)
    → Ordered lo xs hi
    → Ordered lo (from_slot slot xs) hi
unfolding from_slot
from_slot-Ordered slot lo [] hi o = o
from_slot-Ordered slot lo ((s, p) ∷ rest) hi (le, o) = elim (Bool-cases (ltb s slot)) [
  | inl e ↦
      rw e (Ordered-weaken (suc s) lo _ hi (omega arith) (from_slot-Ordered slot (suc s) rest hi o))
  | inr e ↦ rw e (le, o)
]

-- Asked for an output slot, the grid answers with the packet placed exactly there, if there is one;
-- it counts every packet placed before the slot as late, keeps all that are placed after it, and
-- leaves them in order.
pub take_lem :
    (g : StreamGrid) (slot : ℕ)
    → Ordered 0 g.placed g.next_free
    → let (g', due, late) = take g slot in
      (packet_of due ≡ packet_at slot g.placed)
      × (late ≡ count_before slot g.placed)
      × (g'.placed ≡ from_slot (suc slot) g.placed)
      × Ordered 0 g'.placed g'.next_free
unfolding take
take_lem g slot o =
    let (due, late, kept) = take_from_lem g.placed g.bases g.taken_base slot 0 0 g.next_free o in
    (due, late ∙ omega arith, kept, rw kept (from_slot-Ordered (suc slot) 0 g.placed g.next_free o))

length-from_slot :
    (slot lo : ℕ) (xs : List (ℕ × Packet)) (hi : ℕ)
    → Ordered lo xs hi
    → count_before slot xs
        + (if is_some (packet_at slot xs) then 1 else 0)
        + length (from_slot (suc slot) xs)
      ≡ length xs
unfolding count_before packet_at from_slot
length-from_slot slot lo [] hi o = refl
length-from_slot slot lo ((s, p) ∷ rest) hi (le, o) = ground (
  arith,
  nothing_before slot (suc s) rest hi o,
  from_slot_above (suc slot) (suc s) rest hi o,
  length-from_slot slot (suc s) rest hi o,
)

-- No placed packet disappears without being handed over or counted late.
pub take-conserves :
    (g : StreamGrid) (slot : ℕ)
    → Ordered 0 g.placed g.next_free
    → let (g', due, late) = take g slot in
      late + (if is_some due then 1 else 0) + length g'.placed ≡ length g.placed
take-conserves g slot o =
    let (due, late, kept, _) = take_lem g slot o in
    let same : is_some (take g slot).1 ≡ is_some (packet_at slot g.placed) =
      sym (is_some-packet_of (take g slot).1) ∙ ap is_some due in
    rw (same, late, kept) (length-from_slot slot 0 g.placed g.next_free o)
  where
    is_some-packet_of : (d : Option (Packet × Base)) → is_some (packet_of d) ≡ is_some d
    is_some-packet_of none = refl
    is_some-packet_of (some (p, b)) = refl
