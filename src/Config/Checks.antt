-- ===== src/Config/Checks.antt =====
-- What the latency rules compute, and what the checks before a run let through.
use mpegts_pacer.Prelude.{
  ℕ, ◌≤◌, ◌<◌, ◌≡◌, refl, false, Option, none, some, ltb, arith, min, max, if◌then◌else◌,
}
use mpegts_pacer.Float.{Float, mul_duration}
use mpegts_pacer.Error.{ok}
use mpegts_pacer.Config.{
  Config, Latency, fixed, adaptive, arrival, clamp, target, floor_of, start_deadline, validate,
}

-- The two bounds of an adaptive latency in order.
abbrev pub InOrder : {F : Type 0} → Latency F → Type 0
InOrder (fixed target most) = 0 ≤ 0
InOrder (adaptive floor ceiling factor) = floor ≤ ceiling

-- What a deadline, if there is one, has above it.
abbrev pub Within : ℕ → Option ℕ → Type 0
Within t none = 0 ≤ 0
Within t (some deadline) = t ≤ deadline

-- A depth cut at a deadline, if there is one.
abbrev pub capped : ℕ → Option ℕ → ℕ
capped x none = x
capped x (some deadline) = min x deadline

clamp-between :
    (x floor ceiling : ℕ)
    → floor ≤ ceiling
    → (t : ℕ) × (clamp x floor ceiling ≡ some t)
      × (t ≡ max floor (min x ceiling))
      × (floor ≤ t)
      × (t ≤ ceiling)
unfolding clamp
clamp-between x floor ceiling h =
    let sane : ltb ceiling floor ≡ false = ground arith in
    let t = if ltb x floor then floor else if ltb ceiling x then ceiling else x in
    (t, rw sane refl, ground arith, ground arith, ground arith)

module _ (fl : Float) where
  open fl use {F, lit, fmax}

  -- What a latency asks for before its bounds: the pinned depth, or the lead times the factor, where
  -- that is a duration.
  abbrev pub wanted : Latency F → ℕ → Option ℕ
  wanted (fixed pinned most) lead = some pinned
  wanted (adaptive floor ceiling factor) lead = mul_duration fl lead (fmax factor (lit 0 1))

  -- The target that is due to a latency which asks for a duration, or for none.
  abbrev pub Targets : Latency F → Option ℕ → Option ℕ → Type 0
  Targets l none due = due ≡ none
  Targets l (some x) due =
      (t : ℕ) × (due ≡ some t)
      × (t ≡ max (floor_of fl l) (capped x (start_deadline fl l)))
      × (floor_of fl l ≤ t)
      × Within t (start_deadline fl l)

  -- A latency whose bounds are in order has a target just where the lead times the factor is a
  -- duration: that product, cut at the deadline by which an adaptive run must start and raised to the
  -- floor, so at least the floor and never past the deadline. Where it is no duration, the target is
  -- a panic whatever the bounds. A pinned latency has its depth as the target.
  pub target-between :
      (l : Latency F) (lead : ℕ) → InOrder l → Targets l (wanted l lead) (target fl l lead)
  unfolding target floor_of start_deadline
  target-between (fixed pinned most) lead h = (pinned, refl, omega arith, omega arith, omega arith)
  target-between (adaptive floor ceiling factor) lead h =
      by_product (mul_duration fl lead (fmax factor (lit 0 1)))
    where
      by_product :
          (o : Option ℕ)
          → Targets
              (adaptive floor ceiling factor)
              o
              (elim o [ none ↦ none | some product ↦ clamp product floor ceiling ])
      by_product none = refl
      by_product (some x) = clamp-between x floor ceiling h

clamp-panics : (x floor ceiling : ℕ) → ceiling < floor → clamp x floor ceiling ≡ none
unfolding clamp
clamp-panics x floor ceiling h = ground arith

-- The checks before a run let an adaptive latency with its bounds out of order through, and then the
-- target that the run asks for is a panic.
pub validate-lets_through :
    (fl : Float) (c : Config (fl.F)) (floor ceiling lead : ℕ) (factor : fl.F)
    → c.latency ≡ adaptive floor ceiling factor
    → c.clocking ≡ arrival
    → c.align ≡ none
    → ceiling < floor
    → (validate c ≡ ok tt) × (target fl c.latency lead ≡ none)
unfolding validate target
validate-lets_through fl c floor ceiling lead factor l k a h =
    (rw (l, k, a) refl, rw l (by_product (mul_duration fl lead (fl.fmax factor (fl.lit 0 1)))))
  where
    by_product : (o : Option ℕ) → elim o [ none ↦ none | some x ↦ clamp x floor ceiling ] ≡ none
    by_product none = refl
    by_product (some x) = clamp-panics x floor ceiling h
