-- ===== src/Pacer/Warmup/Gather.antt =====
-- src/pacer.rs, `resolve_auto`: the packets taken from the source before the rate is locked.
use mpegts_pacer.Prelude.{
  ℕ, suc, ◌+◌, ◌≤◌, ◌<◌, ◌≡◌, refl, sym, ap, ◌∙◌, inl, inr, Bool, true, false, ◌||◌, Option, none,
  some, List, [], ◌∷◌, ◌++◌, leb, if◌then◌else◌, length, length-append, append_assoc, arith,
  Bool-cases,
}
use mpegts_pacer.Float.{Float}
use mpegts_pacer.Error.{Result, ok, err}
use mpegts_pacer.Config.{Config}
use mpegts_pacer.Packet.{Packet, has_pcr}
use mpegts_pacer.Pacer.{Arrival, packet, eof, silent, stalls_hard}
use mpegts_pacer.Pacer.Warmup.{
  auto_warmup_max_packets, auto_warmup_pcrs, Gathered, gathered, refused, waiting, gather,
  resolve_auto, locked_rate,
}

-- The packets that the waits bring.
abbrev pub delivered : List (Result Arrival × ℕ) → List Packet
delivered [] = []
delivered ((ok (packet p), now) ∷ rest) = p ∷ delivered rest
delivered ((_, now) ∷ rest) = delivered rest

-- Whether the source ends in one of them.
abbrev pub has_ended : List (Result Arrival × ℕ) → Bool
has_ended [] = false
has_ended ((ok eof, now) ∷ rest) = true
has_ended ((_, now) ∷ rest) = has_ended rest

abbrev pub count_pcrs : List Packet → ℕ
count_pcrs [] = 0
count_pcrs (p ∷ rest) = if has_pcr p then suc (count_pcrs rest) else count_pcrs rest

count_pcrs-append :
    (xs : List Packet) (p : Packet)
    → count_pcrs (xs ++ (p ∷ [])) ≡ (if has_pcr p then count_pcrs xs + 1 else count_pcrs xs)
count_pcrs-append [] p = ground arith
count_pcrs-append (x ∷ xs) p = ground (arith, count_pcrs-append xs p)

-- The packets `kept` of a warm-up, out of those taken before and those of the waits.
pub record Measured (taken : List Packet) (waits : List (Result Arrival × ℕ)) (kept : List Packet)
    : Type 0 where
  pub bounded : length kept ≤ auto_warmup_max_packets
  pub in_order : (rest : List Packet) × (taken ++ delivered waits ≡ kept ++ rest)
  pub measurable :
      has_ended waits ≡ false → length kept < auto_warmup_max_packets → 2 ≤ count_pcrs kept

module _ (fl : Float) where
  open fl use {F}

  gather-Measured :
      (c : Config F) (started_at : ℕ) (taken : List Packet) (pcrs : ℕ)
      (waits : List (Result Arrival × ℕ)) (kept : List Packet)
      → pcrs ≡ count_pcrs taken
      → length taken < auto_warmup_max_packets
      → gather fl c started_at taken pcrs waits ≡ gathered kept
      → Measured taken waits kept
  unfolding gather
  gather-Measured c started_at taken pcrs [] kept n room h = absurd (cc h)
  gather-Measured c started_at taken pcrs ((err e, now) ∷ rest) kept n room h = absurd (cc h)
  gather-Measured c started_at taken pcrs ((ok eof, now) ∷ rest) kept n room h =
      let same : taken ≡ kept = cc h in
      record {
        bounded = omega (arith, ap length same, room);
        in_order = (delivered rest, ap (λ t. t ++ delivered rest) same);
        measurable = λ e. ground (arith, e);
      }
  gather-Measured c started_at taken pcrs ((ok silent, now) ∷ rest) kept n room h =
      elim (Bool-cases (stalls_hard c)) [
        | inl e ↦ absurd (cc (rw e at h))
        | inr e ↦ elim (Bool-cases (leb 2 pcrs)) [
          | inl f ↦
              let same : taken ≡ kept = cc (rw (e, f) at h) in
              record {
                bounded = omega (arith, ap length same, room);
                in_order = (delivered rest, ap (λ t. t ++ delivered rest) same);
                measurable = λ e lt. ground (arith, ap count_pcrs same, n, f);
              }
          | inr f ↦
              let m = gather-Measured c started_at taken pcrs rest kept n room (rw (e, f) at h) in
              record { bounded = m.bounded; in_order = m.in_order; measurable = m.measurable }
        ]
      ]
  gather-Measured c started_at taken pcrs ((ok (packet p), now) ∷ rest) kept n room h =
      let taken' = taken ++ (p ∷ []) in
      let pcrs' = if has_pcr p then pcrs + 1 else pcrs in
      let counted : pcrs' ≡ count_pcrs taken' = ground (arith, count_pcrs-append taken p, n) in
      let moved = sym (append_assoc taken (p ∷ []) (delivered rest)) in
      let longer = length-append taken (p ∷ []) in
      elim (Bool-cases
        (leb auto_warmup_pcrs pcrs' || leb auto_warmup_max_packets (length taken'))) [
          | inl e ↦
              let same : taken' ≡ kept = cc (rw e at h) in
              record {
                bounded = omega (arith, ap length same, longer, room);
                in_order = (delivered rest, moved ∙ ap (λ t. t ++ delivered rest) same);
                measurable =
                    λ ended lt. ground (arith, e, ap length same, ap count_pcrs same, counted, lt);
              }
          | inr e ↦
              let m =
                gather-Measured c started_at taken' pcrs' rest kept counted (ground (arith, e))
                  (rw e at h) in
              let (left, order) = m.in_order in
              record {
                bounded = m.bounded;
                in_order = (left, moved ∙ order);
                measurable = m.measurable;
              }
        ]

  -- A rate is locked on packets that the source delivered, in their order and none left out, at most
  -- as many as the limit; below the limit, and before the end of the source, on two PCRs or more. The
  -- rate is not zero.
  pub resolve_auto-Measured :
      (headroom : F) (c : Config F) (started_at : ℕ) (waits : List (Result Arrival × ℕ)) (rate : ℕ)
      (warmup : List Packet)
      → resolve_auto fl headroom c started_at waits ≡ some (ok (rate, warmup))
      → Measured [] waits warmup × (0 < rate)
  unfolding resolve_auto locked_rate
  resolve_auto-Measured headroom c started_at waits rate warmup h =
      by_gathered (gather fl c started_at [] 0 waits) refl h
    where
      answer : Gathered → Option (Result (ℕ × List Packet))
      answer g = elim g [
        | waiting ↦ none
        | refused e ↦ some (err e)
        | gathered kept ↦ some (ok (locked_rate fl headroom kept, kept))
      ]

      by_gathered :
          (g : Gathered)
          → gather fl c started_at [] 0 waits ≡ g
          → answer g ≡ some (ok (rate, warmup))
          → Measured [] waits warmup × (0 < rate)
      by_gathered waiting e h = absurd (cc h)
      by_gathered (refused u) e h = absurd (cc h)
      by_gathered (gathered kept) e h =
          let same : kept ≡ warmup = cc h in
          let locked : locked_rate fl headroom kept ≡ rate = cc h in
          (
            gather-Measured c started_at [] 0 waits warmup refl (omega arith)
                (e ∙ ap gathered same),
            omega (arith, locked),
          )
