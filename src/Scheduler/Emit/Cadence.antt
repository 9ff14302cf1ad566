-- ===== src/Scheduler/Emit/Cadence.antt =====
-- The repetition limit of the PCR: how far back the last one is after each slot.
use mpegts_pacer.Prelude.{
  ℕ, ◌-◌, ◌<◌, ◌≡◌, refl, sym, ap, ◌∙◌, Bool, true, false, ◌&&◌, not, Option, none, some, List, [],
  ◌∷◌, ltb, if◌then◌else◌, is_some, arith, Bool-cases, Option-cases, inl, inr, ◌⊎◌,
}
use mathlib.Core.Path.{subst}
use mpegts_pacer.Packet.{Packet, has_pcr}
use mpegts_pacer.Pcr.Regen.{PcrRegen, locked_for_index}
use mpegts_pacer.Grid.{StreamGrid, Base}
use mpegts_pacer.Scheduler.{Scheduler}
use mpegts_pacer.Scheduler.Emit.{
  inserted_value, reinsert_at, reinsert_pcr, front_has_pcr, write_content, open_content,
  close_content, emit_content, emit_pcr, emit_null, fill_slot, content_at, next_content,
  queue_content, admit, emit_slot,
}

-- The last PCR went out less than `limit` slots before `index`.
abbrev pub Recent : Option ℕ → ℕ → ℕ → Type 0
Recent none index limit = limit < limit
Recent (some last) index limit = index - last < limit

Recent-now : (o : Option ℕ) (i m : ℕ) → o ≡ some i → 0 < m → Recent o i m
Recent-now o i m e pos = rw e (omega arith)

Recent-kept : (o : Option ℕ) (l i m : ℕ) → o ≡ some l → i - l < m → Recent o i m
Recent-kept o l i m e h = rw e h

module _ {F : Type 0} where
  -- A leg that can emit a PCR in the slot: it is on the stream's grid and in phase, or it is locked
  -- to the output clock.
  abbrev pub Clocked : Scheduler F → Option StreamGrid → PcrRegen → ℕ → Type 0
  Clocked s none r index = is_some (locked_for_index r index) ≡ true
  Clocked s (some g) r index = s.phased ≡ true

  written-last :
      (s : Scheduler F) (r : Option PcrRegen) (g : Option StreamGrid) (p : Packet) (b : Base)
      (i : ℕ)
      → (write_content s r g p b i).last_pcr_index ≡ s.last_pcr_index
  unfolding write_content
  written-last s none g p b i = refl
  written-last s (some r) none p b i = refl
  written-last s (some r) (some g) p b i = refl

  closed-last :
      (s : Scheduler F) (p : Packet) (i : ℕ) (send : Bool)
      → (close_content s p i send).last_pcr_index ≡ (if has_pcr p then some i else s.last_pcr_index)
  closed-last s p i true = refl
  closed-last s p i false = refl

  content-last :
      (s : Scheduler F) (p : Packet) (b : Base) (rest : List (Packet × Base)) (i : ℕ) (a : Bool)
      (d : Option Bool) (send : Bool)
      → (emit_content s p b rest i a d send).last_pcr_index
        ≡ (if has_pcr p then some i else s.last_pcr_index)
  unfolding emit_content open_content
  content-last s p b rest i a d send =
      let o = open_content s p rest a d in
      closed-last (write_content o o.pcr_regen o.grid p b i) p i send
      ∙ ap (λ l. if has_pcr p then some i else l) (written-last o o.pcr_regen o.grid p b i)

  pub emit_pcr-last :
      (s : Scheduler F) (i v : ℕ) (send : Bool) → (emit_pcr s i v send).last_pcr_index ≡ some i
  unfolding emit_pcr
  emit_pcr-last s i v true = refl
  emit_pcr-last s i v false = refl

  -- What fills a slot without a re-inserted PCR.
  fill-last :
      (s : Scheduler F) (q : List (Packet × Base)) (i : ℕ) (w a st : Bool) (d : Option Bool)
      (send : Bool)
      → (fill_slot s none q i w a st d send).last_pcr_index
        ≡ (if front_has_pcr q then some i else s.last_pcr_index)
  unfolding fill_slot emit_null
  fill-last s [] i w a st d send = refl
  fill-last s ((p, b) ∷ rest) i w a st d send = content-last s p b rest i a d send

  -- The value is there when the leg is clocked.
  value_there :
      (s : Scheduler F) (g : Option StreamGrid) (r : PcrRegen) (i : ℕ)
      → Clocked s g r i
      → ((is_some g && not s.phased) ≡ false) × (is_some (inserted_value s g r i) ≡ true)
  value_there s none r i h = (refl, h)
  value_there s (some g) r i h = (rw h refl, refl)

  -- No re-insertion where one could be made: the last PCR is recent, or the slot's content has one.
  not_needed :
      (s : Scheduler F) (r : PcrRegen) (n l i : ℕ)
      → Clocked s s.grid r i
      → reinsert_at s (some r) (some n) (some l) i false ≡ none
      → (i - l < s.pcr_max_packets) ⊎ (front_has_pcr s.deferred ≡ true)
  unfolding reinsert_at
  not_needed s r n l i h e =
      let (free, there) = value_there s s.grid r i h in
      elim (Bool-cases (ltb (i - l) s.pcr_max_packets)) [
        | inl soon ↦ inl (ground arith)
        | inr late ↦ elim (Bool-cases (front_has_pcr s.deferred)) [
          | inl front ↦ inr front
          | inr behind ↦
              let none_there : inserted_value s s.grid r i ≡ none = rw (free, late, behind) at e in
              let clash : false ≡ true = ap is_some (sym none_there) ∙ there in ground arith
        ]
      ]

  fill-Recent :
      (s : Scheduler F) (r : PcrRegen) (n l i : ℕ) (w a : Bool) (d : Option Bool) (send : Bool)
      → s.last_pcr_index ≡ some l
      → Clocked s s.grid r i
      → 0 < s.pcr_max_packets
      → Recent
          (fill_slot s
            (reinsert_at s (some r) (some n) (some l) i false)
            s.deferred
            i
            w
            a
            false
            d
            send).last_pcr_index
          i
          s.pcr_max_packets
  unfolding fill_slot
  fill-Recent s r n l i w a d send last h pos =
      elim (Option-cases (reinsert_at s (some r) (some n) (some l) i false)) [
        | inr (v, e) ↦ rw e (Recent-now _ i s.pcr_max_packets (emit_pcr-last s i v send) pos)
        | inl e ↦
            rw (e, fill-last s s.deferred i w a false d send)
              (elim (not_needed s r n l i h e) [
                | inr front ↦ rw front (omega arith)
                | inl soon ↦ elim (Bool-cases (front_has_pcr s.deferred)) [
                  | inl front ↦ rw front (omega arith)
                  | inr behind ↦
                      rw behind (Recent-kept s.last_pcr_index l i s.pcr_max_packets last soon)
                ]
              ])
      ]

  -- What admitting content leaves alone.
  abbrev Steady : Scheduler F → Scheduler F → Type 0
  Steady s t =
      (t.pcr_regen ≡ s.pcr_regen)
      × (t.pcr_pid ≡ s.pcr_pid)
      × (t.last_pcr_index ≡ s.last_pcr_index)
      × (t.phased ≡ s.phased)
      × (t.pcr_max_packets ≡ s.pcr_max_packets)
      × (is_some t.grid ≡ is_some s.grid)

  content_at-Steady :
      (s : Scheduler F) (g : Option StreamGrid) (i : ℕ) (w : Bool)
      → s.grid ≡ g
      → Steady s (content_at s g i w).0
  content_at-Steady s none i true e = (refl, refl, refl, refl, refl, refl)
  content_at-Steady s none i false e = (refl, refl, refl, refl, refl, refl)
  content_at-Steady s (some g) i w e = (refl, refl, refl, refl, refl, ap is_some (sym e))

  queue_content-Steady :
      (s t : Scheduler F) (o : Option (Packet × Base))
      → Steady s t
      → Steady s (queue_content (t, o)).0
  queue_content-Steady s t none h = h
  queue_content-Steady s t (some c) h = h

  admit-Steady : (s : Scheduler F) (i : ℕ) (w : Bool) → Steady s (admit s i w).0
  unfolding admit next_content
  admit-Steady s i w =
      queue_content-Steady s (next_content s i w).0 (next_content s i w).1
        (content_at-Steady s s.grid i w refl)

  Clocked-Steady :
      (s t : Scheduler F) (g h : Option StreamGrid) (r : PcrRegen) (i : ℕ)
      → is_some h ≡ is_some g
      → t.phased ≡ s.phased
      → Clocked s g r i
      → Clocked t h r i
  Clocked-Steady s t none none r i e k c = c
  Clocked-Steady s t none (some h) r i e k c = ground arith
  Clocked-Steady s t (some g) none r i e k c = ground arith
  Clocked-Steady s t (some g) (some h) r i e k c = k ∙ c

  -- The repetition limit holds after every slot of a leg that is not stalled, regenerates the PCR of
  -- a known PID, has emitted one and can emit another: the last PCR is less than the limit back.
  pub emit_slot-Recent :
      (s : Scheduler F) (r : PcrRegen) (n l due : ℕ) (d : Option Bool) (send : Bool)
      → s.pcr_regen ≡ some r
      → s.pcr_pid ≡ some n
      → s.last_pcr_index ≡ some l
      → Clocked s s.grid r s.slot
      → 0 < s.pcr_max_packets
      → Recent (emit_slot s due false d send).last_pcr_index s.slot s.pcr_max_packets
  unfolding emit_slot reinsert_pcr
  emit_slot-Recent s r n l due d send regen pid last h pos =
      let i = s.slot in
      let w = ltb s.media.released due in
      let t = (admit s i w).0 in
      let (regen', pid', last', phased', limit, grid) = admit-Steady s i w in
      let same : reinsert_pcr t i false ≡ reinsert_at t (some r) (some n) (some l) i false =
        same_reinsert t t.pcr_regen t.pcr_pid t.last_pcr_index (regen' ∙ regen) (pid' ∙ pid)
          (last' ∙ last) i in
      let filled =
        fill-Recent t r n l i w (admit s i w).1 d send (last' ∙ last)
          (Clocked-Steady s t s.grid t.grid r i grid phased' h) (omega (arith, limit)) in
      let a = (admit s i w).1 in
      subst
        (λ o.
          Recent (fill_slot t o t.deferred i w a false d send).last_pcr_index i s.pcr_max_packets)
        (sym same)
        (subst
          (λ m.
            Recent
              (fill_slot t (reinsert_at t (some r) (some n) (some l) i false) t.deferred i w a false
                d send).last_pcr_index
              i m)
          limit filled)
    where
      same_reinsert :
          (t : Scheduler F) (x : Option PcrRegen) (y z : Option ℕ)
          → x ≡ some r
          → y ≡ some n
          → z ≡ some l
          → (i : ℕ) → reinsert_at t x y z i false ≡ reinsert_at t (some r) (some n) (some l) i false
      same_reinsert t x y z ex ey ez i = rw (ex, ey, ez) refl
