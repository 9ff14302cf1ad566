-- ===== src/Grid/Legs.antt =====
-- src/scheduler.rs, `StreamGrid`: two legs that read the same stream hold the same packets for the
-- same slots.
use mpegts_pacer.Prelude.{
  ℕ, ◌+◌, ◌≡◌, refl, sym, ap, ◌∙◌, Bool, true, false, ◌&&◌, ◌||◌, Option, none, some, List, [], ◌∷◌,
  ◌++◌, length, append-nil, append_assoc, ltb, ◌==◌, is_none, arith, Bool-cases, inl, inr,
}
use mpegts_pacer.Prelude.Int.{ℤ, pos, ltb_ℤ, ◌+ℤ◌}
use mpegts_pacer.Pcr.{declares_discontinuity}
use mpegts_pacer.Packet.{Packet, pcr}
use mpegts_pacer.Slot.{slot_of_pcr}
use mpegts_pacer.Grid.{
  StreamGrid, carry, slot_after, slot_against, slot_for, jumped, note_continuity, close_at,
  close_run, settle, push_pcr, push_on, push, since_open, interval_missed, missed_pcrs, take,
  take_from, pass_bases, grow_to,
}
use mpegts_pacer.Grid.SlotFor.{splice_free}
use mpegts_pacer.Grid.Push.{slot_for-shape}
use mpegts_pacer.Grid.Alone.{
  alone, IsSuffix, IsSuffix-eq, IsSuffix-trans, IsSuffix-append, spread-alone, spread-placed,
}

-- A grid that has become `g'` from `g`, and what a grid with nothing placed has become meanwhile.
abbrev Mirrors : StreamGrid → StreamGrid → StreamGrid → Type 0
Mirrors g g' b = (alone g' ≡ alone b) × IsSuffix g'.placed (g.placed ++ b.placed)

close_at-Mirrors :
    (g : StreamGrid) (o : Option (ℕ × ℕ)) (slot : ℕ)
    → Mirrors g (close_at g o slot).0 (close_at (alone g) o slot).0
unfolding close_at alone
close_at-Mirrors g none slot = (refl, ([], append-nil g.placed))
close_at-Mirrors g (some (open_pcr, open_slot)) slot = elim (Bool-cases (length g.run == 0)) [
  | inl e ↦ rw e (refl, ([], append-nil g.placed))
  | inr e ↦ rw e (spread-alone g open_slot slot, spread-placed g open_slot slot)
]

settle-Mirrors :
    (g : StreamGrid) (slot : ℕ) (lost : Bool)
    → Mirrors g (settle g slot lost).0 (settle (alone g) slot lost).0
unfolding settle close_run alone
settle-Mirrors g slot lost = elim (Bool-cases (is_none g.opened)) [
  | inl e ↦ rw e (refl, ([], append-nil g.placed))
  | inr e ↦ elim (Bool-cases lost) [
    | inl f ↦ rw (e, f) (refl, ([], append-nil g.placed))
    | inr f ↦ rw (e, f) (close_at-Mirrors g g.opened slot)
  ]
]

-- The source clock runs on from the PCR that opened the run.
abbrev pub RunsOn : Option (ℕ × ℕ) → ℕ → Type 0
RunsOn none value = Unit {0}
RunsOn (some (open_pcr, open_slot)) value = jumped open_pcr value ≡ false

slot_for-alone :
    (g : StreamGrid) (value since : ℕ) (horizon : Option ℕ)
    → RunsOn g.opened value
    → let (g', slot, silent) = slot_for g value false since horizon in
      slot_for (alone g) value false 0 none ≡ (alone g', slot, silent)
unfolding slot_for slot_against slot_after carry alone
slot_for-alone g value since horizon on = by_opened g.opened on
  where
    -- The result with its grid alone.
    apart : StreamGrid × ℕ × Bool → StreamGrid × ℕ × Bool
    apart (g', slot, silent) = (alone g', slot, silent)

    by_opened :
        (o : Option (ℕ × ℕ))
        → RunsOn o value
        → slot_against (alone g) o value false 0 none
          ≡ apart (slot_against g o value false since horizon)
    by_opened none on = refl
    by_opened (some (open_pcr, open_slot)) on =
        rw
          (
            splice_free (alone g) open_pcr open_slot value 0 none on,
            splice_free g open_pcr open_slot value since horizon on,
          )
          (elim (Bool-cases (ltb_ℤ (pos (slot_of_pcr g.map value) +ℤ g.epoch) (pos open_slot))) [
            | inl e ↦ rw e refl
            | inr e ↦ rw e refl
          ])

-- A result with its grid alone.
abbrev apart : StreamGrid × ℕ × Bool → StreamGrid × ℕ × Bool
apart (g, slot, silent) = (alone g, slot, silent)

-- What `push_pcr` does once the packet has its slot.
open_run : Packet → ℕ → ℕ → StreamGrid × ℕ × Bool → StreamGrid
open_run packet value now (g1, slot, silent) =
    let missed = g1.run_broken && interval_missed g1 g1.opened slot in
    let g2 = (settle (record g1 { run_broken = false }) slot (silent || missed)).0 in
    record g2 {
      opened = some (value, slot);
      open_base = g2.rebased;
      open_at = some now;
      run = packet ∷ [];
    }

open_run-Mirrors :
    (packet : Packet) (value now : ℕ) (s : StreamGrid × ℕ × Bool)
    → Mirrors s.0 (open_run packet value now s) (open_run packet value 0 (apart s))
unfolding open_run alone missed_pcrs
open_run-Mirrors packet value now (g1, slot, silent) =
    let lost = silent || g1.run_broken && interval_missed g1 g1.opened slot in
    let (same, suffix) = settle-Mirrors (record g1 { run_broken = false }) slot lost in
    (
      ap
          (λ b.
            let out : StreamGrid = record b {
              opened = some (value, slot);
              open_base = b.rebased;
              run = packet ∷ [];
              capacity = 2;
            } in
            out)
          same,
      suffix,
    )

slot_for-apart :
    (g : StreamGrid) (value since : ℕ) (declared : Bool) (horizon : Option ℕ)
    → declared ≡ false
    → RunsOn g.opened value
    → slot_for (alone g) value declared 0 none ≡ apart (slot_for g value declared since horizon)
slot_for-apart g value since true horizon d on = ground (arith, d)
slot_for-apart g value since false horizon d on = slot_for-alone g value since horizon on

slot_for-placed :
    (g : StreamGrid) (value since : ℕ) (declared : Bool) (horizon : Option ℕ)
    → (slot_for g value declared since horizon).0.placed ≡ g.placed
slot_for-placed g value since declared horizon =
    slot_for-shape g value since declared horizon (λ h. h.placed ≡ g.placed) (λ a b c. refl)

push_pcr-Mirrors :
    (g : StreamGrid) (packet : Packet) (value now : ℕ) (horizon : Option ℕ)
    → declares_discontinuity packet.bytes ≡ false
    → RunsOn g.opened value
    → Mirrors g (push_pcr g packet value now horizon).0 (push_pcr (alone g) packet value 0 none).0
unfolding push_pcr open_run
push_pcr-Mirrors g packet value now horizon d on =
    let declared = declares_discontinuity packet.bytes in
    let s = slot_for g value declared (since_open g.open_at now) horizon in
    let (same, suffix) = open_run-Mirrors packet value now s in
    let mirror : (push_pcr (alone g) packet value 0 none).0 ≡ open_run packet value 0 (apart s) =
      unfold alone in
      ap (λ t. open_run packet value 0 t)
        (slot_for-apart g value (since_open g.open_at now) declared horizon d on) in
    (
      same ∙ sym (ap alone mirror),
      IsSuffix-eq _ _ _
          (ap (λ b. g.placed ++ b.placed) mirror
            ∙ ap (λ t. t ++ (open_run packet value 0 (apart s)).placed)
                (sym (slot_for-placed g value (since_open g.open_at now) declared horizon)))
          suffix,
    )

-- The packet's PCR, if it has one, goes on from the last, with no discontinuity declared.
abbrev pub GoesOn : Option (ℕ × ℕ) → Packet → Option ℕ → Type 0
GoesOn opened packet none = Unit {0}
GoesOn opened packet (some value) =
    (declares_discontinuity packet.bytes ≡ false) × RunsOn opened value

push-Mirrors :
    (g : StreamGrid) (packet : Packet) (now : ℕ) (horizon : Option ℕ)
    → GoesOn g.opened packet (pcr packet)
    → Mirrors g (push g packet now horizon).0 (push (alone g) packet 0 none).0
unfolding push push_on note_continuity alone
push-Mirrors g packet now horizon on = by_pcr (pcr packet) on
  where
    noted : StreamGrid
    noted = note_continuity g packet

    by_pcr :
        (o : Option ℕ)
        → GoesOn g.opened packet o
        → Mirrors g (push_on noted packet now horizon o).0 (push_on (alone noted) packet 0 none o).0
    by_pcr (some value) (d, on) = push_pcr-Mirrors noted packet value now horizon d on
    by_pcr none on = elim (Bool-cases (is_none g.opened)) [
      | inl e ↦ rw e (refl, ([], append-nil g.placed))
      | inr e ↦ rw e (refl, ([], append-nil g.placed))
    ]

-- The grid of a leg that has placed nothing after a packet, and after all packets of a list.
unfoldable pub advance : StreamGrid → Packet → StreamGrid
advance b packet = (push b packet 0 none).0

-- What the packets make a leg place, in order, whenever they arrive.
unfoldable pub schedule : StreamGrid → List Packet → List (ℕ × Packet)
unfolding advance
schedule b [] = []
schedule b (p ∷ rest) = (advance b p).placed ++ schedule (alone (advance b p)) rest

-- The source clock runs on through all of them.
unfoldable pub IsCalm : StreamGrid → List Packet → Type 0
unfolding advance
IsCalm b [] = Unit {0}
IsCalm b (p ∷ rest) = GoesOn b.opened p (pcr p) × IsCalm (alone (advance b p)) rest

-- A leg's grid from one state to another, with the packets that it was given on the way: it asks for
-- any slot, and grows, whenever it likes, and each packet comes at any time.
pub data Reads : StreamGrid → List Packet → StreamGrid → Type 0 where
  idle : (g : StreamGrid) → Reads g [] g
  given :
      (g : StreamGrid) (p : Packet) (now : ℕ) (horizon : Option ℕ) (rest : List Packet)
      (h : StreamGrid)
      → Reads (push g p now horizon).0 rest h
      → Reads g (p ∷ rest) h
  asked :
      (g : StreamGrid) (slot : ℕ) (ps : List Packet) (h : StreamGrid)
      → Reads (take g slot).0 ps h
      → Reads g ps h
  grown :
      (g : StreamGrid) (room : ℕ) (ps : List Packet) (h : StreamGrid)
      → Reads (grow_to g room) ps h
      → Reads g ps h

take_from-IsSuffix :
    (placed : List (ℕ × Packet)) (bases : List (ℕ × ℤ)) (taken : ℤ) (slot late : ℕ)
    → IsSuffix (take_from placed bases taken slot late).placed placed
unfolding take_from
take_from-IsSuffix [] bases taken slot late = ([], refl)
take_from-IsSuffix ((s, p) ∷ rest) bases taken slot late =
    let (f, e) =
      take_from-IsSuffix rest (pass_bases bases taken false s).2 (pass_bases bases taken false s).0
        slot (late + 1) in
    elim (Bool-cases (ltb slot s)) [
      | inl a ↦ rw a ([], refl)
      | inr a ↦ elim (Bool-cases (ltb s slot)) [
        | inl b ↦ rw (a, b) ((s, p) ∷ f, ap (λ t. (s, p) ∷ t) e)
        | inr b ↦ rw (a, b) ((s, p) ∷ [], refl)
      ]
    ]

-- Whatever a leg asks and whenever its packets come, what it has placed and not handed over is the end
-- of what it had before and the schedule that its packets alone determine.
pub Reads-schedule :
    (g h : StreamGrid) (ps : List Packet) (done : List (ℕ × Packet))
    → Reads g ps h
    → IsCalm (alone g) ps
    → IsSuffix g.placed done
    → IsSuffix h.placed (done ++ schedule (alone g) ps)
unfolding schedule IsCalm alone take grow_to
Reads-schedule _ _ _ done (idle g) calm suffix = IsSuffix-eq _ _ _ (append-nil done) suffix
Reads-schedule _ _ _ done (given g p now horizon rest h r) (on, calm) suffix =
    let (same, placed) = push-Mirrors g p now horizon on in
    let new = (push (alone g) p 0 none).0.placed in
    let reached : IsSuffix (push g p now horizon).0.placed (done ++ new) =
      IsSuffix-trans _ _ _ placed (IsSuffix-append _ _ new suffix) in
    let later =
      Reads-schedule (push g p now horizon).0 h rest (done ++ new) r (rw same calm) reached in
    IsSuffix-eq _ _ _
      (sym (append_assoc done new _) ∙ ap (λ b. done ++ new ++ schedule b rest) (sym same)) later
Reads-schedule _ _ _ done (asked g slot ps h r) calm suffix =
    Reads-schedule (take g slot).0 h ps done r calm
      (IsSuffix-trans _ _ _ (take_from-IsSuffix g.placed g.bases g.taken_base slot 0) suffix)
Reads-schedule _ _ _ done (grown g room ps h r) calm suffix =
    Reads-schedule (grow_to g room) h ps done r calm suffix
