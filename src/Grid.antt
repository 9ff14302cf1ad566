-- ===== src/Grid.antt =====
-- src/scheduler.rs, `StreamGrid`: places packets on the absolute output grid from the stream alone.
-- An instant and a duration are numbers of nanoseconds. A method that takes `&mut self` returns the
-- new grid. The `continuity` array is the function from a PID to its entry.
pub mod Take
pub mod Place
pub mod Close
pub mod SlotFor
pub mod Push
pub mod Alone
pub mod Legs
pub mod Pair
pub mod Whole
use mpegts_pacer.Prelude.{
  ℕ, zero, suc, ◌+◌, ◌-◌, ◌*◌, ◌/◌, ◌%◌, ◌^◌, max, bit_and, bit_or, Bool, true, false, ◌&&◌, ◌||◌,
  not, Option, none, some, List, [], ◌∷◌, ◌++◌, ltb, leb, ◌==◌, if◌then◌else◌, is_none, length,
  get_or, first?, last?, tail, sat_add, sat_mul, wrap_add, u64_mod, duration_sat_add,
  duration_sat_mul,
}
use mpegts_pacer.Prelude.Int.{ℤ, pos, pos_part, ◌+ℤ◌, ◌-ℤ◌, ltb_ℤ, leb_ℤ, eqb_ℤ}
use mpegts_pacer.Pcr.{
  forward_delta, ticks_to_duration, declares_discontinuity, pcr_discontinuity_gap,
}
use mpegts_pacer.Packet.{Packet, pid, pcr}
use mpegts_pacer.Slot
use mpegts_pacer.Slot.{SlotMap, slot_of_pcr, pcr_of_slot, slots_per_wrap}

abbrev pub recent_spans_kept : ℕ
recent_spans_kept = 8

abbrev pub missed_pcr_factor : ℕ
missed_pcr_factor = 2

abbrev pub cc_unseen : ℕ
cc_unseen = 0xff

abbrev pub cc_repeated : ℕ
cc_repeated = 0x10

pub record Base : Type 0 where
  pub offset : ℤ
  pub starts : Bool

pub record StreamGrid : Type 0 where
  pub map : SlotMap
  pub known_from : Option ℕ
  pub recent_spans : List ℕ
  pub cut : ℕ
  pub continuity : ℕ → ℕ
  pub run_broken : Bool
  pub run : List Packet
  -- source PCR and slot of the packet that opened the run
  pub opened : Option (ℕ × ℕ)
  pub open_at : Option ℕ
  pub placed : List (ℕ × Packet)
  pub epoch : ℤ
  pub rebased : ℤ
  pub open_base : ℤ
  pub placed_base : ℤ
  pub bases : List (ℕ × ℤ)
  pub taken_base : ℤ
  pub next_free : ℕ
  pub overruns : ℕ
  pub rebases : ℕ
  pub displacement_high_water : ℕ
  pub capacity : ℕ

unfoldable pub new : ℕ → ℕ → StreamGrid
new mux_rate_bps capacity = record {
  map = Slot.new mux_rate_bps;
  known_from = none;
  recent_spans = [];
  cut = 0;
  continuity = λ _. cc_unseen;
  run_broken = false;
  run = [];
  opened = none;
  open_at = none;
  placed = [];
  epoch = pos 0;
  rebased = pos 0;
  open_base = pos 0;
  placed_base = pos 0;
  bases = [];
  taken_base = pos 0;
  next_free = 0;
  overruns = 0;
  rebases = 0;
  displacement_high_water = 0;
  capacity = max capacity 1;
}

unfoldable pub grow_to : StreamGrid → ℕ → StreamGrid
grow_to g capacity = record g { capacity = max g.capacity (max capacity 1) }

-- `((i128::from(raw) + self.epoch).max(0) as u64)`
abbrev pub slot_at : ℕ → ℤ → ℕ
slot_at raw epoch = pos_part (pos raw +ℤ epoch) % u64_mod

-- The advance that a spell of silence may account for.
abbrev pub allowance : Bool → ℕ → ℕ
allowance declared since =
    if declared then duration_sat_add since (since / 4) else duration_sat_mul since 2

abbrev pub within : ℤ → Option ℕ → Bool
within on_grid none = false
within on_grid (some horizon) = leb_ℤ on_grid (pos horizon)

-- `jumped`: the source clock stood still, or leapt further than any interval does.
unfoldable pub jumped : ℕ → ℕ → Bool
jumped open_pcr pcr =
    let delta = forward_delta open_pcr pcr in
    delta == 0 || ltb pcr_discontinuity_gap (ticks_to_duration delta)

-- The test under which the source clock counts as moved.
unfoldable pub splice : StreamGrid → ℕ → ℕ → ℕ → Bool → ℕ → Option ℕ → Bool
unfolding jumped
splice g open_pcr open_slot pcr declared since horizon =
    let delta = forward_delta open_pcr pcr in
    let explained_by_silence =
      ltb 0 delta && leb (ticks_to_duration delta) (allowance declared since) in
    let on_grid = pos (slot_of_pcr g.map pcr) +ℤ g.epoch in
    let within_horizon = ltb 0 delta && ltb_ℤ (pos open_slot) on_grid && within on_grid horizon in
    (jumped open_pcr pcr || declared)
    && not explained_by_silence
    && (declared || not within_horizon)

-- The source clock moved: the grid goes on from where the open run ends.
unfoldable pub rebase : StreamGrid → ℕ → ℤ → StreamGrid × ℕ × Bool
rebase g raw epoch' = (
  record g {
    rebased = g.rebased +ℤ (epoch' -ℤ g.epoch);
    epoch = epoch';
    rebases = sat_add g.rebases 1;
  },
  slot_at raw epoch',
  false,
)

-- The 33-bit PCR value wrapped; the stream did not.
unfoldable pub carry : StreamGrid → ℕ → ℤ → StreamGrid × ℕ × Bool
carry g raw epoch' = (record g { epoch = epoch' }, slot_at raw epoch', false)

-- The slot of a PCR against an open run: the grid re-based, carried over a wrap, or as it stands.
unfoldable pub slot_after : StreamGrid → ℕ → ℕ → ℕ → Bool → ℕ → Option ℕ → StreamGrid × ℕ × Bool
unfolding splice rebase carry
slot_after g open_pcr open_slot pcr declared since horizon =
    let raw = slot_of_pcr g.map pcr in
    if splice g open_pcr open_slot pcr declared since horizon
    then rebase g raw (pos (sat_add open_slot (max (length g.run) 1)) -ℤ pos raw)
    else if ltb_ℤ (pos raw +ℤ g.epoch) (pos open_slot)
    then carry g raw (g.epoch +ℤ pos (slots_per_wrap g.map))
    else (g, slot_at raw g.epoch, jumped open_pcr pcr)

unfoldable pub slot_against :
    StreamGrid → Option (ℕ × ℕ) → ℕ → Bool → ℕ → Option ℕ → StreamGrid × ℕ × Bool
unfolding slot_after
slot_against g none pcr declared since horizon = (g, slot_at (slot_of_pcr g.map pcr) g.epoch, false)
slot_against g (some (open_pcr, open_slot)) pcr declared since horizon =
    slot_after g open_pcr open_slot pcr declared since horizon

unfoldable pub slot_for : StreamGrid → ℕ → Bool → ℕ → Option ℕ → StreamGrid × ℕ × Bool
unfolding slot_against
slot_for g pcr declared since horizon = slot_against g g.opened pcr declared since horizon

-- The entry that a packet leaves for its PID, and whether it breaks the sequence.
unfoldable pub next_continuity : ℕ → ℕ → Bool → Bool → ℕ × Bool
next_continuity last cc has_payload declared =
    if last == cc_unseen || declared
    then (cc, false)
    else if not has_payload
    then (last, not (cc == bit_and last 0x0f))
    else if cc == bit_and ((last + 1) % 256) 0x0f
    then (cc, false)
    else if cc == bit_and last 0x0f && bit_and last cc_repeated == 0
    then (bit_or cc cc_repeated, false)
    else (cc, true)

unfoldable pub note_continuity : StreamGrid → Packet → StreamGrid
unfolding next_continuity
note_continuity g packet =
    let b = packet.bytes in
    let (entry, broken) =
      next_continuity (g.continuity (pid packet)) (bit_and (get_or b 3 0) 0x0f)
        (not (bit_and (get_or b 3 0) 0x10 == 0)) (declares_discontinuity b) in
    record g {
      continuity = λ i. if i == pid packet then entry else g.continuity i;
      run_broken = g.run_broken || broken;
    }

-- `iter().max()`
abbrev pub maximum : List ℕ → Option ℕ
maximum [] = none
maximum (x ∷ xs) = elim (maximum xs) [ none ↦ some x | some m ↦ some (max x m) ]

unfoldable pub missed_pcrs : StreamGrid → ℕ → Bool
missed_pcrs g span = elim (maximum g.recent_spans) [
  | none ↦ false
  | some longest ↦ ltb 0 longest && leb (sat_mul longest missed_pcr_factor) span
]

-- `placed.push_back`, and the oldest dropped past the bound.
unfoldable pub queue_placed : List (ℕ × Packet) → ℕ → ℕ → Packet → List (ℕ × Packet) × ℕ
queue_placed placed capacity slot packet =
    let queued = placed ++ ((slot, packet) ∷ []) in
    if ltb capacity (length queued) then (tail queued, 1) else (queued, 0)

-- One packet of the run, at its even share of the span or the first free slot after it. A base
-- change is noted with the first packet.
unfoldable pub place_one : StreamGrid → Packet → ℕ → ℕ → ℕ → ℕ → StreamGrid × ℕ
unfolding queue_placed
place_one g packet index open_slot span count =
    let slot = max (wrap_add open_slot (sat_mul index span / count)) g.next_free in
    let changed = index == 0 && not (eqb_ℤ g.open_base g.placed_base) in
    let (queue, dropped) = queue_placed g.placed g.capacity slot packet in
    (
      record g {
        bases = if changed then g.bases ++ ((slot, g.open_base) ∷ []) else g.bases;
        placed_base = if changed then g.open_base else g.placed_base;
        next_free = wrap_add slot 1;
        placed = queue;
      },
      dropped,
    )

-- The loop over the drained run, from packet `index` on.
unfoldable pub place_run : StreamGrid → List Packet → ℕ → ℕ → ℕ → ℕ → StreamGrid × ℕ
unfolding place_one
place_run g [] index open_slot span count = (g, 0)
place_run g (packet ∷ rest) index open_slot span count =
    let (g', dropped) = place_one g packet index open_slot span count in
    let (g'', more) = place_run g' rest (index + 1) open_slot span count in (g'', dropped + more)

-- The most recent spans, the new one last.
abbrev pub remember : List ℕ → ℕ → List ℕ
remember spans span =
    (if length spans == recent_spans_kept then tail spans else spans) ++ (span ∷ [])

-- The state as the loop over the drained run begins.
abbrev pub ready_to_place : StreamGrid → ℕ → StreamGrid
ready_to_place g span = record g {
  recent_spans = remember g.recent_spans span;
  overruns = if ltb span (length g.run) then sat_add g.overruns 1 else g.overruns;
  run = [];
}

-- The run closed against the slot of the next PCR, from its own slot.
unfoldable pub spread : StreamGrid → ℕ → ℕ → StreamGrid × ℕ
unfolding place_run
spread g open_slot next_slot =
    let count = length g.run in
    let span = next_slot - open_slot in
    let (g', dropped) = place_run (ready_to_place g span) g.run 0 open_slot span count in
    (
      record g' {
        displacement_high_water = max g'.displacement_high_water (g'.next_free - next_slot);
      },
      dropped,
    )

unfoldable pub close_at : StreamGrid → Option (ℕ × ℕ) → ℕ → StreamGrid × ℕ
unfolding spread
close_at g none next_slot = (g, 0)
close_at g (some (open_pcr, open_slot)) next_slot =
    if length g.run == 0 then (g, 0) else spread g open_slot next_slot

unfoldable pub close_run : StreamGrid → ℕ → StreamGrid × ℕ
unfolding close_at
close_run g next_slot = close_at g g.opened next_slot

-- Whether the interval to `slot` is too long to be one that the source sent.
abbrev pub interval_missed : StreamGrid → Option (ℕ × ℕ) → ℕ → Bool
interval_missed g none slot = false
interval_missed g (some (open_pcr, open_slot)) slot = missed_pcrs g (slot - open_slot)

-- The time since the open run's PCR arrived.
abbrev pub since_open : Option ℕ → ℕ → ℕ
since_open none now = 0
since_open (some at) now = now - at

-- The open run placed, or cut because its closing PCR was missed. The grid's first PCR closes none.
unfoldable pub settle : StreamGrid → ℕ → Bool → StreamGrid × ℕ
unfolding close_run
settle g slot lost =
    if is_none g.opened
    then (record g { known_from = some slot }, 0)
    else if lost
    then (record g { cut = sat_add g.cut (length g.run); run = []; known_from = some slot }, 0)
    else close_run g slot

-- A packet with a PCR closes the open run and opens its own.
unfoldable pub push_pcr : StreamGrid → Packet → ℕ → ℕ → Option ℕ → StreamGrid × ℕ
unfolding slot_for settle
push_pcr g packet pcr now horizon =
    let (g1, slot, after_silence) =
      slot_for g pcr (declares_discontinuity packet.bytes) (since_open g.open_at now) horizon in
    let missed = g1.run_broken && interval_missed g1 g1.opened slot in
    let (g2, dropped) = settle (record g1 { run_broken = false }) slot (after_silence || missed) in
    (
      record g2 {
        opened = some (pcr, slot);
        open_base = g2.rebased;
        open_at = some now;
        run = packet ∷ [];
      },
      dropped,
    )

-- A packet without a PCR joins the open run; before the first PCR it has no position.
unfoldable pub push_on : StreamGrid → Packet → ℕ → Option ℕ → Option ℕ → StreamGrid × ℕ
unfolding push_pcr
push_on g packet now horizon (some value) = push_pcr g packet value now horizon
push_on g packet now horizon none =
    if is_none g.opened then (g, 1) else (record g { run = g.run ++ (packet ∷ []) }, 0)

unfoldable pub push : StreamGrid → Packet → ℕ → Option ℕ → StreamGrid × ℕ
unfolding note_continuity push_on
push g packet now horizon = push_on (note_continuity g packet) packet now horizon (pcr packet)

unfoldable pub determined : StreamGrid → ℕ → ℕ → Bool
determined g from to = go g.known_from g.opened
  where
    go : Option ℕ → Option (ℕ × ℕ) → Bool
    go (some known_from) (some (open_pcr, open_slot)) = leb known_from from && leb to open_slot
    go known opened = false

unfoldable pub flush : StreamGrid → StreamGrid
flush g = record g { cut = sat_add g.cut (length g.run); run = [] }

-- The bases that begin at or before a placed slot: the offset then in force, whether one begins
-- exactly there, and those still ahead.
unfoldable pub pass_bases : List (ℕ × ℤ) → ℤ → Bool → ℕ → ℤ × Bool × List (ℕ × ℤ)
pass_bases [] taken starts placed_slot = (taken, starts, [])
pass_bases ((from, offset) ∷ rest) taken starts placed_slot =
    let passed = pass_bases rest offset (from == placed_slot) placed_slot in
    if ltb placed_slot from then (taken, starts, (from, offset) ∷ rest) else passed

-- What the loop of `take` leaves: placed packets, bases, the offset taken, the packet due, and how
-- many were late.
pub record Taken : Type 0 where
  pub placed : List (ℕ × Packet)
  pub bases : List (ℕ × ℤ)
  pub taken_base : ℤ
  pub due : Option (Packet × Base)
  pub late : ℕ

unfoldable pub take_from : List (ℕ × Packet) → List (ℕ × ℤ) → ℤ → ℕ → ℕ → Taken
unfolding pass_bases
take_from [] bases taken slot late = record {
  placed = [];
  bases = bases;
  taken_base = taken;
  due = none;
  late = late;
}
take_from ((placed_slot, packet) ∷ rest) bases taken slot late =
    let (offset, starts, ahead) = pass_bases bases taken false placed_slot in
    let skipped = take_from rest ahead offset slot (late + 1) in
    if ltb slot placed_slot
    then record {
      placed = (placed_slot, packet) ∷ rest;
      bases = bases;
      taken_base = taken;
      due = none;
      late = late;
    }
    else if ltb placed_slot slot
    then skipped
    else record {
      placed = rest;
      bases = ahead;
      taken_base = offset;
      due = some (packet, record { offset = offset; starts = starts });
      late = late;
    }

unfoldable pub take : StreamGrid → ℕ → StreamGrid × Option (Packet × Base) × ℕ
unfolding take_from
take g slot =
    let t = take_from g.placed g.bases g.taken_base slot 0 in
    (record g { placed = t.placed; bases = t.bases; taken_base = t.taken_base }, t.due, t.late)

-- `u64::try_from(i128::from(slot) - offset).unwrap_or(0)`
abbrev pub to_u64 : ℤ → ℕ
to_u64 z = if ltb (pos_part z) u64_mod then pos_part z else 0

unfoldable pub pcr_on : StreamGrid → ℕ → ℤ → ℕ
pcr_on g slot offset = pcr_of_slot g.map (to_u64 (pos slot -ℤ offset))

unfoldable pub first_slot : StreamGrid → Option ℕ
first_slot g = elim (first? g.placed) [ none ↦ none | some (slot, _) ↦ some slot ]

unfoldable pub last_slot : StreamGrid → Option ℕ
last_slot g = elim (last? g.placed) [ none ↦ none | some (slot, _) ↦ some slot ]

unfoldable pub has_content : StreamGrid → Bool
has_content g = elim g.placed [ [] ↦ false | _ ∷ _ ↦ true ]
