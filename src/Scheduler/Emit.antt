-- ===== src/Scheduler/Emit.antt =====
-- src/scheduler.rs: `Scheduler::emit_datagram` with `admit`, `next_content`, `catch_up` and
-- `reinsert_pcr`. The bytes of the datagram are the state's `scratch`.
pub mod Tally
pub mod Output
pub mod Cadence
pub mod Drain
pub mod Finish
pub mod Starve
pub mod Phase
pub mod Whole
pub mod Ledger
use mpegts_pacer.Prelude.{
  ℕ, zero, suc, ◌+◌, ◌-◌, ◌*◌, ◌%◌, Bool, true, false, ◌&&◌, ◌||◌, not, Option, none, some, List,
  [], ◌∷◌, ◌++◌, ltb, leb, ◌==◌, if◌then◌else◌, is_some, unwrap_or, length, get_or, bit_and,
  sat_add, wrap_add,
}
use mpegts_pacer.Prelude.Int.{ℤ, pos}
use mpegts_pacer.Float.{Float, as_secs}
use mpegts_pacer.Pcr.{set_discontinuity_indicator}
use mpegts_pacer.Pcr.Regen
use mpegts_pacer.Pcr.Regen.{PcrRegen}
use mpegts_pacer.Packet.{Packet, pid, has_pcr, pcr_only_packet}
use mpegts_pacer.Jitter
use mpegts_pacer.Grid
use mpegts_pacer.Grid.{StreamGrid, Base, determined}
use mpegts_pacer.Media
use mpegts_pacer.Scheduler.{Scheduler}
use mpegts_pacer.Scheduler.Liveness.{observe_state, is_stalled}

abbrev pub edge_of : Option StreamGrid → Option ℕ
edge_of none = none
edge_of (some g) = Grid.last_slot g

-- `Base::default()` goes with a packet of the jitter buffer.
abbrev pub with_base : Option Packet → Option (Packet × Base)
with_base none = none
with_base (some packet) = some (packet, record { offset = pos 0; starts = false })

abbrev pub front_has_pcr : List (Packet × Base) → Bool
front_has_pcr [] = false
front_has_pcr ((packet, base) ∷ rest) = has_pcr packet

abbrev pub is_pid : Option ℕ → ℕ → Bool
is_pid none n = false
is_pid (some m) n = m == n

-- `determined == Some(true)`, `determined == Some(false)`
abbrev pub known_true : Option Bool → Bool
known_true none = false
known_true (some b) = b

abbrev pub known_false : Option Bool → Bool
known_false none = false
known_false (some b) = not b

-- `determined.is_none_or(|determined| determined && self.phased)`
abbrev pub may_send : Option Bool → Bool → Bool
may_send none phased = true
may_send (some known) phased = known && phased

abbrev pub any : List (Packet × Base) → Bool
any [] = false
any (x ∷ xs) = true

module _ {F : Type 0} where
  -- The jump to the live edge: the clock restarts at `target` now, and what was queued for slots
  -- jumped over is late.
  abbrev pub jump_to : Scheduler F → ℕ → ℕ → Scheduler F
  jump_to s target now = record s {
    anchor = some now;
    anchor_slot = target;
    slot = target;
    deferred = [];
    phased = false;
    stats = record (s.stats) {
      late_drops = sat_add s.stats.late_drops (length s.deferred);
      resyncs = sat_add s.stats.resyncs 1;
    };
  }

  abbrev pub catch_up_to : Scheduler F → Option ℕ → ℕ → Scheduler F
  catch_up_to s none now = s
  catch_up_to s (some edge) now =
      let back = edge - s.latency_packets in
      let target = back - back % s.packets_per_datagram in
      if leb (edge - s.slot) s.max_latency_packets || leb target s.slot
      then s
      else jump_to s target now

  unfoldable pub catch_up : Scheduler F → ℕ → Scheduler F
  catch_up s now = catch_up_to s (edge_of s.grid) now

  abbrev pub content_at :
      Scheduler F → Option StreamGrid → ℕ → Bool → Scheduler F × Option (Packet × Base)
  content_at s none index want_content =
      let (buffer', packet) = Jitter.pop s.buffer in
      if want_content then (record s { buffer = buffer' }, with_base packet) else (s, none)
  content_at s (some g) index want_content =
      let (g', packet, late) = Grid.take g index in
      (
        record s {
          grid = some g';
          stats = record (s.stats) { late_drops = sat_add s.stats.late_drops late };
        },
        packet,
      )

  unfoldable pub next_content : Scheduler F → ℕ → Bool → Scheduler F × Option (Packet × Base)
  next_content s index want_content = content_at s s.grid index want_content

  abbrev pub queue_content : Scheduler F × Option (Packet × Base) → Scheduler F × Bool
  queue_content (s, none) = (s, false)
  queue_content (s, some content) = (
    record s {
      media = record (s.media) { released = sat_add s.media.released 1 };
      deferred = s.deferred ++ (content ∷ []);
    },
    true,
  )

  unfoldable pub admit : Scheduler F → ℕ → Bool → Scheduler F × Bool
  unfolding next_content
  admit s index want_content = queue_content (next_content s index want_content)

  -- The value for a re-insertion that applies.
  abbrev pub inserted_value : Scheduler F → Option StreamGrid → PcrRegen → ℕ → Option ℕ
  inserted_value s (some g) regen index = some (Grid.pcr_on g index s.pcr_base)
  inserted_value s none regen index = Regen.locked_for_index regen index

  -- The first three conditions are the options that the source opens with `?`.
  unfoldable pub reinsert_at :
      Scheduler F → Option PcrRegen → Option ℕ → Option ℕ → ℕ → Bool → Option ℕ
  reinsert_at s none pid last index stalled = none
  reinsert_at s (some regen) none last index stalled = none
  reinsert_at s (some regen) (some pid) none index stalled = none
  reinsert_at s (some regen) (some pid) (some last) index stalled =
      if stalled || (is_some s.grid && not s.phased)
      then none
      else if ltb (index - last) s.pcr_max_packets
      then none
      else if front_has_pcr s.deferred
      then none
      else inserted_value s s.grid regen index

  unfoldable pub reinsert_pcr : Scheduler F → ℕ → Bool → Option ℕ
  unfolding reinsert_at
  reinsert_pcr s index stalled = reinsert_at s s.pcr_regen s.pcr_pid s.last_pcr_index index stalled

  abbrev pub count_inserted : Scheduler F → Bool → Scheduler F
  count_inserted s send =
      if send
      then record s { stats = record (s.stats) { pcr_inserted = sat_add s.stats.pcr_inserted 1 } }
      else s

  -- The re-inserted PCR takes the slot.
  unfoldable pub emit_pcr : Scheduler F → ℕ → ℕ → Bool → Scheduler F
  emit_pcr s index value send =
      count_inserted
        (record s {
          scratch = s.scratch ++ pcr_only_packet (unwrap_or s.pcr_pid 0) s.pcr_pid_cc value;
          last_pcr_index = some index;
        })
        send

  -- A content packet's bytes as they go out: the state after them.
  abbrev pub write_on_grid : Scheduler F → StreamGrid → PcrRegen → Packet → Base → ℕ → Scheduler F
  write_on_grid s g regen packet base index =
      let (regen', bytes) =
        Regen.rewrite_absolute regen packet.bytes (Grid.pcr_on g index base.offset) in
      let marked =
        if has_pcr packet && base.starts then (set_discontinuity_indicator bytes).0 else bytes in
      record s {
        pcr_regen = some regen';
        pcr_base = if has_pcr packet then base.offset else s.pcr_base;
        scratch = s.scratch ++ marked;
      }

  abbrev pub write_byte_locked : Scheduler F → PcrRegen → Packet → ℕ → Scheduler F
  write_byte_locked s regen packet index =
      let (regen', bytes, rebased) = Regen.rewrite regen packet.bytes index in
      record s {
        pcr_regen = some regen';
        scratch = s.scratch ++ bytes;
        stats = record (s.stats) {
          pcr_rebases = if rebased then sat_add s.stats.pcr_rebases 1 else s.stats.pcr_rebases;
        };
      }

  unfoldable pub write_content :
      Scheduler F → Option PcrRegen → Option StreamGrid → Packet → Base → ℕ → Scheduler F
  write_content s none grid packet base index = record s { scratch = s.scratch ++ packet.bytes }
  write_content s (some regen) (some g) packet base index =
      write_on_grid s g regen packet base index
  write_content s (some regen) none packet base index = write_byte_locked s regen packet index

  abbrev pub count_content : Scheduler F → Bool → Scheduler F
  count_content s send =
      if send
      then record s {
        stats = record (s.stats) { content_packets = sat_add s.stats.content_packets 1 };
      }
      else s

  -- The state once the packet has left the queue, before its bytes are written.
  unfoldable pub open_content :
      Scheduler F → Packet → List (Packet × Base) → Bool → Option Bool → Scheduler F
  open_content s packet rest admitted determined =
      let phasing = has_pcr packet && admitted && not (any rest) && known_true determined in
      record s {
        deferred = rest;
        phased = if phasing then true else s.phased;
        pcr_pid_cc =
            if is_pid s.pcr_pid (pid packet)
            then bit_and (get_or packet.bytes 3 0) 0x0f
            else s.pcr_pid_cc;
      }

  abbrev pub close_content : Scheduler F → Packet → ℕ → Bool → Scheduler F
  close_content s packet index send =
      count_content
        (record s { last_pcr_index = if has_pcr packet then some index else s.last_pcr_index }) send

  unfoldable pub emit_content :
      Scheduler F
      → Packet
      → Base
      → List (Packet × Base)
      → ℕ
      → Bool
      → Option Bool
      → Bool
      → Scheduler F
  unfolding open_content write_content
  emit_content s packet base rest index admitted determined send =
      let opened = open_content s packet rest admitted determined in
      close_content (write_content opened opened.pcr_regen opened.grid packet base index) packet
        index send

  unfoldable pub emit_null : Scheduler F → Bool → Bool → Bool → Scheduler F
  emit_null s want_content stalled send = record s {
    scratch = s.scratch ++ s.null;
    stats = record (s.stats) {
      null_packets = if send then sat_add s.stats.null_packets 1 else s.stats.null_packets;
      underruns =
          if send && want_content && not stalled
          then sat_add s.stats.underruns 1
          else s.stats.underruns;
    };
  }

  -- What takes the slot: the PCR, the next content, or stuffing.
  unfoldable pub fill_slot :
      Scheduler F
      → Option ℕ
      → List (Packet × Base)
      → ℕ
      → Bool
      → Bool
      → Bool
      → Option Bool
      → Bool
      → Scheduler F
  unfolding emit_pcr emit_content emit_null
  fill_slot s (some value) queue index want_content admitted stalled determined send =
      emit_pcr s index value send
  fill_slot s none ((packet, base) ∷ rest) index want_content admitted stalled determined send =
      emit_content s packet base rest index admitted determined send
  fill_slot s none [] index want_content admitted stalled determined send =
      emit_null s want_content stalled send

  abbrev pub next_slot : Scheduler F → Bool → Scheduler F
  next_slot s send = record s {
    slot = sat_add s.slot 1;
    stats = record (s.stats) {
      output_packets = if send then sat_add s.stats.output_packets 1 else s.stats.output_packets;
    };
  }

  -- One round of the loop.
  unfoldable pub emit_slot : Scheduler F → ℕ → Bool → Option Bool → Bool → Scheduler F
  unfolding admit reinsert_pcr fill_slot
  emit_slot s due stalled determined send =
      let index = s.slot in
      let want_content = ltb s.media.released due in
      let (s', admitted) = admit s index want_content in
      next_slot
        (fill_slot s' (reinsert_pcr s' index stalled) s'.deferred index want_content admitted
          stalled determined send)
        send

  unfoldable pub emit_slots : ℕ → Scheduler F → ℕ → Bool → Option Bool → Bool → Scheduler F
  unfolding emit_slot
  emit_slots zero s due stalled determined send = s
  emit_slots (suc n) s due stalled determined send =
      emit_slots n (emit_slot s due stalled determined send) due stalled determined send

  -- Whether the leg knows what the stream puts in the datagram's slots; `none` without a grid.
  abbrev pub determined_for : Scheduler F → Option StreamGrid → Bool → Option Bool
  determined_for s none stalled = none
  determined_for s (some g) stalled =
      some (not stalled && determined g s.slot (sat_add s.slot s.packets_per_datagram))

  abbrev pub withhold : Scheduler F → Bool → Scheduler F
  withhold s send = if send then s else record s {
    scratch = [];
    stats = record (s.stats) {
      withheld_packets = sat_add s.stats.withheld_packets s.packets_per_datagram;
    };
  }

  -- The datagram filled and sent or withheld, once the clocks have been read.
  unfoldable pub fill_datagram : Scheduler F → ℕ → Bool → Scheduler F
  unfolding emit_slots
  fill_datagram s due stalled =
      let known = determined_for s s.grid stalled in
      let s' = if known_false known then record s { phased = false } else s in
      let send = may_send known s'.phased in
      withhold (emit_slots s'.packets_per_datagram s' due stalled known send) send

module _ (fl : Float) where
  open fl use {F, mul}

  unfoldable pub emit_datagram : Scheduler F → ℕ → Scheduler F
  unfolding catch_up fill_datagram observe_state
  emit_datagram s now =
      let s0 = record (catch_up s now) { scratch = [] } in
      let cushion = mul s0.media.rate_pps (as_secs fl s0.target) in
      let (media', due) = Media.due fl s0.media now (Jitter.len s0.buffer) cushion in
      let (s1, current) = observe_state (record s0 { media = media' }) now in
      fill_datagram s1 due (is_stalled current)
