-- ===== src/Rewind/Ring.antt =====
-- src/rewind.c: looking snapshots up, and asking for one.
use arcade_os.Base.{
  ℕ, zero, suc, ◌+◌, ◌-◌, ◌%◌, true, not, ◌||◌, Option, none, some, ltb, leb, ◌==◌, if◌then◌else◌,
}
use arcade_os.Rewind.{Snapshots, Rewind, Here, slot_at, rewind_slots, sub_32}

-- The slot of the snapshot `i`, where 0 is the newest.
abbrev pub recent_slot : {Mem : Type 0} → Snapshots Mem → ℕ → ℕ
recent_slot r i = (r.ring_base + r.ring_count - 1 - i) % rewind_slots

module _ {Mem : Type 0} where
  -- `rewind_snapshot_count`
  pub snapshot_count : Rewind Mem → ℕ
  snapshot_count w = if w.enabled then w.ring.ring_count else 0

  unfoldable pub snapshot_age_ms : Here → ℕ → Rewind Mem → ℕ
  snapshot_age_ms h i w =
      if not w.enabled || leb w.ring.ring_count i
      then 0
      else sub_32 h.now (w.ring.slots (recent_slot w.ring i)).time

  unfoldable pub request_restore : ℕ → Rewind Mem → Rewind Mem
  request_restore i w = if not w.enabled || w.ring.ring_count == 0 then w else record w {
    pop_n = (if leb w.ring.ring_count i then w.ring.ring_count - 1 else i) + 1;
    requested = true;
  }

  -- The search of `slot_for_frame`, with the snapshots left.
  unfoldable pub find_slot : ℕ → Snapshots Mem → ℕ → Option ℕ
  find_slot zero r target = none
  find_slot (suc i) r target =
      if leb (r.slots (slot_at r i)).frame target then some (slot_at r i) else find_slot i r target

  abbrev pub slot_for_frame : Snapshots Mem → ℕ → Option ℕ
  slot_for_frame r target = find_slot r.ring_count r target

  -- How many of the snapshots are left once those behind the frame are dropped.
  unfoldable pub drop_newer : ℕ → Snapshots Mem → ℕ → ℕ
  drop_newer zero r f = 0
  drop_newer (suc i) r f = if ltb f (r.slots (slot_at r i)).frame then drop_newer i r f else suc i
