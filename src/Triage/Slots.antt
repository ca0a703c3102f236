-- ===== src/Triage/Slots.antt =====
-- The busy half of src/triage/meeting-slots.ts: merging the founder's busy intervals, and the clash of a
-- proposed slot with them. Instants are milliseconds and intervals half-open.
pub mod Merging
pub mod Offers
mod Tests
use agent_orchestrator.Base.{
  ℕ, Bool, ◌&&◌, Option, List, [], ◌∷◌, ltb, leb, if◌then◌else◌, select, first, order_by,
}

pub record BusyInterval : Type 0 where
  pub start : ℕ
  pub end : ℕ

pub record Slot : Type 0 where
  pub starts_at : ℕ
  pub ends_at : ℕ

abbrev pub is_proper : BusyInterval → Bool
is_proper i = ltb i.start i.end

abbrev pub starts_first : BusyInterval → BusyInterval → Bool
starts_first a b = leb a.start b.start

-- `last.end = cur.end`, never shrinking
abbrev pub extended : BusyInterval → BusyInterval → BusyInterval
extended last cur = if ltb last.end cur.end then record last { end = cur.end } else last

-- The loop, with the interval that was put out last.
unfoldable pub merge_from : BusyInterval → List BusyInterval → List BusyInterval
merge_from last [] = last ∷ []
merge_from last (cur ∷ rest) =
    let touching = leb cur.start last.end in
    let merged = merge_from (if touching then extended last cur else cur) rest in
    if touching then merged else last ∷ merged

abbrev pub merged : List BusyInterval → List BusyInterval
merged [] = []
merged (i ∷ is) = merge_from i is

unfoldable pub merge_busy : List BusyInterval → List BusyInterval
merge_busy intervals = merged (order_by starts_first (select is_proper intervals))

unfoldable pub overlaps : (a_start a_end b_start b_end : ℕ) → Bool
overlaps a_start a_end b_start b_end = ltb a_start b_end && ltb b_start a_end

abbrev pub clashes : Slot → BusyInterval → Bool
clashes slot b = overlaps slot.starts_at slot.ends_at b.start b.end

-- The interval that the slot collides with.
unfoldable pub slot_conflicts : Slot → List BusyInterval → Option BusyInterval
slot_conflicts slot busy = first (select (clashes slot) (merge_busy busy))
