-- ===== src/Triage/Slots/Offers/Tests.antt =====
-- The offers of a Sunday that is open from nine to five.
use agent_orchestrator.Base.{ℕ, ◌+◌, ◌*◌, ◌≤◌, true, some, List, [], ◌∷◌, ◌≡◌, refl, length, All}
use agent_orchestrator.Outbound.SendWindow.{
  business_hours_by_dow, open_window_for_day, is_holiday, safe_zone, parse_time,
}
use agent_orchestrator.Triage.Slots.{Slot, merge_busy, merge_from, slot_conflicts, overlaps}
use agent_orchestrator.Triage.Slots.Offers.{
  soft_blocks_for_day, is_slot_free, ceil_to_granularity, round, fill, days, count_of,
  generate_slots,
}
use agent_orchestrator.Triage.Slots.Offers.Samples.{millis, to_minutes, keeps_time, asked}
use agent_orchestrator.Triage.Slots.Offers.Days.{IsOffer, generate_slots-IsOffer}

abbrev at : ℕ → Slot
at minute = record { starts_at = minute * 60000; ends_at = minute * 60000 + 3600000 }

-- The lead time passes nine, the first offer is at noon and the next is after the walk.
noon_and_two : generate_slots millis to_minutes asked ≡ some (at 720 ∷ at 840 ∷ [])
unfolding generate_slots days fill round ceil_to_granularity soft_blocks_for_day merge_busy
    merge_from overlaps open_window_for_day business_hours_by_dow is_holiday safe_zone parse_time
noon_and_two = refl

noon_is_free : is_slot_free millis to_minutes (at 720) asked ≡ true
unfolding is_slot_free soft_blocks_for_day merge_busy merge_from slot_conflicts overlaps
    open_window_for_day business_hours_by_dow is_holiday safe_zone parse_time
noon_is_free = refl

generate_slots-IsOffer_example :
    (slots : List Slot) × (generate_slots millis to_minutes asked ≡ some slots)
    × (length slots ≤ count_of millis to_minutes asked)
    × All (IsOffer millis to_minutes keeps_time asked) slots
generate_slots-IsOffer_example = generate_slots-IsOffer millis to_minutes keeps_time asked
