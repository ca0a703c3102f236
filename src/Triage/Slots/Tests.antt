-- ===== src/Triage/Slots/Tests.antt =====
-- A slot that falls in the seam of two busy intervals that touch.
use agent_orchestrator.Base.{◌≡◌, refl, List, [], ◌∷◌}
use agent_orchestrator.Triage.Slots.{BusyInterval, Slot, merge_busy, merge_from}

abbrev busy : List BusyInterval
busy =
    record { start = 30; end = 40 }
    ∷ record { start = 10; end = 20 }
    ∷ record { start = 20; end = 25 }
    ∷ record { start = 50; end = 45 }
    ∷ []

abbrev slot : Slot
slot = record { starts_at = 19; ends_at = 21 }

two_left :
    merge_busy busy ≡ (record { start = 10; end = 25 } ∷ record { start = 30; end = 40 } ∷ [])
unfolding merge_busy merge_from
two_left = refl
