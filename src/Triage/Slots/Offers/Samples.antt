-- ===== src/Triage/Slots/Offers/Samples.antt =====
-- A clock in milliseconds, and a Sunday that is open from nine to five.
use agent_orchestrator.Base.{
  ℕ, ◌+◌, ◌*◌, ◌/◌, ◌%◌, true, some, none, [], ◌∷◌, refl, arith, get_or_else,
}
use agent_orchestrator.Outbound.SendWindow.{Luxon}
use agent_orchestrator.Outbound.Samples.{sunday, no_holidays}
use agent_orchestrator.Triage.Slots.Offers.{Minutes, GenerateSlotsInput}
use agent_orchestrator.Triage.Slots.Offers.Clock.{IsClock}

-- UTC, with instants as milliseconds and day 0 a Sunday.
abbrev pub millis : Luxon
millis = record {
  DateTime = ℕ;
  from_js_date = λ t z. t;
  is_valid_zone = λ z. true;
  weekday = λ d. d / 86400000 + 7;
  to_iso_date = λ d. some "day";
  set_time = λ d h m. d / 86400000 * 86400000 + get_or_else h 0 * 3600000 + get_or_else m 0 * 60000;
  plus_days = λ d n. d + n * 86400000;
  start_of_day = λ d. d / 86400000 * 86400000;
  to_millis = λ d. some d;
}

abbrev pub to_minutes : Minutes millis
to_minutes = record {
  plus_minutes = λ d n. d + get_or_else n 0 * 60000;
  floor_minute = λ d. d / 60000 * 60000;
  minute = λ d. d / 60000 % 60;
}

pub keeps_time : IsClock millis to_minutes
keeps_time = record {
  added = λ d m n e. ground arith;
  floored = λ d m e. (d / 60000 * 60000, refl, ground arith, ground arith);
  reads_back = λ m tz. refl;
}

-- Busy from ten to noon, and a walk from one to two.
abbrev pub asked : GenerateSlotsInput
asked = record {
  now = 28800000;
  tz = "utc";
  duration_minutes = 60;
  busy = record { start = 36000000; end = 43200000 } ∷ [];
  business_hours = sunday;
  holidays = no_holidays;
  faith = none;
  soft_blocks =
      record { start_minutes = some 780; end_minutes = some 840; days = none; label = "walk" } ∷ [];
  options = record {
    count = none;
    lead_minutes = some 75;
    horizon_days = none;
    granularity_minutes = none;
    max_per_day = none;
    spacing_minutes = some 60;
  };
}
