-- ===== src/Outbound/SendWindow/Tests.antt =====
-- The send window on a Sunday that is open from nine to five.
use agent_orchestrator.Base.{ℕ, ◌<◌, true, some, none, ◌≡◌, refl}
use agent_orchestrator.Outbound.SendWindow.{
  Window, is_holiday, business_hours_by_dow, open_window_for_day, scan, safe_zone,
  compute_send_window, parse_time, number, number_from, split_colon, at_least, after,
}
use agent_orchestrator.Outbound.SendWindow.Laws.{
  IsOpenDay, now, allowed_inside, opening_on, next_open_first,
}
use agent_orchestrator.Outbound.Samples.{minutes_clock, sunday, no_holidays}

window : Unit {0}
unfolding compute_send_window scan open_window_for_day business_hours_by_dow is_holiday safe_zone
    parse_time number number_from split_colon
window = tt

allowed_inside_example :
    (w : Window minutes_clock) × IsOpenDay minutes_clock
      (now minutes_clock 43200000 "utc" sunday no_holidays none)
      sunday
      no_holidays
      none
      w
    × (at_least (some 43200000) (minutes_clock.to_millis w.opens) ≡ true)
    × (after (minutes_clock.to_millis w.closes) (some 43200000) ≡ true)
unfolding window
allowed_inside_example = allowed_inside minutes_clock 43200000 "utc" sunday no_holidays none refl

-- At eight the next opening is today's, at nine.
next_open_first_example :
    (e : ℕ) × (e < 14)
    × (opening_on minutes_clock 28800000 "utc" sunday no_holidays none e ≡ some 32400000)
    × ((j : ℕ) → j < e → opening_on minutes_clock 28800000 "utc" sunday no_holidays none j ≡ none)
unfolding window
next_open_first_example =
    next_open_first minutes_clock 28800000 "utc" sunday no_holidays none 32400000 refl
