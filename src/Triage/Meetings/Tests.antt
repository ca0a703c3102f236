-- ===== src/Triage/Meetings/Tests.antt =====
-- A customer asks to talk, and the founder answers with taps.
use agent_orchestrator.Base.{◌+◌, ◌≤◌, arith, false, some, none, List, [], ◌∷◌, ◌++◌, ◌≡◌, refl}
use agent_orchestrator.Outbound.SendWindow.{
  business_hours_by_dow, open_window_for_day, is_holiday, safe_zone, parse_time,
}
use agent_orchestrator.Outbound.Samples.{sunday, no_holidays}
use agent_orchestrator.Triage.Slots.{merge_busy, merge_from, overlaps, slot_conflicts}
use agent_orchestrator.Triage.Slots.Offers.{
  soft_blocks_for_day, is_slot_free, ceil_to_granularity, round, fill, days, generate_slots,
}
use agent_orchestrator.Triage.Slots.Offers.Samples.{millis, to_minutes}
use agent_orchestrator.Triage.Meetings.{Meetings, awaiting_slot}
use agent_orchestrator.Triage.Meetings.Waits
use agent_orchestrator.Triage.Meetings.Waits.{Calls}
use agent_orchestrator.Triage.Meetings.Waits.Once.{one_booking}
use agent_orchestrator.Triage.Meetings.Repo.{
  claimed_request, claim_meeting_request, set_meeting_decision_id, get_meeting_request,
  set_duration_and_slots, replace_slots, claim_for_creating, mark_scheduled, claim_meeting_give_up,
  release_meeting_give_up, complete_meeting_give_up, list_pending_meeting_fallbacks,
  reclaim_stuck_meeting_fallbacks, abandon_open_meeting, release_to_awaiting_slot,
  enqueue_meeting_confirmation,
}
use agent_orchestrator.Triage.Meetings.Options.{parse_meeting_option}
use agent_orchestrator.Triage.Meetings.Scheduler.{
  Reply, InitiateInput, SchedulerDeps, created, threw, made, task_threw, give_up_to_task,
  confirmation_body,
}
use agent_orchestrator.Triage.Meetings.Handlers.{
  propose_slots, book_slot, try_initiate, on_duration, on_slot, on_typed_time, on_decline,
  retry_fallback, fallback_tick, handle_decision,
}
use agent_orchestrator.Triage.Meetings.Sound.{request, confirmed, state, times}
use agent_orchestrator.Triage.Meetings.Outcomes.{
  Event, asked, tapped, typed, ticked, withdrawn, start, run, settled_for_good,
}

code_of_scheduler : Unit {0}
unfolding claim_meeting_request set_meeting_decision_id get_meeting_request set_duration_and_slots
    replace_slots claim_for_creating mark_scheduled claim_meeting_give_up release_meeting_give_up
    complete_meeting_give_up list_pending_meeting_fallbacks reclaim_stuck_meeting_fallbacks
    abandon_open_meeting release_to_awaiting_slot enqueue_meeting_confirmation parse_meeting_option
    give_up_to_task propose_slots book_slot try_initiate on_duration on_slot on_typed_time
    on_decline retry_fallback fallback_tick handle_decision soft_blocks_for_day is_slot_free
    ceil_to_granularity round fill days generate_slots merge_busy merge_from overlaps slot_conflicts
    open_window_for_day business_hours_by_dow is_holiday safe_zone parse_time
code_of_scheduler = tt

abbrev deps : SchedulerDeps millis
deps = record {
  minutes = to_minutes;
  texts = record { lower_case = λ s. s; format = λ t zone locale pattern. "Sunday" };
  founder_tz = "utc";
  count = none;
  lead_minutes = none;
  horizon_days = none;
}

abbrev reply : Reply
reply = record {
  now = 28800000;
  written_at = 28800001;
  host = some (record { calendar_id = "work"; account_id = "host" });
  attendee_email = none;
  decision_id = 5;
  busy = some [];
  proposal_busy = some [];
  schedule = record { business_hours = sunday; holidays = no_holidays; soft_blocks = [] };
  event = created (record { id = "e0"; meet_link = none; already_existed = false });
  task = made none;
}

abbrev call : InitiateInput
call = record {
  customer_id = "c1";
  inbox_message_id = 3;
  event_title = "Call";
  thread_id = "t";
  customer_tz = "utc";
  preferred_language = "es";
  channel_type = "whatsapp";
  channel_instance_id = "wa";
  recipient_address = "507";
  thread_key = none;
  in_reply_to = none;
}

-- The message is delivered twice, and so are the taps.
abbrev booking : List (Event × Reply)
booking =
    (asked call, reply)
    ∷ (asked call, reply)
    ∷ (tapped "md30" (some 0) "f", reply)
    ∷ (tapped "md30" (some 0) "f", reply)
    ∷ (tapped "ms1" (some 0) "f", reply)
    ∷ (tapped "ms1" (some 0) "f", reply)
    ∷ []

abbrev declining : List (Event × Reply)
declining = (tapped "mtask" (some 0) "f", reply) ∷ (withdrawn 0, reply) ∷ []

booked_once :
    ((run millis deps booking start).booked ≡ 0 ∷ [])
    × (confirmed 0 (run millis deps booking start) ≡ 1)
    × (state (request 0 (run millis deps booking start)) ≡ some 3)
unfolding code_of_scheduler
booked_once = (refl, refl, refl)

-- The customer's language is Spanish, and the event has a link.
in_spanish :
    confirmation_body deps.texts
      (record { starts_at = 43200000; ends_at = 45000000 })
      "utc"
      (some "meet")
      "es-PA"
      none
    ≡ "podemos hablar el Sunday (hora local). Te envié la invitación al calendario.\n\nEnlace de Meet: meet"
unfolding confirmation_body
in_spanish = refl

-- A calendar that refuses, and a portal that fails first.
abbrev refusal : List (Event × Reply)
refusal =
    (asked call, reply)
    ∷ (tapped "md30" (some 0) "f", reply)
    ∷ (typed 0 43200000 "f", record reply { event = threw (some 403); task = task_threw })
    ∷ (ticked 30000000 10 25 (λ k. reply), reply)
    ∷ []

task_instead :
    ((run millis deps refusal start).minted ≡ 0 ∷ [])
    × ((run millis deps refusal start).booked ≡ [])
    × (state (request 0 (run millis deps refusal start)) ≡ some 6)
unfolding code_of_scheduler
task_instead = (refl, refl, refl)

settled_for_good_example : state (request 0 (run millis deps (booking ++ declining) start)) ≡ some 3
unfolding code_of_scheduler
settled_for_good_example = settled_for_good millis deps booking declining 0 3 refl refl

abbrev one_request : Meetings
one_request = record {
  requests =
      record (claimed_request 5 0 (record {
        customer_id = "c";
        inbox_message_id = 1;
        decision_id = none;
        thread_id = "t";
        event_title = "Call";
        attendee_email = none;
        founder_tz = "utc";
        customer_tz = "utc";
        preferred_language = "en";
        channel_type = none;
        channel_instance_id = none;
        recipient_address = none;
        thread_key = none;
        in_reply_to = none;
      })) { status = awaiting_slot }
      ∷ [];
  confirmations = [];
  next_id = 1;
}

abbrev quiet_calls : Calls
quiet_calls = record { db = one_request; waiting = []; booked = [] }

quiet_calls-IsSound : Waits.IsSound quiet_calls
quiet_calls-IsSound = record {
  unique = (refl, tt);
  fresh = λ k le. ground (arith, le);
  fits = λ k. ground arith;
}

-- The request is dismissed while its handler waits for the calendar.
abbrev dismissed_meanwhile : Calls
dismissed_meanwhile = record {
  db = (abandon_open_meeting 10 0 (claim_for_creating 9 0 one_request).0).0;
  waiting = [];
  booked = 0 ∷ [];
}

meanwhile : Waits.Reach quiet_calls dismissed_meanwhile
unfolding claim_for_creating
meanwhile =
    Waits.and_then
      (Waits.and_then (Waits.and_then Waits.here (Waits.wins 9 0 refl))
        (Waits.states (Waits.abandons 10 0)))
      (Waits.books [] 0 [] refl)

one_booking_example : times 0 dismissed_meanwhile.waiting + times 0 dismissed_meanwhile.booked ≤ 1
one_booking_example =
    one_booking {s = quiet_calls} {t = dismissed_meanwhile} 0 quiet_calls-IsSound meanwhile
