-- ===== src/Triage/Meetings/Handlers.antt =====
-- The handlers of src/triage/meeting-scheduler.ts, with meeting-decision-handler.ts and
-- meeting-fallback.worker.ts beside it.
use Prim.Native.String
use agent_orchestrator.Base.{
  ℕ, zero, suc, ◌+◌, ◌*◌, String, Bool, true, false, ◌&&◌, ◌||◌, Option, some, none, List, [], ◌∷◌,
  ltb, leb, ◌==◌, if◌then◌else◌, is_some, get_or_else, has_id,
}
use agent_orchestrator.Outbound.SendWindow.{Luxon}
use agent_orchestrator.Triage.Slots.{BusyInterval, Slot, slot_conflicts}
use agent_orchestrator.Triage.Slots.Offers.{GenerateSlotsInput, is_slot_free, generate_slots}
use agent_orchestrator.Triage.Meetings.{MeetingRequest, ClaimMeetingInput, Meetings, code}
use agent_orchestrator.Triage.Meetings.Repo.{
  claim_meeting_request, set_meeting_decision_id, get_meeting_request, set_duration_and_slots,
  replace_slots, claim_for_creating, mark_scheduled, release_to_awaiting_slot,
  enqueue_meeting_confirmation, list_pending_meeting_fallbacks, reclaim_stuck_meeting_fallbacks,
}
use agent_orchestrator.Triage.Meetings.Options.{MeetingOption}
use agent_orchestrator.Triage.Meetings.Scheduler.{
  Reply, Host, CreateReply, created, threw, World, notify, with_db, ask_for_duration, ask_for_slot,
  booking_failed, meeting_booked, not_checked, time_passed, busy_then, InitiateInput, SchedulerDeps,
  confirmation_body, give_up_to_task,
}

-- `if (!m || m.status !== '...')`
abbrev pub found_in : ℕ → Option MeetingRequest → Option MeetingRequest
found_in state none = none
found_in state (some m) = if code m.status == state then some m else none

-- `m.duration_minutes`, which 0 leaves out
abbrev pub truthy : Option ℕ → Option ℕ
truthy none = none
truthy (some n) = if n == 0 then none else some n

abbrev pub slot_numbered : ℕ → Option (List Slot) → Option Slot
slot_numbered i none = none
slot_numbered i (some []) = none
slot_numbered zero (some (s ∷ ss)) = some s
slot_numbered (suc i) (some (s ∷ ss)) = slot_numbered i (some ss)

abbrev pub is_permanent : Option ℕ → Bool
is_permanent status = has_id status 403 || has_id status 404

module _ (luxon : Luxon) (deps : SchedulerDeps luxon) where
  abbrev pub slots_input : String → ℕ → List BusyInterval → Reply → GenerateSlotsInput
  slots_input tz minutes busy reply = record {
    now = reply.now;
    tz = tz;
    duration_minutes = minutes;
    busy = busy;
    business_hours = reply.schedule.business_hours;
    holidays = reply.schedule.holidays;
    faith = none;
    soft_blocks = reply.schedule.soft_blocks;
    options = record {
      count = deps.count;
      lead_minutes = deps.lead_minutes;
      horizon_days = deps.horizon_days;
      granularity_minutes = none;
      max_per_day = none;
      spacing_minutes = none;
    };
  }

  abbrev pub proposed_from : ℕ → Reply → Option (List BusyInterval) → Option (List Slot)
  proposed_from duration reply none = none
  proposed_from duration reply (some busy) =
      generate_slots luxon deps.minutes (slots_input deps.founder_tz duration busy reply)

  -- `none` is a calendar that could not be read, or a search without fuel.
  unfoldable pub propose_slots : ℕ → Reply → Option (List Slot)
  propose_slots duration reply = proposed_from duration reply reply.proposal_busy

  abbrev pub zone_of : MeetingRequest → String
  zone_of m = get_or_else m.founder_tz deps.founder_tz

  abbrev pub after_create :
      MeetingRequest → Slot → String → Reply → World → Host → CreateReply → World
  after_create m slot by reply w host (threw status) =
      if is_permanent status
      then give_up_to_task m reply w
      else notify (booking_failed m.id)
          (with_db w (release_to_awaiting_slot reply.written_at m.id w.db))
  after_create m slot by reply w host (created e) =
      let marked =
        mark_scheduled reply.written_at m.id
          (record {
            event_id = e.id;
            calendar_id = host.calendar_id;
            meet_link = e.meet_link;
            calendar_account_id = some host.account_id;
          })
          w.db in
      let body =
        confirmation_body deps.texts slot (get_or_else m.customer_tz deps.founder_tz) e.meet_link
          (get_or_else m.preferred_language "en") none in
      notify (meeting_booked m.id e.already_existed) (record w {
        db = (enqueue_meeting_confirmation m.id body by marked).0;
        booked = m.id ∷ w.booked;
      })

  abbrev pub on_host : MeetingRequest → Slot → String → Reply → World → Option Host → World
  on_host m slot by reply w none = give_up_to_task m reply w
  on_host m slot by reply w (some host) = after_create m slot by reply w host reply.event

  unfoldable pub book_slot : MeetingRequest → Slot → String → Reply → World → World
  book_slot m slot by reply w =
      let (db, claimed) = claim_for_creating reply.written_at m.id w.db in
      if claimed then on_host m slot by reply (with_db w db) reply.host else with_db w db

  abbrev pub claim_of : InitiateInput → Reply → ClaimMeetingInput
  claim_of i reply = record {
    customer_id = i.customer_id;
    inbox_message_id = i.inbox_message_id;
    decision_id = none;
    thread_id = i.thread_id;
    event_title = i.event_title;
    attendee_email = reply.attendee_email;
    founder_tz = deps.founder_tz;
    customer_tz = i.customer_tz;
    preferred_language = i.preferred_language;
    channel_type = some i.channel_type;
    channel_instance_id = some i.channel_instance_id;
    recipient_address = some i.recipient_address;
    thread_key = i.thread_key;
    in_reply_to = i.in_reply_to;
  }

  abbrev pub after_claim : Reply → World → Meetings × Option ℕ → World
  after_claim reply w (db, none) = with_db w db
  after_claim reply w (db, some k) =
      notify (ask_for_duration k)
        (with_db w (set_meeting_decision_id reply.written_at k reply.decision_id db))

  -- Whether the meeting conversation owns the message.
  unfoldable pub try_initiate : InitiateInput → Reply → World → World × Bool
  try_initiate i reply w =
      if is_some reply.host
      then (
        after_claim reply w (claim_meeting_request reply.written_at (claim_of i reply) w.db),
        true,
      )
      else (w, false)

  abbrev pub ask_again : ℕ → List Slot → World → Meetings × Bool → World
  ask_again k slots w (db, true) = notify (ask_for_slot k slots) (with_db w db)
  ask_again k slots w (db, false) = with_db w db

  abbrev pub offered_for : MeetingRequest → ℕ → Reply → World → Option (List Slot) → World
  offered_for m duration reply w none = give_up_to_task m reply w
  offered_for m duration reply w (some []) = give_up_to_task m reply w
  offered_for m duration reply w (some (s ∷ ss)) =
      ask_again m.id (s ∷ ss) w
        (set_duration_and_slots reply.written_at m.id duration (s ∷ ss) w.db)

  abbrev pub duration_given : ℕ → Reply → World → Option MeetingRequest → World
  duration_given duration reply w none = w
  duration_given duration reply w (some m) =
      offered_for m duration reply w (propose_slots duration reply)

  unfoldable pub on_duration : ℕ → ℕ → Reply → World → World
  on_duration k duration reply w =
      duration_given duration reply w (found_in 0 (get_meeting_request k w.db))

  abbrev pub fresh_slate : MeetingRequest → Reply → World → Option (List Slot) → World
  fresh_slate m reply w none = give_up_to_task m reply w
  fresh_slate m reply w (some []) = give_up_to_task m reply w
  fresh_slate m reply w (some (s ∷ ss)) =
      ask_again m.id (s ∷ ss) w (replace_slots reply.written_at m.id (s ∷ ss) w.db)

  abbrev pub still_free : MeetingRequest → Slot → Reply → List BusyInterval → Bool
  still_free m slot reply busy =
      ltb reply.now slot.starts_at
      && is_slot_free luxon deps.minutes slot (slots_input (zone_of m) 0 busy reply)

  abbrev pub checked :
      MeetingRequest → ℕ → Slot → String → Reply → World → Option (List BusyInterval) → World
  checked m duration slot by reply w none = notify (not_checked m.id) w
  checked m duration slot by reply w (some busy) =
      if still_free m slot reply busy
      then book_slot m slot by reply w
      else fresh_slate m reply w (propose_slots duration reply)

  abbrev pub chosen : MeetingRequest → String → Reply → World → Option ℕ → Option Slot → World
  chosen m by reply w none slot = w
  chosen m by reply w (some duration) none = w
  chosen m by reply w (some duration) (some slot) = checked m duration slot by reply w reply.busy

  abbrev pub slot_tapped : ℕ → String → Reply → World → Option MeetingRequest → World
  slot_tapped index by reply w none = w
  slot_tapped index by reply w (some m) =
      chosen m by reply w (truthy m.duration_minutes) (slot_numbered index m.slots)

  unfoldable pub on_slot : ℕ → ℕ → String → Reply → World → World
  on_slot k index by reply w =
      slot_tapped index by reply w (found_in 1 (get_meeting_request k w.db))

  abbrev pub unless_clash :
      MeetingRequest → Slot → String → Reply → World → Option BusyInterval → World × Bool
  unless_clash m slot by reply w (some clash) = (notify (busy_then m.id clash) w, false)
  unless_clash m slot by reply w none = (book_slot m slot by reply w, true)

  abbrev pub typed_checked :
      MeetingRequest → Slot → String → Reply → World → Option (List BusyInterval) → World × Bool
  typed_checked m slot by reply w none = (notify (not_checked m.id) w, false)
  typed_checked m slot by reply w (some busy) =
      unless_clash m slot by reply w (slot_conflicts slot busy)

  abbrev pub typed_for : MeetingRequest → ℕ → String → Reply → World → Option ℕ → World × Bool
  typed_for m starts_at by reply w none = (w, true)
  typed_for m starts_at by reply w (some duration) =
      if leb starts_at reply.now
      then (notify (time_passed m.id) w, false)
      else typed_checked m
          (record { starts_at = starts_at; ends_at = starts_at + duration * 60000 }) by reply w
          reply.busy

  abbrev pub typed_in : ℕ → String → Reply → World → Option MeetingRequest → World × Bool
  typed_in starts_at by reply w none = (w, true)
  typed_in starts_at by reply w (some m) =
      typed_for m starts_at by reply w (truthy m.duration_minutes)

  -- Whether the founder is done with the question.
  unfoldable pub on_typed_time : ℕ → ℕ → String → Reply → World → World × Bool
  on_typed_time k starts_at by reply w =
      typed_in starts_at by reply w (found_in 1 (get_meeting_request k w.db))

  abbrev pub given_up_if : Reply → World → Option MeetingRequest → World
  given_up_if reply w none = w
  given_up_if reply w (some m) = give_up_to_task m reply w

  unfoldable pub on_decline : ℕ → Reply → World → World
  on_decline k reply w = given_up_if reply w (get_meeting_request k w.db)

  unfoldable pub retry_fallback : ℕ → Reply → World → World
  retry_fallback k reply w = given_up_if reply w (found_in 4 (get_meeting_request k w.db))

  abbrev pub retried : (ℕ → Reply) → List ℕ → World → World
  retried replies [] w = w
  retried replies (k ∷ ks) w = retried replies ks (retry_fallback k (replies k) w)

  -- One tick of the fallback worker. `replies` is what each retry meets.
  unfoldable pub fallback_tick : (now stale_minutes batch_size : ℕ) → (ℕ → Reply) → World → World
  fallback_tick now stale_minutes batch_size replies w =
      let reclaimed = with_db w (reclaim_stuck_meeting_fallbacks now stale_minutes w.db).0 in
      retried replies (list_pending_meeting_fallbacks batch_size reclaimed.db) reclaimed

  unfoldable pub handle_decision : Option MeetingOption → Option ℕ → String → Reply → World → World
  handle_decision (some (MeetingOption.duration n)) (some k) by reply w = on_duration k n reply w
  handle_decision (some (MeetingOption.slot i)) (some k) by reply w =
      on_slot k i (String.◌++◌ "telegram:" by) reply w
  handle_decision (some MeetingOption.task) (some k) by reply w = on_decline k reply w
  handle_decision (some MeetingOption.other) (some k) by reply w = w
  handle_decision none k by reply w = w
  handle_decision (some o) none by reply w = w
