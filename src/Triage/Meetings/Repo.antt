-- ===== src/Triage/Meetings/Repo.antt =====
-- The guarded statements of src/triage/meeting-repo.ts. A statement that the source reads the row count
-- of gives whether it changed one row.
use agent_orchestrator.Base.{
  ℕ, ◌+◌, ◌*◌, String, Bool, true, false, not, ◌&&◌, Option, some, none, List, [], ◌∷◌, ◌++◌, map,
  ltb, leb, ◌==◌, str_eq, if◌then◌else◌, select, take, first, find_row, is_some, get_or_else,
  order_by,
}
use agent_orchestrator.Triage.Slots.{Slot}
use agent_orchestrator.Triage.Meetings.{
  ClaimMeetingInput, Confirmation, MeetingRequest, Meetings, guarded, in_state, meeting_id, one_row,
  set_status, update_requests, awaiting_duration, awaiting_slot, creating, scheduled,
  fallback_pending, fallback_creating, failed, abandoned,
}

abbrev pub claimed_request : ℕ → ℕ → ClaimMeetingInput → MeetingRequest
claimed_request now k i = record {
  id = k;
  customer_id = i.customer_id;
  inbox_message_id = i.inbox_message_id;
  decision_id = i.decision_id;
  status = awaiting_duration;
  thread_id = i.thread_id;
  event_title = i.event_title;
  duration_minutes = none;
  slots = none;
  slots_computed_at = none;
  attendee_email = i.attendee_email;
  founder_tz = some i.founder_tz;
  customer_tz = some i.customer_tz;
  preferred_language = some i.preferred_language;
  channel_type = i.channel_type;
  channel_instance_id = i.channel_instance_id;
  recipient_address = i.recipient_address;
  thread_key = i.thread_key;
  in_reply_to = i.in_reply_to;
  calendar_account_id = none;
  event_id = none;
  event_calendar_id = none;
  meet_link = none;
  updated_at = now;
}

abbrev pub of_inbox : ℕ → MeetingRequest → Bool
of_inbox i m = m.inbox_message_id == i

-- INSERT ... ON CONFLICT (inbox_message_id) DO NOTHING RETURNING id
unfoldable pub claim_meeting_request : ℕ → ClaimMeetingInput → Meetings → Meetings × Option ℕ
claim_meeting_request now i db =
    if is_some (first (select (of_inbox i.inbox_message_id) db.requests)) then (db, none) else (
      record db {
        requests = db.requests ++ claimed_request now db.next_id i ∷ [];
        next_id = db.next_id + 1;
      },
      some db.next_id,
    )

unfoldable pub set_meeting_decision_id : ℕ → ℕ → ℕ → Meetings → Meetings
set_meeting_decision_id now k decision =
    update_requests now (λ m. m.id == k) (λ m. record m { decision_id = some decision })

unfoldable pub get_meeting_request : ℕ → Meetings → Option MeetingRequest
get_meeting_request k db = find_row meeting_id k db.requests

abbrev pub open_states : List ℕ
open_states = 0 ∷ 1 ∷ 2 ∷ []

unfoldable pub set_duration_and_slots : ℕ → ℕ → ℕ → List Slot → Meetings → Meetings × Bool
set_duration_and_slots now k minutes slots db = (
  update_requests now (guarded k (0 ∷ 1 ∷ []))
      (λ m. record m {
        duration_minutes = some minutes;
        slots = some slots;
        slots_computed_at = some now;
        status = awaiting_slot;
      })
      db,
  one_row (guarded k (0 ∷ 1 ∷ [])) db,
)

unfoldable pub replace_slots : ℕ → ℕ → List Slot → Meetings → Meetings × Bool
replace_slots now k slots db = (
  update_requests now (guarded k (1 ∷ []))
      (λ m. record m { slots = some slots; slots_computed_at = some now }) db,
  one_row (guarded k (1 ∷ [])) db,
)

unfoldable pub claim_for_creating : ℕ → ℕ → Meetings → Meetings × Bool
claim_for_creating now k db = (
  update_requests now (guarded k (1 ∷ [])) (set_status creating) db,
  one_row (guarded k (1 ∷ [])) db,
)

-- Where the event landed.
pub record EventRef : Type 0 where
  pub event_id : String
  pub calendar_id : String
  pub meet_link : Option String
  pub calendar_account_id : Option String

unfoldable pub mark_scheduled : ℕ → ℕ → EventRef → Meetings → Meetings
mark_scheduled now k e = update_requests now (guarded k (2 ∷ [])) (λ m. record m {
  status = scheduled;
  event_id = some e.event_id;
  event_calendar_id = some e.calendar_id;
  meet_link = e.meet_link;
  calendar_account_id = e.calendar_account_id;
})

abbrev pub give_up_states : List ℕ
give_up_states = 0 ∷ 1 ∷ 2 ∷ 4 ∷ []

unfoldable pub claim_meeting_give_up : ℕ → ℕ → Meetings → Meetings × Bool
claim_meeting_give_up now k db = (
  update_requests now (guarded k give_up_states) (set_status fallback_creating) db,
  one_row (guarded k give_up_states) db,
)

unfoldable pub release_meeting_give_up : ℕ → ℕ → Meetings → Meetings
release_meeting_give_up now k =
    update_requests now (guarded k (5 ∷ [])) (set_status fallback_pending)

unfoldable pub complete_meeting_give_up : ℕ → ℕ → Meetings → Meetings
complete_meeting_give_up now k = update_requests now (guarded k (5 ∷ [])) (set_status failed)

abbrev pub older : MeetingRequest → MeetingRequest → Bool
older a b = leb a.updated_at b.updated_at

unfoldable pub list_pending_meeting_fallbacks : ℕ → Meetings → List ℕ
list_pending_meeting_fallbacks limit db =
    map meeting_id (take limit (order_by older (select (in_state (4 ∷ [])) db.requests)))

-- `updated_at < now() - minutes`
abbrev pub stuck_in : List ℕ → ℕ → ℕ → MeetingRequest → Bool
stuck_in states now minutes m = in_state states m && ltb (m.updated_at + minutes * 60000) now

unfoldable pub reclaim_stuck_meeting_fallbacks : ℕ → ℕ → Meetings → Meetings × List ℕ
reclaim_stuck_meeting_fallbacks now minutes db = (
  update_requests now (stuck_in (5 ∷ []) now minutes) (set_status fallback_pending) db,
  map meeting_id (select (stuck_in (5 ∷ []) now minutes) db.requests),
)

unfoldable pub abandon_open_meeting : ℕ → ℕ → Meetings → Meetings × Bool
abandon_open_meeting now k db = (
  update_requests now (guarded k open_states) (set_status abandoned) db,
  one_row (guarded k open_states) db,
)

unfoldable pub release_to_awaiting_slot : ℕ → ℕ → Meetings → Meetings
release_to_awaiting_slot now k = update_requests now (guarded k (2 ∷ [])) (set_status awaiting_slot)

abbrev pub confirms : ℕ → Confirmation → Bool
confirms k c = c.meeting_request_id == k

-- A text that JavaScript takes for true.
abbrev pub is_filled : Option String → Bool
is_filled none = false
is_filled (some t) = not (str_eq t "")

abbrev pub confirmation : MeetingRequest → String → String → Confirmation
confirmation m body by = record {
  customer_id = m.customer_id;
  channel_instance_id = get_or_else m.channel_instance_id "";
  recipient_address = get_or_else m.recipient_address "";
  thread_key = m.thread_key;
  in_reply_to = m.in_reply_to;
  body = body;
  approved_by = by;
  meeting_request_id = m.id;
}

abbrev pub confirmed_if : String → String → Meetings → Option MeetingRequest → Meetings × Bool
confirmed_if body by db none = (db, false)
confirmed_if body by db (some m) =
    if is_filled m.channel_instance_id && is_filled m.recipient_address
    then (
      if is_some (first (select (confirms m.id) db.confirmations))
          then db
          else record db { confirmations = db.confirmations ++ confirmation m body by ∷ [] },
      true,
    )
    else (db, false)

-- The transaction, with ON CONFLICT (meeting_request_id) DO NOTHING.
unfoldable pub enqueue_meeting_confirmation : ℕ → String → String → Meetings → Meetings × Bool
enqueue_meeting_confirmation k body by db =
    confirmed_if body by db (find_row meeting_id k db.requests)
