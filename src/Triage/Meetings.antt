-- ===== src/Triage/Meetings.antt =====
-- The rows of src/triage/meeting-repo.ts: requests for a meeting, and the shape of their guarded updates.
-- A request is known by its number; every UPDATE also sets `updated_at`, by a trigger.
pub mod Repo
pub mod Options
pub mod Scheduler
pub mod Handlers
pub mod Sound
pub mod Settling
pub mod Booking
pub mod Waits
pub mod Keeping
pub mod Choosing
pub mod Outcomes
mod Tests
use agent_orchestrator.Base.{
  ℕ, ◌+◌, ◌*◌, String, Bool, true, false, not, ◌&&◌, Option, some, none, List, [], ◌∷◌, ◌++◌, map,
  ltb, leb, ◌==◌, str_eq, if◌then◌else◌, select, take, first, length, update_where, find_row,
  is_some, has_id, get_or_else, order_by, member,
}
use agent_orchestrator.Triage.Slots.{Slot}

pub data MeetingStatus : Type 0 where
  awaiting_duration awaiting_slot creating scheduled : MeetingStatus
  fallback_pending fallback_creating failed abandoned : MeetingStatus

-- The states as numbers, by which they are compared.
abbrev pub code : MeetingStatus → ℕ
code awaiting_duration = 0
code awaiting_slot = 1
code creating = 2
code scheduled = 3
code fallback_pending = 4
code fallback_creating = 5
code failed = 6
code abandoned = 7

pub record MeetingRequest : Type 0 where
  pub id : ℕ
  pub customer_id : String
  pub inbox_message_id : ℕ
  pub decision_id : Option ℕ
  pub status : MeetingStatus
  pub thread_id : String
  pub event_title : String
  pub duration_minutes : Option ℕ
  pub slots : Option (List Slot)
  pub slots_computed_at : Option ℕ
  pub attendee_email : Option String
  pub founder_tz : Option String
  pub customer_tz : Option String
  pub preferred_language : Option String
  pub channel_type : Option String
  pub channel_instance_id : Option String
  pub recipient_address : Option String
  pub thread_key : Option String
  pub in_reply_to : Option String
  pub calendar_account_id : Option String
  pub event_id : Option String
  pub event_calendar_id : Option String
  pub meet_link : Option String
  pub updated_at : ℕ

abbrev pub meeting_id : MeetingRequest → ℕ
meeting_id m = m.id

pub record ClaimMeetingInput : Type 0 where
  pub customer_id : String
  pub inbox_message_id : ℕ
  pub decision_id : Option ℕ
  pub thread_id : String
  pub event_title : String
  pub attendee_email : Option String
  pub founder_tz : String
  pub customer_tz : String
  pub preferred_language : String
  pub channel_type : Option String
  pub channel_instance_id : Option String
  pub recipient_address : Option String
  pub thread_key : Option String
  pub in_reply_to : Option String

-- What the confirmation writes of a row of the outbound queue; it is approved and past the window.
pub record Confirmation : Type 0 where
  pub customer_id : String
  pub channel_instance_id : String
  pub recipient_address : String
  pub thread_key : Option String
  pub in_reply_to : Option String
  pub body : String
  pub approved_by : String
  pub meeting_request_id : ℕ

pub record Meetings : Type 0 where
  pub requests : List MeetingRequest
  pub confirmations : List Confirmation
  pub next_id : ℕ

abbrev pub in_state : List ℕ → MeetingRequest → Bool
in_state states m = member (code m.status) states

-- `WHERE id = $1 AND status IN (...)`
abbrev pub guarded : ℕ → List ℕ → MeetingRequest → Bool
guarded k states m = m.id == k && in_state states m

abbrev pub stamp : ℕ → (MeetingRequest → MeetingRequest) → MeetingRequest → MeetingRequest
stamp now f m = record (f m) { updated_at = now }

abbrev pub update_requests :
    ℕ → (MeetingRequest → Bool) → (MeetingRequest → MeetingRequest) → Meetings → Meetings
update_requests now p f db = record db { requests = update_where p (stamp now f) db.requests }

-- `rowCount === 1`
abbrev pub one_row : (MeetingRequest → Bool) → Meetings → Bool
one_row p db = length (select p db.requests) == 1

abbrev pub set_status : MeetingStatus → MeetingRequest → MeetingRequest
set_status s m = record m { status = s }
