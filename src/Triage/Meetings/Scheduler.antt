-- ===== src/Triage/Meetings/Scheduler.antt =====
-- The handlers of src/triage/meeting-scheduler.ts. What a handler reads outside the database, and what
-- the calls that it makes answer, is a `Reply`; a notice stands for a message to the founder.
use Prim.Native.String
use Prim.Native.Char.{code as char_code}
use agent_orchestrator.Base.{
  ℕ, String, Bool, true, false, ◌&&◌, Option, some, none, List, ◌∷◌, ◌==◌, if◌then◌else◌,
}
use agent_orchestrator.Outbound.SendWindow.{Luxon, BusinessHour, Holiday, SoftBlock}
use agent_orchestrator.Triage.Slots.{BusyInterval, Slot}
use agent_orchestrator.Triage.Slots.Offers.{Minutes}
use agent_orchestrator.Triage.Meetings.{MeetingRequest, Meetings}
use agent_orchestrator.Triage.Meetings.Repo.{
  claim_meeting_give_up, release_meeting_give_up, complete_meeting_give_up,
}

pub record Schedule : Type 0 where
  pub business_hours : List BusinessHour
  pub holidays : List Holiday
  pub soft_blocks : List SoftBlock

pub record CreatedEvent : Type 0 where
  pub id : String
  pub meet_link : Option String
  pub already_existed : Bool

pub record Host : Type 0 where
  pub calendar_id : String
  pub account_id : String

-- `createEvent`, which throws with a status or with none.
pub data CreateReply : Type 0 where
  created : CreatedEvent → CreateReply
  threw : Option ℕ → CreateReply

-- `fallbackToTask`: a task with its url, `null`, or an exception.
pub data TaskReply : Type 0 where
  made : Option String → TaskReply
  not_made : TaskReply
  task_threw : TaskReply

-- `none` for busy intervals is a query that throws.
pub record Reply : Type 0 where
  pub now : ℕ
  pub written_at : ℕ
  pub host : Option Host
  pub attendee_email : Option String
  pub decision_id : ℕ
  pub busy : Option (List BusyInterval)
  pub proposal_busy : Option (List BusyInterval)
  pub schedule : Schedule
  pub event : CreateReply
  pub task : TaskReply

pub data Notice : Type 0 where
  ask_for_duration : ℕ → Notice
  ask_for_slot : ℕ → List Slot → Notice
  given_up : ℕ → Bool → Notice
  fallback_queued : ℕ → Notice
  booking_failed : ℕ → Notice
  meeting_booked : ℕ → Bool → Notice
  not_checked : ℕ → Notice
  time_passed : ℕ → Notice
  busy_then : ℕ → BusyInterval → Notice

-- `booked` and `minted` are the requests for which `createEvent` returned an event and `fallbackToTask`
-- a task, the last one first. An event that the calendar keeps of a call that then throws is not in
-- `booked`.
pub record World : Type 0 where
  pub db : Meetings
  pub booked : List ℕ
  pub minted : List ℕ
  pub notices : List Notice

abbrev pub notify : Notice → World → World
notify n w = record w { notices = n ∷ w.notices }

abbrev pub with_db : World → Meetings → World
with_db w db = record w { db = db }

-- With the title that the topic and the name make, and without what only fills a notice.
pub record InitiateInput : Type 0 where
  pub customer_id : String
  pub inbox_message_id : ℕ
  pub event_title : String
  pub thread_id : String
  pub customer_tz : String
  pub preferred_language : String
  pub channel_type : String
  pub channel_instance_id : String
  pub recipient_address : String
  pub thread_key : Option String
  pub in_reply_to : Option String

-- `toLowerCase`, and a DateTime of an instant in a zone that is set to a locale and formatted.
pub record Texts : Type 0 where
  pub lower_case : String → String
  pub format : ℕ → (zone locale pattern : String) → String

abbrev pub starts_with_es : String → Bool
starts_with_es String.[] = false
starts_with_es (String.◌∷◌ c String.[]) = false
starts_with_es (String.◌∷◌ c (String.◌∷◌ d s)) = char_code c == b'e' && char_code d == b's'

infixr 65 ◌<>◌
abbrev ◌<>◌ : String → String → String
s <> t = String.◌++◌ s t

abbrev greeting : Bool → Option String → String
greeting es none = ""
greeting es (some name) = (if es then "Hola" else "Hi") <> " " <> name <> ", "

abbrev link_line : Bool → Option String → String
link_line es none = ""
link_line true (some link) = "\n\nEnlace de Meet: " <> link
link_line false (some link) = "\n\nMeet link: " <> link

unfoldable pub confirmation_body :
    Texts
    → Slot
    → (customer_tz : String) → (meet_link : Option String) → (language : String)
    → (contact_name : Option String) → String
confirmation_body texts slot customer_tz meet_link language contact_name =
    let es = starts_with_es (texts.lower_case language) in
    let when =
      texts.format slot.starts_at customer_tz (if es then "es" else "en")
        (if es then "cccc d 'de' LLLL 'a las' HH:mm" else "cccc d LLLL 'at' HH:mm") in
    let hi = greeting es contact_name in
    if es
    then hi
      <> "podemos hablar el "
      <> when
      <> " (hora local). Te envié la invitación al calendario."
      <> link_line true meet_link
    else hi
      <> "we can talk on "
      <> when
      <> " (your local time). I've sent you a calendar invitation."
      <> link_line false meet_link

-- The settled fallback, and the one that is kept for a retry.
abbrev pub after_fallback : MeetingRequest → Reply → World → TaskReply → World
after_fallback m reply w (made url) = notify (given_up m.id true) (record w {
  db = complete_meeting_give_up reply.written_at m.id w.db;
  minted = m.id ∷ w.minted;
})
after_fallback m reply w not_made =
    notify (given_up m.id false) (with_db w (complete_meeting_give_up reply.written_at m.id w.db))
after_fallback m reply w task_threw =
    notify (fallback_queued m.id) (with_db w (release_meeting_give_up reply.written_at m.id w.db))

unfoldable pub give_up_to_task : MeetingRequest → Reply → World → World
give_up_to_task m reply w =
    let (db, claimed) = claim_meeting_give_up reply.written_at m.id w.db in
    if claimed then after_fallback m reply (with_db w db) reply.task else with_db w db

-- What all handlers share.
pub record SchedulerDeps (luxon : Luxon) : Type 0 where
  pub minutes : Minutes luxon
  pub texts : Texts
  pub founder_tz : String
  pub count : Option ℕ
  pub lead_minutes : Option ℕ
  pub horizon_days : Option ℕ
