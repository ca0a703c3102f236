-- ===== src/Triage/Meetings/Waits.antt =====
-- bookSlot of src/triage/meeting-scheduler.ts across its await of createEvent: the statements of
-- src/triage/meeting-repo.ts by any number of handlers, in any order, come between its claim of a request
-- (claimForCreating) and what the calendar answers; a handler may also die while it waits.
pub mod Once
use mathlib.Core.Option
use mathlib.Core.Path.{subst}
use agent_orchestrator.Base.{
  ℕ, ◌+◌, ◌≤◌, String, Bool, true, false, Option, some, none, List, [], ◌∷◌, ◌++◌, ◌==◌, ◌≡◌, ◌≢◌,
  some_inj, refl, ap, sym, ◌∙◌, arith, inl, inr, if◌then◌else◌, select, length,
  length-select-append, find_row, find_row_key, find_row-update_where, find_row-append_old,
  find_row-append_new, HasUniqueKeys, HasUniqueKeys-update_where, HasUniqueKeys-append,
  length-select-none, first, first-select, Option-cases, Bool-cases, ==_iff, is_some,
}
use agent_orchestrator.Triage.Slots.{Slot}
use agent_orchestrator.Triage.Meetings.{
  MeetingRequest, Meetings, ClaimMeetingInput, meeting_id, code, guarded, one_row, update_requests,
  stamp, set_status, creating, awaiting_slot, awaiting_duration, scheduled, fallback_creating,
  fallback_pending, failed, abandoned,
}
use agent_orchestrator.Triage.Meetings.Repo.{
  claim_meeting_request, claimed_request, set_meeting_decision_id, set_duration_and_slots,
  replace_slots, claim_for_creating, EventRef, mark_scheduled, claim_meeting_give_up,
  release_meeting_give_up, complete_meeting_give_up, reclaim_stuck_meeting_fallbacks,
  abandon_open_meeting, release_to_awaiting_slot, enqueue_meeting_confirmation, give_up_states,
  open_states, stuck_in,
}
use agent_orchestrator.Triage.Meetings.Sound.{times}

-- The table, the requests that handlers have claimed and ask the calendar for, and those for which
-- `createEvent` has returned an event.
pub record Calls : Type 0 where
  pub db : Meetings
  pub waiting : List ℕ
  pub booked : List ℕ

-- A statement of any handler, worker or dismissal.
pub data Statement (db : Meetings) : Meetings → Type 0 where
  decides : (now k decision : ℕ) → Statement db (set_meeting_decision_id now k decision db)
  offers :
      (now k minutes : ℕ) (slots : List Slot)
      → Statement db (set_duration_and_slots now k minutes slots db).0
  replaces : (now k : ℕ) (slots : List Slot) → Statement db (replace_slots now k slots db).0
  schedules : (now k : ℕ) (e : EventRef) → Statement db (mark_scheduled now k e db)
  gives_up : (now k : ℕ) → Statement db (claim_meeting_give_up now k db).0
  queues : (now k : ℕ) → Statement db (release_meeting_give_up now k db)
  fails : (now k : ℕ) → Statement db (complete_meeting_give_up now k db)
  reclaims : (now minutes : ℕ) → Statement db (reclaim_stuck_meeting_fallbacks now minutes db).0
  abandons : (now k : ℕ) → Statement db (abandon_open_meeting now k db).0
  confirms : (k : ℕ) (body by : String) → Statement db (enqueue_meeting_confirmation k body by db).0
  asks : (now : ℕ) (i : ClaimMeetingInput) → Statement db (claim_meeting_request now i db).0

pub data Step (s : Calls) : Calls → Type 0 where
  states : {db' : Meetings} → Statement s.db db' → Step s (record s { db = db' })
  wins :
      (now k : ℕ)
      → (claim_for_creating now k s.db).1 ≡ true
      → Step s (record s { db = (claim_for_creating now k s.db).0; waiting = k ∷ s.waiting })
  loses : (now k : ℕ) → Step s (record s { db = (claim_for_creating now k s.db).0 })
  -- createEvent returns an event
  books :
      (before : List ℕ) (k : ℕ) (after : List ℕ)
      → s.waiting ≡ before ++ k ∷ after
      → Step s (record s { waiting = before ++ after; booked = k ∷ s.booked })
  -- it throws, and the slot may be tried again
  releases :
      (before : List ℕ) (k : ℕ) (after : List ℕ) (now : ℕ)
      → s.waiting ≡ before ++ k ∷ after
      → Step s (record s { db = release_to_awaiting_slot now k s.db; waiting = before ++ after })
  -- it throws for good, there is no host, or the handler dies
  drops :
      (before : List ℕ) (k : ℕ) (after : List ℕ)
      → s.waiting ≡ before ++ k ∷ after
      → Step s (record s { waiting = before ++ after })

pub data Reach (s : Calls) : Calls → Type 0 where
  here : Reach s s
  and_then : {t u : Calls} → Reach s t → Step t u → Reach s u

abbrev pub bookable : MeetingRequest → ℕ
bookable m = if code m.status == 0 then 1 else (if code m.status == 1 then 1 else 0)

-- A request can be booked, or is waited for, or has its event.
abbrev pub Fits : Option MeetingRequest → (waiting booked : ℕ) → Type 0
Fits none w b = (w ≡ 0) × (b ≡ 0)
Fits (some m) w b = bookable m + w + b ≤ 1

abbrev pub request_of : ℕ → Meetings → Option MeetingRequest
request_of k db = find_row meeting_id k db.requests

pub record IsSound (s : Calls) : Type 0 where
  pub unique : HasUniqueKeys meeting_id s.db.requests
  pub fresh : (k : ℕ) → s.db.next_id ≤ k → request_of k s.db ≡ none
  pub fits : (k : ℕ) → Fits (request_of k s.db) (times k s.waiting) (times k s.booked)
