-- ===== src/Triage/Meetings/Booking.antt =====
-- bookSlot of src/triage/meeting-scheduler.ts keeps the accounts.
use agent_orchestrator.Base.{
  ℕ, ◌+◌, ◌≤◌, ◌&&◌, Option, some, none, List, [], ◌∷◌, ◌++◌, ◌==◌, ◌≡◌, ◌∙◌, refl, arith, inl, inr,
  String, get_or_else, if◌then◌else◌, select, first, length, length-select-append, find_row,
  is_some, find_row_key, Option-cases, Bool-cases, ==_iff,
}
use agent_orchestrator.Outbound.SendWindow.{Luxon}
use agent_orchestrator.Triage.Slots.{Slot}
use agent_orchestrator.Triage.Meetings.{
  MeetingRequest, Meetings, Confirmation, meeting_id, code, guarded, one_row, update_requests,
  set_status, creating, scheduled, awaiting_slot,
}
use agent_orchestrator.Triage.Meetings.Repo.{
  confirms, confirmation, confirmed_if, is_filled, enqueue_meeting_confirmation, mark_scheduled,
  claim_for_creating, release_to_awaiting_slot,
}
use agent_orchestrator.Triage.Meetings.Scheduler.{
  World, with_db, Reply, CreateReply, created, threw, CreatedEvent, confirmation_body, Host,
  SchedulerDeps, booking_failed, meeting_booked,
}
use agent_orchestrator.Triage.Meetings.Handlers.{after_create, on_host, is_permanent, book_slot}
use agent_orchestrator.Triage.Meetings.Sound.{
  request, IsSound, notify-IsSound, updated-IsSound, quiet, request-updated, won_found,
}
use agent_orchestrator.Triage.Meetings.Settling.{give_up_to_task-IsSound}

-- A confirmation adds at most one row, for its request.
abbrev Confirmed : ℕ → Meetings → Meetings → Type 0
Confirmed k db db' =
    (cs : List Confirmation) × (db' ≡ record db { confirmations = cs })
    × ((j : ℕ)
        → length (select (confirms j) cs)
          ≤ length (select (confirms j) db.confirmations) + (if k == j then 1 else 0))

confirmed_if-Confirmed :
    (k : ℕ) (body by : String) (db : Meetings) (o : Option MeetingRequest)
    → find_row meeting_id k db.requests ≡ o
    → Confirmed k db (confirmed_if body by db o).0
confirmed_if-Confirmed k body by db none e = (db.confirmations, refl, λ j. omega arith)
confirmed_if-Confirmed k body by db (some m) e =
    elim (Bool-cases (is_filled m.channel_instance_id && is_filled m.recipient_address)) [
      | inr empty ↦ rw empty (db.confirmations, refl, λ j. omega arith)
      | inl filled ↦
          rw filled (elim (Bool-cases (is_some (first (select (confirms m.id) db.confirmations)))) [
            | inl old ↦ rw old (db.confirmations, refl, λ j. omega arith)
            | inr new ↦ rw new (
              db.confirmations ++ confirmation m body by ∷ [],
              refl,
              λ j. ground (
                arith,
                length-select-append (confirms j) db.confirmations (confirmation m body by ∷ []),
                find_row_key meeting_id k db.requests {r = m} e,
              ),
            )
          ])
    ]

module _ (ended : ℕ → Option ℕ) (luxon : Luxon) (deps : SchedulerDeps luxon) (m : MeetingRequest)
    (slot : Slot) (by : String) (reply : Reply) where
  abbrev to_scheduled : Host → CreatedEvent → MeetingRequest → MeetingRequest
  to_scheduled host e x = record x {
    status = scheduled;
    event_id = some e.id;
    event_calendar_id = some host.calendar_id;
    meet_link = e.meet_link;
    calendar_account_id = some host.account_id;
  }

  -- The row is scheduled and confirmed, and the call that returned the event is told.
  scheduled-IsSound :
      (owned : MeetingRequest) (w : World) (host : Host) (e : CreatedEvent) (db : Meetings)
      → IsSound ended w
      → request m.id w ≡ some owned
      → code owned.status ≡ 2
      → Confirmed m.id
          (update_requests reply.written_at (guarded m.id (2 ∷ [])) (to_scheduled host e) w.db)
          db
      → IsSound ended (record w { db = db; booked = m.id ∷ w.booked })
  scheduled-IsSound owned w host e db sound found held (cs, same, bound) = rw same (
      updated-IsSound ended w sound reply.written_at (guarded m.id (2 ∷ [])) (to_scheduled host e)
        (λ x. refl) (λ x. refl) (m.id ∷ w.booked) w.minted cs
        (λ k. elim (Option-cases (request k w)) [
          | inl absent ↦ ground (arith, absent, sound.accounted k, found, bound k, ==_iff m.id k)
          | inr (x, here) ↦ ground (
            arith,
            here,
            sound.accounted k,
            found,
            held,
            bound k,
            ==_iff m.id k,
            find_row_key meeting_id k w.db.requests {r = x} here,
          )
        ])
        (λ x h final. ground (arith, h, final)))

  abbrev body_for : CreatedEvent → String
  body_for e =
      confirmation_body deps.texts slot (get_or_else m.customer_tz deps.founder_tz) e.meet_link
        (get_or_else m.preferred_language "en") none

  after_create-IsSound :
      (owned : MeetingRequest) (w : World) (host : Host) (c : CreateReply)
      → IsSound ended w
      → request m.id w ≡ some owned
      → code owned.status ≡ 2
      → IsSound ended (after_create luxon deps m slot by reply w host c)
  unfolding release_to_awaiting_slot mark_scheduled enqueue_meeting_confirmation
  after_create-IsSound owned w host (threw status) sound found held =
      elim (Bool-cases (is_permanent status)) [
        | inl refused ↦ rw refused (give_up_to_task-IsSound ended m reply w sound)
        | inr transient ↦ rw transient (
            notify-IsSound (booking_failed m.id) (
              quiet ended w sound reply.written_at (guarded m.id (2 ∷ []))
                (set_status awaiting_slot) (λ x. refl) (λ x. refl) (λ x h. ground (arith, h))))
      ]
  after_create-IsSound owned w host (created e) sound found held =
      let marked =
        update_requests reply.written_at (guarded m.id (2 ∷ [])) (to_scheduled host e) w.db in
      notify-IsSound (meeting_booked m.id e.already_existed) (
        scheduled-IsSound owned w host e
          (enqueue_meeting_confirmation m.id (body_for e) by marked).0 sound found held
          (confirmed_if-Confirmed m.id (body_for e) by marked
            (find_row meeting_id m.id marked.requests) refl))

  on_host-IsSound :
      (owned : MeetingRequest) (w : World) (host : Option Host)
      → IsSound ended w
      → request m.id w ≡ some owned
      → code owned.status ≡ 2
      → IsSound ended (on_host luxon deps m slot by reply w host)
  on_host-IsSound owned w none sound found held = give_up_to_task-IsSound ended m reply w sound
  on_host-IsSound owned w (some host) sound found held =
      after_create-IsSound owned w host reply.event sound found held

  pub book_slot-IsSound :
      (w : World) → IsSound ended w → IsSound ended (book_slot luxon deps m slot by reply w)
  unfolding book_slot claim_for_creating
  book_slot-IsSound w sound =
      let taken =
        quiet ended w sound reply.written_at (guarded m.id (1 ∷ [])) (set_status creating)
          (λ x. refl) (λ x. refl) (λ x h. ground (arith, h)) in
      elim (Bool-cases (one_row (guarded m.id (1 ∷ [])) w.db)) [
        | inr lost ↦ rw lost taken
        | inl won ↦
            let (x, found, hit) = won_found ended w m.id (1 ∷ []) sound won in
            let owned = record x { status = creating; updated_at = reply.written_at } in
            rw won (
              on_host-IsSound owned
                (with_db w (
                  update_requests reply.written_at (guarded m.id (1 ∷ [])) (set_status creating)
                    w.db))
                reply.host taken
                (request-updated ended w sound reply.written_at (guarded m.id (1 ∷ []))
                    (set_status creating) (λ x. refl) (λ x. refl) m.id
                  ∙ rw (found, hit) refl)
                refl)
      ]
