-- ===== src/Triage/Meetings/Keeping.antt =====
-- The handlers of src/triage/meeting-scheduler.ts keep the accounts.
use agent_orchestrator.Base.{
  ℕ, ◌+◌, Bool, true, false, Option, some, none, List, [], ◌∷◌, ◌++◌, ◌==◌, ◌≡◌, refl, arith, inl,
  inr, is_some, select, first, length-select-append, find_row-append_new, find_row-append_old,
  HasUniqueKeys-append, Option-cases, Bool-cases, ==_iff, length-select-none,
}
use agent_orchestrator.Outbound.SendWindow.{Luxon}
use agent_orchestrator.Triage.Slots.{Slot}
use agent_orchestrator.Triage.Meetings.{
  MeetingRequest, Meetings, ClaimMeetingInput, meeting_id, guarded, awaiting_slot,
}
use agent_orchestrator.Triage.Meetings.Repo.{
  of_inbox, claimed_request, claim_meeting_request, set_meeting_decision_id, set_duration_and_slots,
}
use agent_orchestrator.Triage.Meetings.Scheduler.{
  World, with_db, Reply, InitiateInput, SchedulerDeps, ask_for_duration, ask_for_slot,
}
use agent_orchestrator.Triage.Meetings.Handlers.{
  after_claim, try_initiate, claim_of, ask_again, offered_for, duration_given, propose_slots,
}
use agent_orchestrator.Triage.Meetings.Sound.{
  request, IsSound, notify-IsSound, updated-IsSound, quiet,
}
use agent_orchestrator.Triage.Meetings.Settling.{give_up_to_task-IsSound}

module _ (ended : ℕ → Option ℕ) where
  inserted-IsSound :
      (w : World) (now : ℕ) (i : ClaimMeetingInput)
      → IsSound ended w
      → first (select (of_inbox i.inbox_message_id) w.db.requests) ≡ none
      → IsSound ended (
          with_db w (record w.db {
            requests = w.db.requests ++ claimed_request now w.db.next_id i ∷ [];
            next_id = w.db.next_id + 1;
          }))
  inserted-IsSound w now i sound new =
      let row = claimed_request now w.db.next_id i in
      let absent = sound.fresh w.db.next_id (omega arith) in
      record {
        unique = HasUniqueKeys-append meeting_id w.db.requests row absent sound.unique;
        fresh = λ k le.
            ground
              (arith, sound.fresh k, find_row-append_new meeting_id k w.db.requests (row ∷ []));
        accounted = λ k. elim (Option-cases (request k w)) [
          | inl missing ↦
              rw (find_row-append_new meeting_id k w.db.requests (row ∷ []) missing)
                (ground (arith, sound.accounted k, missing))
          | inr (m, found) ↦
              rw (find_row-append_old meeting_id k w.db.requests (row ∷ []) {r = m} found)
                (ground (arith, sound.accounted k, found))
        ];
        kept = λ k s e final. elim (Option-cases (request k w)) [
          | inl missing ↦ ground (arith, missing, sound.kept k s e final)
          | inr (m, found) ↦
              rw (find_row-append_old meeting_id k w.db.requests (row ∷ []) {r = m} found)
                (ground (arith, sound.kept k s e final, found))
        ];
        once = λ k. ground (
          arith,
          sound.once k,
          length-select-append (of_inbox k) w.db.requests (row ∷ []),
          length-select-none (of_inbox i.inbox_message_id) w.db.requests new,
          ==_iff i.inbox_message_id k,
        );
      }

  -- The decision is linked in whatever state the request is.
  linked-IsSound :
      (w : World) (now k decision : ℕ)
      → IsSound ended w
      → IsSound ended (with_db w (set_meeting_decision_id now k decision w.db))
  unfolding set_meeting_decision_id
  linked-IsSound w now k decision sound =
      let link = λ (m : MeetingRequest). record m { decision_id = some decision } in
      updated-IsSound ended w sound now (λ m. m.id == k) link (λ m. refl) (λ m. refl) w.booked
        w.minted w.db.confirmations
        (λ j. elim (Option-cases (request j w)) [
          | inl absent ↦ ground (arith, absent, sound.accounted j)
          | inr (m, found) ↦ ground (arith, found, sound.accounted j)
        ])
        (λ m h final. refl)

module _ (ended : ℕ → Option ℕ) (luxon : Luxon) (deps : SchedulerDeps luxon) (reply : Reply) where
  after_claim-IsSound :
      (i : InitiateInput) (w : World)
      → IsSound ended w
      → IsSound ended (
          after_claim luxon deps reply w
            (claim_meeting_request reply.written_at (claim_of luxon deps i reply) w.db))
  unfolding claim_meeting_request
  after_claim-IsSound i w sound =
      let claim = claim_of luxon deps i reply in
      let new_row = claimed_request reply.written_at w.db.next_id claim in
      elim (Option-cases (first (select (of_inbox i.inbox_message_id) w.db.requests))) [
        | inr (m, old) ↦ rw old sound
        | inl new ↦ rw new (
            notify-IsSound (ask_for_duration w.db.next_id) (
              linked-IsSound ended
                (with_db w (record w.db {
                  requests = w.db.requests ++ new_row ∷ [];
                  next_id = w.db.next_id + 1;
                }))
                reply.written_at w.db.next_id reply.decision_id
                (inserted-IsSound ended w reply.written_at claim sound new)))
      ]

  pub try_initiate-IsSound :
      (i : InitiateInput) (w : World)
      → IsSound ended w
      → IsSound ended (try_initiate luxon deps i reply w).0
  unfolding try_initiate
  try_initiate-IsSound i w sound = elim (Bool-cases (is_some reply.host)) [
    | inl usable ↦ rw usable (after_claim-IsSound i w sound)
    | inr unusable ↦ rw unusable sound
  ]

  pub ask_again-IsSound :
      (k : ℕ) (slots : List Slot) (w : World) (changed : Meetings × Bool)
      → IsSound ended (with_db w changed.0)
      → IsSound ended (ask_again luxon deps k slots w changed)
  ask_again-IsSound k slots w (db, true) sound = notify-IsSound (ask_for_slot k slots) sound
  ask_again-IsSound k slots w (db, false) sound = sound

  offered_for-IsSound :
      (m : MeetingRequest) (minutes : ℕ) (w : World) (o : Option (List Slot))
      → IsSound ended w
      → IsSound ended (offered_for luxon deps m minutes reply w o)
  unfolding set_duration_and_slots
  offered_for-IsSound m minutes w none sound = give_up_to_task-IsSound ended m reply w sound
  offered_for-IsSound m minutes w (some []) sound = give_up_to_task-IsSound ended m reply w sound
  offered_for-IsSound m minutes w (some (s ∷ ss)) sound =
      ask_again-IsSound m.id (s ∷ ss) w
        (set_duration_and_slots reply.written_at m.id minutes (s ∷ ss) w.db)
        (quiet ended w sound reply.written_at (guarded m.id (0 ∷ 1 ∷ []))
          (λ x. record x {
            duration_minutes = some minutes;
            slots = some (s ∷ ss);
            slots_computed_at = some reply.written_at;
            status = awaiting_slot;
          })
          (λ x. refl) (λ x. refl) (λ x h. ground (arith, h)))

  pub duration_given-IsSound :
      (minutes : ℕ) (w : World) (o : Option MeetingRequest)
      → IsSound ended w
      → IsSound ended (duration_given luxon deps minutes reply w o)
  duration_given-IsSound minutes w none sound = sound
  duration_given-IsSound minutes w (some m) sound =
      offered_for-IsSound m minutes w (propose_slots luxon deps minutes reply) sound
