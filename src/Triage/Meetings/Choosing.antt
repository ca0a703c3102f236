-- ===== src/Triage/Meetings/Choosing.antt =====
-- The choice of a time in src/triage/meeting-scheduler.ts keeps the accounts.
use Prim.Native.String
use agent_orchestrator.Base.{
  ℕ, ◌+◌, ◌*◌, Option, some, none, List, [], ◌∷◌, refl, arith, inl, inr, String, leb, Bool-cases,
}
use agent_orchestrator.Outbound.SendWindow.{Luxon}
use agent_orchestrator.Triage.Slots.{BusyInterval, Slot, slot_conflicts}
use agent_orchestrator.Triage.Meetings.{
  MeetingRequest, guarded, set_status, fallback_pending, abandoned,
}
use agent_orchestrator.Triage.Meetings.Repo.{
  replace_slots, reclaim_stuck_meeting_fallbacks, list_pending_meeting_fallbacks,
  get_meeting_request, stuck_in, abandon_open_meeting, open_states,
}
use agent_orchestrator.Triage.Meetings.Options.{MeetingOption}
use agent_orchestrator.Triage.Meetings.Scheduler.{
  World, with_db, Reply, SchedulerDeps, not_checked, time_passed, busy_then,
}
use agent_orchestrator.Triage.Meetings.Handlers.{
  on_duration, fresh_slate, still_free, checked, chosen, slot_tapped, on_slot, unless_clash,
  typed_checked, typed_for, typed_in, on_typed_time, given_up_if, on_decline, retry_fallback,
  retried, fallback_tick, handle_decision, propose_slots, truthy, slot_numbered, found_in,
}
use agent_orchestrator.Triage.Meetings.Sound.{IsSound, notify-IsSound, quiet}
use agent_orchestrator.Triage.Meetings.Settling.{give_up_to_task-IsSound}
use agent_orchestrator.Triage.Meetings.Booking.{book_slot-IsSound}
use agent_orchestrator.Triage.Meetings.Keeping.{ask_again-IsSound, duration_given-IsSound}

module _ (ended : ℕ → Option ℕ) (luxon : Luxon) (deps : SchedulerDeps luxon) where
  module _ (reply : Reply) where
    fresh_slate-IsSound :
        (m : MeetingRequest) (w : World) (o : Option (List Slot))
        → IsSound ended w
        → IsSound ended (fresh_slate luxon deps m reply w o)
    unfolding replace_slots
    fresh_slate-IsSound m w none sound = give_up_to_task-IsSound ended m reply w sound
    fresh_slate-IsSound m w (some []) sound = give_up_to_task-IsSound ended m reply w sound
    fresh_slate-IsSound m w (some (s ∷ ss)) sound =
        ask_again-IsSound ended luxon deps reply m.id (s ∷ ss) w
          (replace_slots reply.written_at m.id (s ∷ ss) w.db)
          (quiet ended w sound reply.written_at (guarded m.id (1 ∷ []))
            (λ x. record x { slots = some (s ∷ ss); slots_computed_at = some reply.written_at })
            (λ x. refl) (λ x. refl) (λ x h. ground (arith, h)))

    checked-IsSound :
        (m : MeetingRequest) (minutes : ℕ) (chosen_slot : Slot) (by : String) (w : World)
        (o : Option (List BusyInterval))
        → IsSound ended w
        → IsSound ended (checked luxon deps m minutes chosen_slot by reply w o)
    checked-IsSound m minutes s by w none sound = notify-IsSound (not_checked m.id) sound
    checked-IsSound m minutes s by w (some busy) sound =
        elim (Bool-cases (still_free luxon deps m s reply busy)) [
          | inl free ↦ rw free (book_slot-IsSound ended luxon deps m s by reply w sound)
          | inr gone ↦
              rw gone (fresh_slate-IsSound m w (propose_slots luxon deps minutes reply) sound)
        ]

    chosen-IsSound :
        (m : MeetingRequest) (by : String) (w : World) (minutes : Option ℕ) (s : Option Slot)
        → IsSound ended w
        → IsSound ended (chosen luxon deps m by reply w minutes s)
    chosen-IsSound m by w none s sound = sound
    chosen-IsSound m by w (some minutes) none sound = sound
    chosen-IsSound m by w (some minutes) (some s) sound =
        checked-IsSound m minutes s by w reply.busy sound

    slot_tapped-IsSound :
        (index : ℕ) (by : String) (w : World) (o : Option MeetingRequest)
        → IsSound ended w
        → IsSound ended (slot_tapped luxon deps index by reply w o)
    slot_tapped-IsSound index by w none sound = sound
    slot_tapped-IsSound index by w (some m) sound =
        chosen-IsSound m by w (truthy m.duration_minutes) (slot_numbered index m.slots) sound

    unless_clash-IsSound :
        (m : MeetingRequest) (s : Slot) (by : String) (w : World) (o : Option BusyInterval)
        → IsSound ended w
        → IsSound ended (unless_clash luxon deps m s by reply w o).0
    unless_clash-IsSound m s by w (some clash) sound = notify-IsSound (busy_then m.id clash) sound
    unless_clash-IsSound m s by w none sound =
        book_slot-IsSound ended luxon deps m s by reply w sound

    typed_checked-IsSound :
        (m : MeetingRequest) (s : Slot) (by : String) (w : World) (o : Option (List BusyInterval))
        → IsSound ended w
        → IsSound ended (typed_checked luxon deps m s by reply w o).0
    typed_checked-IsSound m s by w none sound = notify-IsSound (not_checked m.id) sound
    typed_checked-IsSound m s by w (some busy) sound =
        unless_clash-IsSound m s by w (slot_conflicts s busy) sound

    typed_for-IsSound :
        (m : MeetingRequest) (starts_at : ℕ) (by : String) (w : World) (minutes : Option ℕ)
        → IsSound ended w
        → IsSound ended (typed_for luxon deps m starts_at by reply w minutes).0
    typed_for-IsSound m starts_at by w none sound = sound
    typed_for-IsSound m starts_at by w (some minutes) sound =
        elim (Bool-cases (leb starts_at reply.now)) [
          | inl past ↦ rw past (notify-IsSound (time_passed m.id) sound)
          | inr ahead ↦ rw ahead (
              typed_checked-IsSound m
                (record { starts_at = starts_at; ends_at = starts_at + minutes * 60000 }) by w
                reply.busy sound)
        ]

    typed_in-IsSound :
        (starts_at : ℕ) (by : String) (w : World) (o : Option MeetingRequest)
        → IsSound ended w
        → IsSound ended (typed_in luxon deps starts_at by reply w o).0
    typed_in-IsSound starts_at by w none sound = sound
    typed_in-IsSound starts_at by w (some m) sound =
        typed_for-IsSound m starts_at by w (truthy m.duration_minutes) sound

    pub on_typed_time-IsSound :
        (k starts_at : ℕ) (by : String) (w : World)
        → IsSound ended w
        → IsSound ended (on_typed_time luxon deps k starts_at by reply w).0
    unfolding on_typed_time
    on_typed_time-IsSound k starts_at by w sound =
        typed_in-IsSound starts_at by w (found_in 1 (get_meeting_request k w.db)) sound

    given_up_if-IsSound :
        (w : World) (o : Option MeetingRequest)
        → IsSound ended w
        → IsSound ended (given_up_if luxon deps reply w o)
    given_up_if-IsSound w none sound = sound
    given_up_if-IsSound w (some m) sound = give_up_to_task-IsSound ended m reply w sound

    retry_fallback-IsSound :
        (k : ℕ) (w : World) → IsSound ended w → IsSound ended (retry_fallback luxon deps k reply w)
    unfolding retry_fallback
    retry_fallback-IsSound k w sound =
        given_up_if-IsSound w (found_in 4 (get_meeting_request k w.db)) sound

    pub handle_decision-IsSound :
        (o : Option MeetingOption) (k : Option ℕ) (by : String) (w : World)
        → IsSound ended w
        → IsSound ended (handle_decision luxon deps o k by reply w)
    unfolding handle_decision on_duration on_slot on_decline
    handle_decision-IsSound (some (MeetingOption.duration n)) (some k) by w sound =
        duration_given-IsSound ended luxon deps reply n w (found_in 0 (get_meeting_request k w.db))
          sound
    handle_decision-IsSound (some (MeetingOption.slot i)) (some k) by w sound =
        slot_tapped-IsSound i (String.◌++◌ "telegram:" by) w
          (found_in 1 (get_meeting_request k w.db)) sound
    handle_decision-IsSound (some MeetingOption.task) (some k) by w sound =
        given_up_if-IsSound w (get_meeting_request k w.db) sound
    handle_decision-IsSound (some MeetingOption.other) (some k) by w sound = sound
    handle_decision-IsSound none k by w sound = sound
    handle_decision-IsSound (some (MeetingOption.duration n)) none by w sound = sound
    handle_decision-IsSound (some (MeetingOption.slot i)) none by w sound = sound
    handle_decision-IsSound (some MeetingOption.task) none by w sound = sound
    handle_decision-IsSound (some MeetingOption.other) none by w sound = sound

  retried-IsSound :
      (replies : ℕ → Reply) (ks : List ℕ) (w : World)
      → IsSound ended w
      → IsSound ended (retried luxon deps replies ks w)
  retried-IsSound replies [] w sound = sound
  retried-IsSound replies (k ∷ ks) w sound =
      retried-IsSound replies ks (retry_fallback luxon deps k (replies k) w)
        (retry_fallback-IsSound (replies k) k w sound)

  pub fallback_tick-IsSound :
      (now stale batch : ℕ) (replies : ℕ → Reply) (w : World)
      → IsSound ended w
      → IsSound ended (fallback_tick luxon deps now stale batch replies w)
  unfolding fallback_tick reclaim_stuck_meeting_fallbacks
  fallback_tick-IsSound now stale batch replies w sound =
      let reclaimed = with_db w (reclaim_stuck_meeting_fallbacks now stale w.db).0 in
      retried-IsSound replies (list_pending_meeting_fallbacks batch reclaimed.db) reclaimed (
        quiet ended w sound now (stuck_in (5 ∷ []) now stale) (set_status fallback_pending)
          (λ x. refl) (λ x. refl) (λ x h. ground (arith, h)))

  pub abandon_open_meeting-IsSound :
      (now k : ℕ) (w : World)
      → IsSound ended w
      → IsSound ended (with_db w (abandon_open_meeting now k w.db).0)
  unfolding abandon_open_meeting
  abandon_open_meeting-IsSound now k w sound =
      quiet ended w sound now (guarded k open_states) (set_status abandoned) (λ x. refl) (λ x. refl)
        (λ x h. ground (arith, h))
