-- ===== src/Triage/Meetings/Outcomes.antt =====
-- The life of meeting requests over src/triage/meeting-scheduler.ts: handlers that run one after another,
-- whatever the calendar and the portal answer.
use agent_orchestrator.Base.{
  ℕ, String, Bool, true, false, Option, some, none, List, [], ◌∷◌, ◌++◌, ◌==◌, ◌≡◌, refl, arith,
  if◌then◌else◌, ==_iff,
}
use agent_orchestrator.Outbound.SendWindow.{Luxon}
use agent_orchestrator.Triage.Meetings.Repo.{abandon_open_meeting}
use agent_orchestrator.Triage.Meetings.Options.{parse_meeting_option}
use agent_orchestrator.Triage.Meetings.Scheduler.{
  World, with_db, Reply, InitiateInput, SchedulerDeps,
}
use agent_orchestrator.Triage.Meetings.Handlers.{
  try_initiate, on_typed_time, fallback_tick, handle_decision,
}
use agent_orchestrator.Triage.Meetings.Sound.{request, IsSound, is_final, state}
use agent_orchestrator.Triage.Meetings.Keeping.{try_initiate-IsSound}
use agent_orchestrator.Triage.Meetings.Choosing.{
  on_typed_time-IsSound, handle_decision-IsSound, fallback_tick-IsSound,
  abandon_open_meeting-IsSound,
}

-- A message that asks for a meeting, a tapped button, a typed time, a tick of the fallback worker, and
-- a request that the founder abandons in the app.
pub data Event : Type 0 where
  asked : InitiateInput → Event
  tapped : (option_id : String) (meeting : Option ℕ) (by : String) → Event
  typed : (meeting starts_at : ℕ) (by : String) → Event
  ticked : (now stale_minutes batch_size : ℕ) → (ℕ → Reply) → Event
  withdrawn : ℕ → Event

abbrev pub start : World
start = record {
  db = record { requests = []; confirmations = []; next_id = 0 };
  booked = [];
  minted = [];
  notices = [];
}

abbrev pub is_scheduled : Option ℕ → Bool
is_scheduled none = false
is_scheduled (some s) = s == 3

module _ (luxon : Luxon) (deps : SchedulerDeps luxon) where
  abbrev pub handled : Event → Reply → World → World
  handled (asked i) reply w = (try_initiate luxon deps i reply w).0
  handled (tapped option_id meeting by) reply w =
      handle_decision luxon deps (parse_meeting_option option_id) meeting by reply w
  handled (typed meeting starts_at by) reply w =
      (on_typed_time luxon deps meeting starts_at by reply w).0
  handled (ticked now stale_minutes batch_size replies) reply w =
      fallback_tick luxon deps now stale_minutes batch_size replies w
  handled (withdrawn k) reply w = with_db w (abandon_open_meeting reply.written_at k w.db).0

  abbrev pub run : List (Event × Reply) → World → World
  run [] w = w
  run ((e, reply) ∷ steps) w = run steps (handled e reply w)

  handled-IsSound :
      (ended : ℕ → Option ℕ) (e : Event) (reply : Reply) (w : World)
      → IsSound ended w
      → IsSound ended (handled e reply w)
  handled-IsSound ended (asked i) reply w sound =
      try_initiate-IsSound ended luxon deps reply i w sound
  handled-IsSound ended (tapped option_id meeting by) reply w sound =
      handle_decision-IsSound ended luxon deps reply (parse_meeting_option option_id) meeting by w
        sound
  handled-IsSound ended (typed meeting starts_at by) reply w sound =
      on_typed_time-IsSound ended luxon deps reply meeting starts_at by w sound
  handled-IsSound ended (ticked now stale_minutes batch_size replies) reply w sound =
      fallback_tick-IsSound ended luxon deps now stale_minutes batch_size replies w sound
  handled-IsSound ended (withdrawn k) reply w sound =
      abandon_open_meeting-IsSound ended luxon deps reply.written_at k w sound

  run-IsSound :
      (ended : ℕ → Option ℕ) (steps : List (Event × Reply)) (w : World)
      → IsSound ended w
      → IsSound ended (run steps w)
  run-IsSound ended [] w sound = sound
  run-IsSound ended ((e, reply) ∷ steps) w sound =
      run-IsSound ended steps (handled e reply w) (handled-IsSound ended e reply w sound)

  start-IsSound : IsSound (λ k. none) start
  start-IsSound = record {
    unique = tt;
    fresh = λ k le. refl;
    accounted = λ k. (refl, refl, refl);
    kept = λ k s e final. cc;
    once = λ i. omega arith;
  }

  run-append :
      (before later : List (Event × Reply)) (w : World)
      → run (before ++ later) w ≡ run later (run before w)
  run-append [] later w = refl
  run-append ((e, reply) ∷ before) later w = run-append before later (handled e reply w)

  -- A request that is scheduled, failed or abandoned stays so, whatever happens later.
  pub settled_for_good :
      (before later : List (Event × Reply)) (k s : ℕ)
      → state (request k (run before start)) ≡ some s
      → is_final s ≡ true
      → state (request k (run (before ++ later) start)) ≡ some s
  settled_for_good before later k s e final =
      let w = run before start in
      let ended = λ (j : ℕ). if j == k then some s else none in
      let sound = run-IsSound (λ j. none) before start start-IsSound in
      let known : IsSound ended w = record {
        unique = sound.unique;
        fresh = sound.fresh;
        accounted = sound.accounted;
        kept = λ j t at final. ground (arith, at, e, ==_iff j k);
        once = sound.once;
      } in
      rw (run-append before later start)
        ((run-IsSound ended later w known).kept k s (ground (arith, ==_iff k k)) final)
