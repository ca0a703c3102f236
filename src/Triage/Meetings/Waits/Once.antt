-- ===== src/Triage/Meetings/Waits/Once.antt =====
-- However handlers interleave over src/triage/meeting-scheduler.ts, a request is booked at most once.
use mathlib.Core.Option
use mathlib.Core.Path.{subst}
use agent_orchestrator.Base.{
  ℕ, ◌+◌, ◌≤◌, String, Bool, true, false, Option, some, none, List, [], ◌∷◌, ◌++◌, ◌==◌, ◌≡◌, ◌≢◌,
  some_inj, refl, ap, sym, ◌∙◌, arith, inl, inr, if◌then◌else◌, select, length-select-append,
  find_row, find_row_key, find_row-update_where, find_row-append_old, find_row-append_new,
  HasUniqueKeys-update_where, HasUniqueKeys-append, length-select-none, first, first-select,
  Option-cases, Bool-cases, ==_iff,
}
use agent_orchestrator.Triage.Meetings.{
  MeetingRequest, Meetings, meeting_id, code, guarded, one_row, update_requests, stamp, set_status,
  creating, awaiting_slot, scheduled, fallback_creating, fallback_pending, failed, abandoned,
}
use agent_orchestrator.Triage.Meetings.Repo.{
  claim_meeting_request, claimed_request, set_meeting_decision_id, set_duration_and_slots,
  replace_slots, claim_for_creating, mark_scheduled, claim_meeting_give_up, release_meeting_give_up,
  complete_meeting_give_up, reclaim_stuck_meeting_fallbacks, abandon_open_meeting,
  release_to_awaiting_slot, enqueue_meeting_confirmation, give_up_states, open_states, stuck_in,
}
use agent_orchestrator.Triage.Meetings.Sound.{times}
use agent_orchestrator.Triage.Meetings.Waits.{
  Calls, Statement, decides, offers, replaces, schedules, gives_up, queues, fails, reclaims,
  abandons, confirms, asks, Step, states, wins, loses, books, releases, drops, Reach, here,
  and_then, bookable, Fits, request_of, IsSound,
}

times-out :
    (j : ℕ) (before : List ℕ) (k : ℕ) (after : List ℕ) {ks : List ℕ}
    → ks ≡ before ++ k ∷ after
    → times j ks ≡ times j (before ++ after) + (if k == j then 1 else 0)
times-out j before k after e =
    ap (times j) e
    ∙ ground (
      arith,
      length-select-append (λ i. i == j) before (k ∷ after),
      length-select-append (λ i. i == j) before after,
    )

-- An UPDATE of requests, with the calls after it.
module _ (s : Calls) (sound : IsSound s) (now : ℕ) (p : MeetingRequest → Bool)
    (f : MeetingRequest → MeetingRequest) (same_id : (m : MeetingRequest) → (f m).id ≡ m.id)
    (waiting booked : List ℕ) where
  abbrev FitsBefore : ℕ → Option MeetingRequest → Type 0
  FitsBefore j o = Fits o (times j s.waiting) (times j s.booked)

  abbrev FitsAfter : ℕ → Option MeetingRequest → Type 0
  FitsAfter j o = Fits o (times j waiting) (times j booked)

  updated-IsSound :
      ((j : ℕ) → request_of j s.db ≡ none → FitsBefore j none → FitsAfter j none)
      → ((j : ℕ) (m : MeetingRequest)
          → m.id ≡ j
          → p m ≡ true
          → FitsBefore j (some m)
          → FitsAfter j (some (f m)))
      → ((j : ℕ) (m : MeetingRequest)
          → m.id ≡ j
          → request_of j s.db ≡ some m
          → p m ≡ false
          → FitsBefore j (some m)
          → FitsAfter j (some m))
      → IsSound (record { db = update_requests now p f s.db; waiting = waiting; booked = booked })
  updated-IsSound gone hit other = record {
    unique =
        HasUniqueKeys-update_where meeting_id p (stamp now f) same_id s.db.requests sound.unique;
    fresh = λ j le.
        find_row-update_where meeting_id p (stamp now f) same_id j s.db.requests
        ∙ ap (Option.map (λ m. if p m then stamp now f m else m)) (sound.fresh j le);
    fits = λ j.
        rw (find_row-update_where meeting_id p (stamp now f) same_id j s.db.requests)
          (elim (Option-cases (request_of j s.db)) [
            | inl absent ↦ rw absent (gone j absent (subst (FitsBefore j) absent (sound.fits j)))
            | inr (m, e) ↦
                let same = find_row_key meeting_id j s.db.requests {r = m} e in
                let fit = subst (FitsBefore j) e (sound.fits j) in
                elim (Bool-cases (p m)) [
                  | inl yes_hit ↦ rw (e, yes_hit) (hit j m same yes_hit fit)
                  | inr no_hit ↦ rw (e, no_hit) (other j m same e no_hit fit)
                ]
          ]);
  }

-- An UPDATE that makes no request bookable.
lowered-IsSound :
    (s : Calls) (sound : IsSound s) (now : ℕ) (p : MeetingRequest → Bool)
    (f : MeetingRequest → MeetingRequest)
    → ((m : MeetingRequest) → (f m).id ≡ m.id)
    → ((m : MeetingRequest) → p m ≡ true → bookable (f m) ≤ bookable m)
    → IsSound (record s { db = update_requests now p f s.db })
lowered-IsSound s sound now p f same_id less =
    updated-IsSound s sound now p f same_id s.waiting s.booked (λ j absent h. h)
      (λ j m same hit h. omega (arith, less m hit, h)) (λ j m same e miss h. h)

-- A statement that leaves the requests alone.
same-IsSound :
    (s : Calls) (sound : IsSound s) (db' : Meetings)
    → db'.requests ≡ s.db.requests
    → db'.next_id ≡ s.db.next_id
    → IsSound (record s { db = db' })
same-IsSound s sound db' same key = record {
  unique = rw same sound.unique;
  fresh = λ k le. ap (find_row meeting_id k) same ∙ sound.fresh k (omega (arith, key, le));
  fits = λ k. rw same (sound.fits k);
}

confirmation-same :
    (k : ℕ) (body by : String) (db : Meetings)
    → ((enqueue_meeting_confirmation k body by db).0.requests ≡ db.requests)
      × ((enqueue_meeting_confirmation k body by db).0.next_id ≡ db.next_id)
unfolding enqueue_meeting_confirmation
confirmation-same k body by db = elim (Option-cases (request_of k db)) [
  | inl absent ↦ rw absent (refl, refl)
  | inr (m, e) ↦ rw e (ground arith)
]

-- A new request has the next key, and nobody waits for it.
added-IsSound :
    (s : Calls) (sound : IsSound s) (m : MeetingRequest)
    → m.id ≡ s.db.next_id
    → IsSound (record s {
      db = record s.db { requests = s.db.requests ++ m ∷ []; next_id = s.db.next_id + 1 };
    })
added-IsSound s sound m new = record {
  unique =
      HasUniqueKeys-append meeting_id s.db.requests m (sound.fresh m.id (omega (arith, new)))
        sound.unique;
  fresh = λ k le. ground (
    arith,
    new,
    le,
    sound.fresh k (omega (arith, le)),
    find_row-append_new meeting_id k s.db.requests (m ∷ []),
  );
  fits = λ k. elim (Option-cases (request_of k s.db)) [
    | inr (x, e) ↦
        rw (find_row-append_old meeting_id k s.db.requests (m ∷ []) {r = x} e)
          (subst (λ o. Fits o (times k s.waiting) (times k s.booked)) e (sound.fits k))
    | inl absent ↦
        let free =
          subst (λ o. Fits o (times k s.waiting) (times k s.booked)) absent (sound.fits k) in
        rw (find_row-append_new meeting_id k s.db.requests (m ∷ []) absent)
          (elim (Bool-cases (m.id == k)) [
            | inl hit ↦ rw hit (ground (arith, free))
            | inr miss ↦ rw miss free
          ])
  ];
}

Statement-IsSound :
    (s : Calls) (sound : IsSound s) {db' : Meetings}
    → Statement s.db db'
    → IsSound (record s { db = db' })
unfolding set_meeting_decision_id set_duration_and_slots replace_slots mark_scheduled
    claim_meeting_give_up release_meeting_give_up complete_meeting_give_up
    reclaim_stuck_meeting_fallbacks abandon_open_meeting claim_meeting_request
Statement-IsSound s sound (decides now k decision) =
    lowered-IsSound s sound now (λ m. m.id == k) (λ m. record m { decision_id = some decision })
      (λ m. refl) (λ m h. omega arith)
Statement-IsSound s sound (offers now k minutes slots) =
    lowered-IsSound s sound now (guarded k (0 ∷ 1 ∷ []))
      (λ m. record m {
        duration_minutes = some minutes;
        slots = some slots;
        slots_computed_at = some now;
        status = awaiting_slot;
      })
      (λ m. refl) (λ m h. ground (arith, h))
Statement-IsSound s sound (replaces now k slots) =
    lowered-IsSound s sound now (guarded k (1 ∷ []))
      (λ m. record m { slots = some slots; slots_computed_at = some now }) (λ m. refl)
      (λ m h. omega arith)
Statement-IsSound s sound (schedules now k e) =
    lowered-IsSound s sound now (guarded k (2 ∷ []))
      (λ m. record m {
        status = scheduled;
        event_id = some e.event_id;
        event_calendar_id = some e.calendar_id;
        meet_link = e.meet_link;
        calendar_account_id = e.calendar_account_id;
      })
      (λ m. refl) (λ m h. omega arith)
Statement-IsSound s sound (gives_up now k) =
    lowered-IsSound s sound now (guarded k give_up_states) (set_status fallback_creating)
      (λ m. refl) (λ m h. omega arith)
Statement-IsSound s sound (queues now k) =
    lowered-IsSound s sound now (guarded k (5 ∷ [])) (set_status fallback_pending) (λ m. refl)
      (λ m h. omega arith)
Statement-IsSound s sound (fails now k) =
    lowered-IsSound s sound now (guarded k (5 ∷ [])) (set_status failed) (λ m. refl)
      (λ m h. omega arith)
Statement-IsSound s sound (reclaims now minutes) =
    lowered-IsSound s sound now (stuck_in (5 ∷ []) now minutes) (set_status fallback_pending)
      (λ m. refl) (λ m h. omega arith)
Statement-IsSound s sound (abandons now k) =
    lowered-IsSound s sound now (guarded k open_states) (set_status abandoned) (λ m. refl)
      (λ m h. omega arith)
Statement-IsSound s sound (confirms k body by) =
    let (same, key) = confirmation-same k body by s.db in same-IsSound s sound _ same key
Statement-IsSound s sound (asks now i) =
    elim (Option-cases
      (first (select (λ m. m.inbox_message_id == i.inbox_message_id) s.db.requests))) [
        | inl new ↦ rw new (added-IsSound s sound (claimed_request now s.db.next_id i) refl)
        | inr (m, old) ↦ rw old sound
      ]

-- A claim that is won finds its request bookable.
won-bookable :
    (s : Calls) (k : ℕ)
    → IsSound s
    → one_row (guarded k (1 ∷ [])) s.db ≡ true
    → (m : MeetingRequest) × (request_of k s.db ≡ some m) × (code m.status ≡ 1)
won-bookable s k sound e = elim (Option-cases (first (select (guarded k (1 ∷ [])) s.db.requests))) [
  | inl nothing ↦ ground (arith, e, length-select-none (guarded k (1 ∷ [])) s.db.requests nothing)
  | inr (m, found) ↦
      let (row, hit) =
        first-select meeting_id k (guarded k (1 ∷ [])) (λ x h. ground (arith, h)) s.db.requests
          sound.unique found in
      (m, row, ground (arith, hit))
]

-- A request without such a row is another one.
won-elsewhere :
    (s : Calls) (k : ℕ)
    → IsSound s
    → one_row (guarded k (1 ∷ [])) s.db ≡ true
    → (j : ℕ) → ((m : MeetingRequest) → request_of j s.db ≡ some m → code m.status ≡ 1 → k ≢ j)
    → (k == j) ≡ false
won-elsewhere s k sound e j never = elim (Bool-cases (k == j)) [
  | inr apart ↦ apart
  | inl hit ↦
      let (m, found, at) = won-bookable s k sound e in
      let same = (==_iff k j).0 hit in
      absurd (never m (subst (λ i. request_of i s.db ≡ some m) same found) at same)
]

Step-IsSound : {s t : Calls} → Step s t → IsSound s → IsSound t
unfolding claim_for_creating release_to_awaiting_slot
Step-IsSound {s} (states st) sound = Statement-IsSound s sound st
Step-IsSound {s} (loses now k) sound =
    lowered-IsSound s sound now (guarded k (1 ∷ [])) (set_status creating) (λ m. refl)
      (λ m h. omega arith)
Step-IsSound {s} (wins now k won) sound =
    updated-IsSound s sound now (guarded k (1 ∷ [])) (set_status creating) (λ x. refl)
      (k ∷ s.waiting) s.booked
      (λ j absent h.
        let apart = won-elsewhere s k sound won j (λ m e at same. cc (sym absent ∙ e)) in
        ground (arith, h, apart))
      (λ j x same hit h. ground (arith, hit, h, same))
      (λ j x same e miss h.
        let apart = won-elsewhere s k sound won j (λ m e' at here.
          let one = some_inj (sym e ∙ e') in ground (arith, one, at, same, here, miss)) in
        ground (arith, h, apart))
Step-IsSound {s} (books before k after e) sound = record {
  unique = sound.unique;
  fresh = sound.fresh;
  fits = λ j. elim (Option-cases (request_of j s.db)) [
    | inl absent ↦ ground (arith, absent, sound.fits j, times-out j before k after e)
    | inr (m, found) ↦ ground (arith, found, sound.fits j, times-out j before k after e)
  ];
}
Step-IsSound {s} (releases before k after now e) sound =
    updated-IsSound s sound now (guarded k (2 ∷ [])) (set_status awaiting_slot) (λ m. refl)
      (before ++ after) s.booked (λ j absent h. ground (arith, h, times-out j before k after e))
      (λ j m same hit h. ground (arith, hit, h, same, times-out j before k after e, ==_iff k j))
      (λ j m same at miss h. ground (arith, h, times-out j before k after e))
Step-IsSound {s} (drops before k after e) sound = record {
  unique = sound.unique;
  fresh = sound.fresh;
  fits = λ j. elim (Option-cases (request_of j s.db)) [
    | inl absent ↦ ground (arith, absent, sound.fits j, times-out j before k after e)
    | inr (m, found) ↦ ground (arith, found, sound.fits j, times-out j before k after e)
  ];
}

Reach-IsSound : {s t : Calls} → IsSound s → Reach s t → IsSound t
Reach-IsSound sound here = sound
Reach-IsSound sound (and_then before last) = Step-IsSound last (Reach-IsSound sound before)

-- However handlers, the fallback worker and dismissals interleave, also while a handler waits for the
-- calendar, at most one handler asks it for an event of a request at a time, and once it has returned
-- one none asks again: the handlers that wait and the events returned are together at most one. At the
-- start keys are unique and below their sequence, and each request is at most one of bookable, waited
-- for once and booked once.
pub one_booking :
    {s t : Calls} (k : ℕ) → IsSound s → Reach s t → times k t.waiting + times k t.booked ≤ 1
one_booking {s} {t} k sound path =
    let end = Reach-IsSound sound path in
    elim (Option-cases (request_of k t.db)) [
      | inl absent ↦ ground (arith, absent, end.fits k)
      | inr (m, found) ↦ ground (arith, found, end.fits k)
    ]
