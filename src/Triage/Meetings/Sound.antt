-- ===== src/Triage/Meetings/Sound.antt =====
-- What the table of src/triage/meeting-repo.ts and the calls made for it have to do with each other, and
-- that the statements keep it.
use mathlib.Core.Option
use agent_orchestrator.Base.{
  ℕ, ◌≤◌, Bool, true, false, ◌||◌, Option, some, none, List, ◌==◌, ◌≡◌, ◌≢◌, refl, arith, inl, inr,
  if◌then◌else◌, select, first, length, find_row, HasUniqueKeys, HasUniqueKeys-update_where,
  find_row-update_where, length-select-kept, length-select-none, first-select, Option-cases,
}
use agent_orchestrator.Triage.Meetings.{
  MeetingRequest, Confirmation, meeting_id, code, guarded, one_row, update_requests, stamp,
}
use agent_orchestrator.Triage.Meetings.Repo.{of_inbox, confirms}
use agent_orchestrator.Triage.Meetings.Scheduler.{World, Notice, notify, with_db}

abbrev pub times : ℕ → List ℕ → ℕ
times k ks = length (select (λ j. j == k) ks)

-- A scheduled request has its event, and a failed one may have its task; any other has neither, and
-- only a scheduled one is confirmed.
abbrev pub Account : Option MeetingRequest → (events tasks confirmations : ℕ) → Type 0
Account none e t c = (e ≡ 0) × (t ≡ 0) × (c ≡ 0)
Account (some m) e t c =
    (e ≡ (if code m.status == 3 then 1 else 0))
    × (t ≤ (if code m.status == 6 then 1 else 0))
    × (c ≤ (if code m.status == 3 then 1 else 0))

abbrev pub request : ℕ → World → Option MeetingRequest
request k w = find_row meeting_id k w.db.requests

abbrev pub confirmed : ℕ → World → ℕ
confirmed k w = length (select (confirms k) w.db.confirmations)

abbrev pub is_final : ℕ → Bool
is_final s = s == 3 || s == 6 || s == 7

abbrev pub state : Option MeetingRequest → Option ℕ
state o = Option.map (λ m. code m.status) o

-- `ended` gives the final states that requests are known to have reached.
pub record IsSound (ended : ℕ → Option ℕ) (w : World) : Type 0 where
  pub unique : HasUniqueKeys meeting_id w.db.requests
  pub fresh : (k : ℕ) → w.db.next_id ≤ k → request k w ≡ none
  pub accounted :
      (k : ℕ) → Account (request k w) (times k w.booked) (times k w.minted) (confirmed k w)
  pub kept : (k s : ℕ) → ended k ≡ some s → is_final s ≡ true → state (request k w) ≡ some s
  pub once : (i : ℕ) → length (select (of_inbox i) w.db.requests) ≤ 1

pub notify-IsSound :
    {ended : ℕ → Option ℕ} (n : Notice) {w : World} → IsSound ended w → IsSound ended (notify n w)
notify-IsSound n s = record {
  unique = s.unique;
  fresh = s.fresh;
  accounted = s.accounted;
  kept = s.kept;
  once = s.once;
}

-- An update of rows under their keys, whatever else the world records of them.
module _ (ended : ℕ → Option ℕ) (w : World) (sound : IsSound ended w) (now : ℕ)
    (p : MeetingRequest → Bool) (f : MeetingRequest → MeetingRequest)
    (same_id : (m : MeetingRequest) → (f m).id ≡ m.id)
    (same_inbox : (m : MeetingRequest) → (f m).inbox_message_id ≡ m.inbox_message_id) where
  abbrev pub changed : Option MeetingRequest → Option MeetingRequest
  changed o = Option.map (λ m. if p m then stamp now f m else m) o

  abbrev pub updated : World
  updated = with_db w (update_requests now p f w.db)

  pub request-updated : (k : ℕ) → request k updated ≡ changed (request k w)
  request-updated k = find_row-update_where meeting_id p (stamp now f) same_id k w.db.requests

  pub updated-IsSound :
      (booked minted : List ℕ) (confirmations : List Confirmation)
      → ((k : ℕ)
          → Account
              (changed (request k w))
              (times k booked)
              (times k minted)
              (length (select (confirms k) confirmations)))
      → ((m : MeetingRequest)
          → p m ≡ true
          → is_final (code m.status) ≡ true
          → code (f m).status ≡ code m.status)
      → IsSound ended (record w {
        db = record (update_requests now p f w.db) { confirmations = confirmations };
        booked = booked;
        minted = minted;
      })
  updated-IsSound booked minted confirmations accounted steady = record {
    unique =
        HasUniqueKeys-update_where meeting_id p (stamp now f) same_id w.db.requests sound.unique;
    fresh = λ k le. rw (request-updated k, sound.fresh k le) refl;
    kept = λ k s e final. elim (Option-cases (request k w)) [
      | inl absent ↦ ground (arith, absent, sound.kept k s e final)
      | inr (m, found) ↦
          rw (request-updated k, found)
            (ground (arith, found, sound.kept k s e final, final, steady m))
    ];
    accounted = λ k. rw (request-updated k) (accounted k);
    once = λ i.
        rw
          (length-select-kept (of_inbox i) p (stamp now f) (λ m. rw (same_inbox m) refl)
            w.db.requests)
          (sound.once i);
  }

  -- An update of rows that are not settled, none of which it schedules.
  pub quiet :
      ((m : MeetingRequest)
        → p m ≡ true
        → (is_final (code m.status) ≡ false) × (code (f m).status ≢ 3))
      → IsSound ended updated
  quiet open_before =
      updated-IsSound w.booked w.minted w.db.confirmations
        (λ k. elim (Option-cases (request k w)) [
          | inl absent ↦ ground (arith, absent, sound.accounted k)
          | inr (m, found) ↦ ground (arith, found, sound.accounted k, open_before m)
        ])
        (λ m h final. ground (arith, open_before m h, final))

-- A guarded update of one request that wins finds it in one of the states, and leaves it in the new one.
pub won_found :
    (ended : ℕ → Option ℕ) (w : World) (k : ℕ) (states : List ℕ)
    → IsSound ended w
    → one_row (guarded k states) w.db ≡ true
    → (m : MeetingRequest) × (request k w ≡ some m) × (guarded k states m ≡ true)
won_found ended w k states sound e =
    elim (Option-cases (first (select (guarded k states) w.db.requests))) [
      | inl nothing ↦ ground (arith, e, length-select-none (guarded k states) w.db.requests nothing)
      | inr (m, found) ↦
          let (row, hit) =
            first-select meeting_id k (guarded k states) (λ x h. ground (arith, h)) w.db.requests
              sound.unique found in
          (m, row, hit)
    ]
