-- ===== src/Outbound/Lifecycle/Attempts.antt =====
-- However sessions interleave on agent_outbound_queue, no row is with two of them at once, and none is handed
-- over more than three times.
use agent_orchestrator.Base.{
  ℕ, ◌+◌, ◌≤◌, Bool, true, some, ◌≡◌, refl, arith, ◌⊎◌, inl, inr, Option-cases, ap, HasUniqueKeys,
  Each-update_where,
}
use agent_orchestrator.Outbound.Rows.{Status, OutboundRow, row_id, Db}
use agent_orchestrator.Outbound.Edges.{◌⟶◌, cancel, recall, Quiet, Quiet-refl, QuietTables}
use agent_orchestrator.Outbound.Queue.{stamp, update_queue}
use agent_orchestrator.Outbound.Queue.Effects.{row_at, reclaim_stuck-Quiet}
use agent_orchestrator.Outbound.Drafts.Effects.{
  approve_draft-Quiet, replace_draft_body_and_approve-Quiet, cancel_draft-Quiet, revise_draft-Quiet,
  enqueue_outbound-Appends, enqueue_draft-Appends, Appends,
}
use agent_orchestrator.Outbound.Lifecycle.{
  is_waiting, called_off, TableStep, reclaim, enqueue, draft, approve as approve_step, replace,
  cancel as cancel_step, revise, withdraw, insert, elsewhere, Fleet, Step, tables, claims,
  puts_back, hands_over, records, drops_held, drops_flying, Reach, here, next,
}
use agent_orchestrator.Outbound.Lifecycle.Sound.{
  attempts, times, IsSound, IsQuiet, IsQuiet-IsSound, QuietTables-IsQuiet, Appends-IsSound,
}
use agent_orchestrator.Outbound.Lifecycle.Flight.{
  PutsBack-IsSound, hands_over-IsSound, Records-IsSound, drops_held-IsSound, drops_flying-IsSound,
  claims-IsSound,
}

edge_called_off : {s : Status} → is_waiting s ≡ true → s ⟶ Status.cancelled
edge_called_off {s = Status.pending} h = cancel
edge_called_off {s = Status.approved} h = recall
edge_called_off {s = Status.sending} h = cc
edge_called_off {s = Status.sent} h = cc
edge_called_off {s = Status.failed} h = cc
edge_called_off {s = Status.cancelled} h = cc

withdraw-Quiet :
    (now : ℕ) (p : OutboundRow → Bool)
    → ((r : OutboundRow) → p r ≡ true → is_waiting r.status ≡ true)
    → (db : Db) → QuietTables db (update_queue now p called_off db)
withdraw-Quiet now p waiting db = record {
  rows =
      Each-update_where Quiet p (stamp now called_off) Quiet-refl
        (λ r h. record {
          same_id = refl;
          same_retries = refl;
          edge = edge_called_off (waiting r h);
        })
        db.queue;
  next = refl;
}

same_queue-IsQuiet :
    (db db' : Db)
    → HasUniqueKeys row_id db.queue
    → db'.queue ≡ db.queue
    → db'.next_id ≡ db.next_id
    → IsQuiet db db'
same_queue-IsQuiet db db' u same key = record {
  unique = rw same u;
  next = key;
  back = λ j s e. (s, rw same at e, Quiet-refl s);
  onward = λ j r e. (r, rw same e, Quiet-refl r);
}

-- A statement adds a row that was never tried, or moves the rows along the edges of the diagram.
pub TableStep-cases :
    (db db' : Db)
    → HasUniqueKeys row_id db.queue
    → TableStep db db'
    → IsQuiet db db' ⊎ Appends db db'
TableStep-cases db _ u (reclaim now mins) =
    inl (QuietTables-IsQuiet _ _ u (reclaim_stuck-Quiet now mins db))
TableStep-cases db _ u (enqueue ops now input) = inr (enqueue_outbound-Appends ops now input db)
TableStep-cases db _ u (draft ops now input decision) =
    elim (enqueue_draft-Appends ops now input decision db) [
      | inl same ↦
          inl (same_queue-IsQuiet db _ u (ap (λ d. d.queue) same) (ap (λ d. d.next_id) same))
      | inr a ↦ inr a
    ]
TableStep-cases db _ u (approve_step now k by) =
    inl (QuietTables-IsQuiet _ _ u (approve_draft-Quiet now k by db))
TableStep-cases db _ u (replace now k body by) =
    inl (QuietTables-IsQuiet _ _ u (replace_draft_body_and_approve-Quiet now k body by db))
TableStep-cases db _ u (cancel_step now k by) =
    inl (QuietTables-IsQuiet _ _ u (cancel_draft-Quiet now k by db))
TableStep-cases db _ u (revise now k body output instruction by verdict) =
    inl (QuietTables-IsQuiet _ _ u (revise_draft-Quiet now k body output instruction by verdict db))
TableStep-cases db _ u (withdraw now p waiting) =
    inl (QuietTables-IsQuiet _ _ u (withdraw-Quiet now p waiting db))
TableStep-cases db _ u (insert a) = inr a
TableStep-cases db db' u (elsewhere same key) = inl (same_queue-IsQuiet db db' u same key)

Step-IsSound : {s t : Fleet} → Step s t → IsSound s → IsSound t
Step-IsSound {s} (tables {db'} st) sound = elim (TableStep-cases s.db db' sound.unique st) [
  | inl q ↦ IsQuiet-IsSound s db' q sound
  | inr a ↦ Appends-IsSound s db' a sound
]
Step-IsSound {s} (claims limit types now locked) sound =
    claims-IsSound s sound limit types now locked
Step-IsSound {s} (puts_back before row after e w) sound =
    PutsBack-IsSound s sound before row after e w
Step-IsSound {s} (hands_over before row after e) sound =
    hands_over-IsSound s sound before row after e
Step-IsSound {s} (records before row after e w) sound = Records-IsSound s sound before row after e w
Step-IsSound {s} (drops_held before row after e) sound =
    drops_held-IsSound s sound before row after e
Step-IsSound {s} (drops_flying before row after e) sound =
    drops_flying-IsSound s sound before row after e

pub Reach-IsSound : {s t : Fleet} → IsSound s → Reach s t → IsSound t
Reach-IsSound sound here = sound
Reach-IsSound sound (next r st) = Step-IsSound st (Reach-IsSound sound r)

-- However the claims, dispatches, writes and crashes of any number of sessions interleave with each
-- other and with the other writers, no row's message is handed to an adapter more than three times
-- (MAX_SEND_ATTEMPTS), from tables whose keys are unique and below their sequence and where each row
-- is with at most one session and within its budget of dispatches.
pub attempts-le-three : {s t : Fleet} (k : ℕ) → IsSound s → Reach s t → attempts k t.dispatched ≤ 3
attempts-le-three {s} {t} k sound reach =
    let end = Reach-IsSound sound reach in
    elim (Option-cases (row_at k t.db)) [
      | inl gone ↦ ground (arith, gone, end.fit k)
      | inr (r, e) ↦ ground (arith, e, end.fit k)
    ]

-- However they interleave, a row is with at most one session, claimed or handed over, and with none
-- while it is pending or approved; the start is as for `attempts-le-three`.
pub one_holder :
    {s t : Fleet} (k : ℕ) (r : OutboundRow)
    → IsSound s
    → Reach s t
    → row_at k t.db ≡ some r
    → (times k t.held + times k t.flying ≤ 1)
      × (is_waiting r.status ≡ true → times k t.held + times k t.flying ≡ 0)
one_holder {s} {t} k r sound reach e =
    let end = Reach-IsSound sound reach in
    (ground (arith, e, end.fit k), λ w. ground (arith, e, end.fit k, w))
