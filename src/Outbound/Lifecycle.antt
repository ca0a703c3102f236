-- ===== src/Outbound/Lifecycle.antt =====
-- Interleavings on agent_outbound_queue of any number of drainer sessions (claim, hand over, write the
-- outcome, each a step of its own, with a crash possible at any point between) with the statements of
-- the founder's decisions, the producers, the reclaim and the cancellations. After its claim a session
-- never looks at the row's status again: it writes by id only.
pub mod Sound
pub mod Flight
pub mod Attempts
pub mod Final
pub mod Sessions
mod Tests
use agent_orchestrator.Base.{ℕ, Bool, true, false, String, Option, List, [], ◌∷◌, ◌++◌, ◌≡◌}
use agent_orchestrator.Outbound.Rows.{Status, OutboundRow, Db}
use agent_orchestrator.Outbound.Queue.{
  ClaimedOutbound, claim_due, reclaim_stuck, update_queue, mark_sent, retry_later, defer_until,
  fail_review,
}
use agent_orchestrator.Outbound.Drafts.{
  EnqueueInput, TextOps, tables_after, enqueue_outbound, enqueue_draft, approve_draft,
  replace_draft_body_and_approve, cancel_draft, revise_draft,
}
use agent_orchestrator.Outbound.Drafts.Effects.{Appends}
use agent_orchestrator.Outbound.Drainer.{OutboundMessage, message_of, max_send_attempts}

abbrev pub is_waiting : Status → Bool
is_waiting Status.pending = true
is_waiting Status.approved = true
is_waiting _ = false

abbrev pub called_off : OutboundRow → OutboundRow
called_off r = record r { status = Status.cancelled }

-- A statement of a writer other than the drainer's sessions.
pub data TableStep (db : Db) : Db → Type 0 where
  reclaim : (now mins : ℕ) → TableStep db (reclaim_stuck now mins db).0
  enqueue :
      (ops : TextOps) (now : ℕ) (input : EnqueueInput)
      → TableStep db (enqueue_outbound ops now input db).0
  draft :
      (ops : TextOps) (now : ℕ) (input : EnqueueInput) (decision : ℕ)
      → TableStep db (tables_after db (enqueue_draft ops now input decision db))
  approve : (now k : ℕ) (by : String) → TableStep db (tables_after db (approve_draft now k by db))
  replace :
      (now k : ℕ) (body by : String)
      → TableStep db (tables_after db (replace_draft_body_and_approve now k body by db))
  cancel : (now k : ℕ) (by : String) → TableStep db (tables_after db (cancel_draft now k by db))
  revise :
      (now k : ℕ) (body output instruction by : String) (verdict : Option String)
      → TableStep db (tables_after db (revise_draft now k body output instruction by verdict db))
  -- the console's and the scheduler's cancellation of approved rows, and that of pending drafts which
  -- the founder has answered on the phone
  withdraw :
      (now : ℕ) (p : OutboundRow → Bool)
      → ((r : OutboundRow) → p r ≡ true → is_waiting r.status ≡ true)
      → TableStep db (update_queue now p called_off db)
  -- the inserts of scheduled messages and of meeting confirmations
  insert : {db' : Db} → Appends db db' → TableStep db db'
  -- whatever leaves the queue alone
  elsewhere : {db' : Db} → db'.queue ≡ db.queue → db'.next_id ≡ db.next_id → TableStep db db'

-- What a session writes of a row that it does not hand over.
pub data PutsBack (row : ClaimedOutbound) (db : Db) : Db → Type 0 where
  parks : (now t : ℕ) → PutsBack row db (defer_until now row.id t db)
  bars : (now : ℕ) (reason : String) → PutsBack row db (fail_review now row.id reason false db)

-- What it writes of a row that it has handed over.
pub data Records (row : ClaimedOutbound) (db : Db) : Db → Type 0 where
  marks : (now : ℕ) (provider : String) → Records row db (mark_sent now row.id provider db)
  reviews :
      (now : ℕ) (reason : String) (possibly : Bool)
      → Records row db (fail_review now row.id reason possibly db)
  retries :
      (now : ℕ) (reason : String) (backoff : ℕ)
      → Records row db (retry_later now row.id reason max_send_attempts backoff db).0

-- The tables, the messages handed to adapters, and over all sessions the rows that are claimed and
-- those that are handed over with their outcome unwritten.
pub record Fleet : Type 0 where
  pub db : Db
  pub dispatched : List (ℕ × OutboundMessage)
  pub held : List ClaimedOutbound
  pub flying : List ClaimedOutbound

pub data Step (s : Fleet) : Fleet → Type 0 where
  tables : {db' : Db} → TableStep s.db db' → Step s (record s { db = db' })
  claims :
      (limit : ℕ) (types : List String) (now : ℕ) (locked : ℕ → Bool)
      → Step s (record s {
        db = (claim_due limit types now locked s.db).0;
        held = (claim_due limit types now locked s.db).1 ++ s.held;
      })
  puts_back :
      (before : List ClaimedOutbound) (row : ClaimedOutbound) (after : List ClaimedOutbound)
      {db' : Db}
      → s.held ≡ before ++ row ∷ after
      → PutsBack row s.db db'
      → Step s (record s { db = db'; held = before ++ after })
  hands_over :
      (before : List ClaimedOutbound) (row : ClaimedOutbound) (after : List ClaimedOutbound)
      → s.held ≡ before ++ row ∷ after
      → Step s (record s {
        dispatched = s.dispatched ++ (row.id, message_of row) ∷ [];
        held = before ++ after;
        flying = row ∷ s.flying;
      })
  records :
      (before : List ClaimedOutbound) (row : ClaimedOutbound) (after : List ClaimedOutbound)
      {db' : Db}
      → s.flying ≡ before ++ row ∷ after
      → Records row s.db db'
      → Step s (record s { db = db'; flying = before ++ after })
  -- a session dies with a row that it holds, or has handed over
  drops_held :
      (before : List ClaimedOutbound) (row : ClaimedOutbound) (after : List ClaimedOutbound)
      → s.held ≡ before ++ row ∷ after
      → Step s (record s { held = before ++ after })
  drops_flying :
      (before : List ClaimedOutbound) (row : ClaimedOutbound) (after : List ClaimedOutbound)
      → s.flying ≡ before ++ row ∷ after
      → Step s (record s { flying = before ++ after })

pub data Reach (s : Fleet) : Fleet → Type 0 where
  here : Reach s s
  next : {t u : Fleet} → Reach s t → Step t u → Reach s u

pub Reach-trans : {s t u : Fleet} → Reach s t → Reach t u → Reach s u
Reach-trans before here = before
Reach-trans before (next rest last) = next (Reach-trans before rest) last
