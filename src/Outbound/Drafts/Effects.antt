-- ===== src/Outbound/Drafts/Effects.antt =====
-- What the draft operations do to the rows of the queue.
use agent_orchestrator.Base.{
  ℕ, ◌+◌, String, Bool, true, Option, some, none, List, [], ◌∷◌, ◌++◌, ◌≡◌, refl, arith, inl, inr,
  ◌⊎◌, find_row, Option-cases, Each, Each-refl, Each-trans, Each-update_where, Each-map,
  update_where,
}
use agent_orchestrator.Outbound.Rows.{
  Outcome, OutboundRow, Override, Db, is_open, decision_key, Decision, InboxLink,
}
use agent_orchestrator.Outbound.Edges.{
  Quiet, QuietTables, Quiet-refl, edge_of_open, Edited, Edited-refl, Edited-trans, Edited-Quiet,
  approve, cancel,
}
use agent_orchestrator.Outbound.Queue.{stamp, update_queue, with_id}
use agent_orchestrator.Outbound.Drafts.{
  tables_after, TextOps, EnqueueInput, enqueue_outbound, enqueue_draft, answered_directly,
  open_draft, find_draft, resolve_linked, resolve_draft_decision, flip_draft_and_resolve,
  approve_draft, replace_draft_body_and_approve, cancel_draft, revise_draft,
  insert_revised_draft_decision, flip_found, revise_found, revise_linked, repoint, enqueue_checked,
  draft_row, insert_row, resolve_superseded,
}

resolve_linked-queue :
    (now : ℕ) (d : Option ℕ) (outcome : Outcome) (override : Option Override) (db : Db)
    → (resolve_linked now d outcome override db).queue ≡ db.queue
unfolding resolve_draft_decision
resolve_linked-queue now none outcome override db = refl
resolve_linked-queue now (some d) outcome override db = refl

resolve_linked-next_id :
    (now : ℕ) (d : Option ℕ) (outcome : Outcome) (override : Option Override) (db : Db)
    → (resolve_linked now d outcome override db).next_id ≡ db.next_id
unfolding resolve_draft_decision
resolve_linked-next_id now none outcome override db = refl
resolve_linked-next_id now (some d) outcome override db = refl

-- A flip that follows an edge out of `pending` is quiet.
module _ (now k : ℕ) (change : OutboundRow → OutboundRow) (outcome : Outcome)
    (override : Option Override) (db : Db)
    (moves : (r : OutboundRow) → is_open r.status ≡ true → Quiet r (stamp now change r)) where
  flip_found-Quiet :
      (found : Option OutboundRow)
      → QuietTables db (tables_after db (flip_found now k change outcome override db found))
  flip_found-Quiet none = record { rows = Each-refl Quiet Quiet-refl db.queue; next = refl }
  flip_found-Quiet (some r) =
      let flipped = update_queue now (open_draft k) change db in
      record {
        rows = rw (resolve_linked-queue now r.decision_id outcome override flipped) (
            Each-update_where Quiet (open_draft k) (stamp now change) Quiet-refl
              (λ q h. moves q (ground arith)) db.queue);
        next = resolve_linked-next_id now r.decision_id outcome override flipped;
      }

  flip-Quiet :
      QuietTables db (tables_after db (flip_draft_and_resolve now k change outcome override db))
  unfolding flip_draft_and_resolve
  flip-Quiet = flip_found-Quiet (find_draft k db)

pub approve_draft-Quiet :
    (now k : ℕ) (by : String) (db : Db)
    → QuietTables db (tables_after db (approve_draft now k by db))
unfolding approve_draft
approve_draft-Quiet now k by db =
    flip-Quiet now k _ Outcome.accepted none db
      (λ r h. record { same_id = refl; same_retries = refl; edge = edge_of_open h approve })

pub replace_draft_body_and_approve-Quiet :
    (now k : ℕ) (body by : String) (db : Db)
    → QuietTables db (tables_after db (replace_draft_body_and_approve now k body by db))
unfolding replace_draft_body_and_approve
replace_draft_body_and_approve-Quiet now k body by db =
    flip-Quiet now k _ Outcome.modified _ db
      (λ r h. record { same_id = refl; same_retries = refl; edge = edge_of_open h approve })

pub cancel_draft-Quiet :
    (now k : ℕ) (by : String) (db : Db)
    → QuietTables db (tables_after db (cancel_draft now k by db))
unfolding cancel_draft
cancel_draft-Quiet now k by db =
    flip-Quiet now k _ Outcome.rejected _ db
      (λ r h. record { same_id = refl; same_retries = refl; edge = edge_of_open h cancel })

Edited-update :
    (now : ℕ) (p : OutboundRow → Bool) (f : OutboundRow → OutboundRow) (rows : List OutboundRow)
    → ((r : OutboundRow) → Edited r (f r))
    → Each Edited rows (update_where p (stamp now f) rows)
Edited-update now p f rows keep =
    Each-update_where Edited p (stamp now f) Edited-refl
      (λ r h. record {
        same_id = (keep r).same_id;
        same_retries = (keep r).same_retries;
        same_status = (keep r).same_status;
      })
      rows

Edited-refl_queue : (db : Db) → Each Edited db.queue db.queue
Edited-refl_queue db = Each-refl Edited Edited-refl db.queue

module _ (now k : ℕ) (body output instruction by : String) (verdict : Option String) where
  repoint-Edited :
      (r : OutboundRow) (d : ℕ) (db edited : Db)
      → Each Edited db.queue edited.queue
      → Each Edited db.queue
          (tables_after db
            (repoint now r d (insert_revised_draft_decision d output verdict edited))).queue
  unfolding insert_revised_draft_decision
  repoint-Edited r d db edited h = elim (Option-cases (find_row decision_key d edited.decisions)) [
    | inl missing ↦ rw (missing, insert_revised_draft_decision) (Edited-refl_queue db)
    | inr (old, e) ↦
        rw (e, insert_revised_draft_decision)
          (Each-trans Edited Edited-trans db.queue edited.queue _ h (
            Edited-update now (with_id r.id)
              (λ q. record q { decision_id = some edited.next_decision }) edited.queue
              (λ q. record { same_id = refl; same_retries = refl; same_status = refl })))
  ]

  revise_linked-Edited :
      (r : OutboundRow) (db edited : Db) (linked : Option ℕ)
      → Each Edited db.queue edited.queue
      → Each Edited db.queue
          (tables_after db (revise_linked now r output instruction by verdict edited linked)).queue
  unfolding resolve_draft_decision
  revise_linked-Edited r db edited none h = h
  revise_linked-Edited r db edited (some d) h = repoint-Edited r d db _ h

  revise_found-Edited :
      (db : Db) (found : Option OutboundRow)
      → Each Edited db.queue
          (tables_after db (revise_found now k body output instruction by verdict db found)).queue
  revise_found-Edited db none = Edited-refl_queue db
  revise_found-Edited db (some r) = revise_linked-Edited r db _ r.decision_id (
      Edited-update now (open_draft k) (λ q. record q { body = body }) db.queue
        (λ q. record { same_id = refl; same_retries = refl; same_status = refl }))

  repoint-next_id :
      (r : OutboundRow) (d : ℕ) (db edited : Db)
      → edited.next_id ≡ db.next_id
      → (tables_after db
          (repoint now r d (insert_revised_draft_decision d output verdict edited))).next_id
        ≡ db.next_id
  unfolding insert_revised_draft_decision
  repoint-next_id r d db edited h = ground arith

  revise_found-next_id :
      (db : Db) (found : Option OutboundRow)
      → (tables_after db (revise_found now k body output instruction by verdict db found)).next_id
        ≡ db.next_id
  unfolding resolve_draft_decision
  revise_found-next_id db none = refl
  revise_found-next_id db (some r) = elim (Option-cases r.decision_id) [
    | inl unlinked ↦ rw unlinked refl
    | inr (d, e) ↦ rw e (repoint-next_id r d db _ refl)
  ]

  -- A revision rewrites the text of a row and leaves its place in the life cycle.
  pub revise_draft-Quiet :
      (db : Db)
      → QuietTables db (tables_after db (revise_draft now k body output instruction by verdict db))
  unfolding revise_draft
  revise_draft-Quiet db = record {
    rows = Each-map Edited Quiet Edited-Quiet _ _ (revise_found-Edited db (find_draft k db));
    next = revise_found-next_id db (find_draft k db);
  }

-- What an enqueued row is.
pub record Appends (db db' : Db) : Type 0 where
  pub row : OutboundRow
  pub queue : db'.queue ≡ db.queue ++ row ∷ []
  pub key : row.id ≡ db.next_id
  pub next : db'.next_id ≡ db.next_id + 1
  pub untried : row.retry_count ≡ 0

pub enqueue_outbound-Appends :
    (ops : TextOps) (now : ℕ) (input : EnqueueInput) (db : Db)
    → Appends db (enqueue_outbound ops now input db).0
unfolding enqueue_outbound
enqueue_outbound-Appends ops now input db = record {
  row = _;
  queue = refl;
  key = refl;
  next = refl;
  untried = refl;
}

superseded-Appends :
    (ops : TextOps) (now k : ℕ) (o : Option InboxLink) (row : OutboundRow) (db : Db)
    → row.id ≡ db.next_id
    → row.retry_count ≡ 0
    → Appends db (resolve_superseded ops now k o (insert_row row db))
superseded-Appends ops now k none row db key untried = record {
  row = row;
  queue = refl;
  key = key;
  next = refl;
  untried = untried;
}
superseded-Appends ops now k (some o) row db key untried = record {
  row = row;
  queue = refl;
  key = key;
  next = refl;
  untried = untried;
}

checked-Appends :
    (ops : TextOps) (now : ℕ) (input : EnqueueInput) (decision : ℕ) (db : Db) (d : Option Decision)
    → (tables_after db (enqueue_checked ops now input decision db d) ≡ db)
      ⊎ Appends db (tables_after db (enqueue_checked ops now input decision db d))
checked-Appends ops now input decision db none = inl refl
checked-Appends ops now input decision db (some d) = inr (
    superseded-Appends ops now decision (answered_directly db decision)
      (draft_row ops now input decision db) db refl refl)

-- A draft is appended where its decision exists, and nothing changes where it does not.
pub enqueue_draft-Appends :
    (ops : TextOps) (now : ℕ) (input : EnqueueInput) (decision : ℕ) (db : Db)
    → (tables_after db (enqueue_draft ops now input decision db) ≡ db)
      ⊎ Appends db (tables_after db (enqueue_draft ops now input decision db))
unfolding enqueue_draft
enqueue_draft-Appends ops now input decision db =
    checked-Appends ops now input decision db (find_row decision_key decision db.decisions)
