-- ===== src/Outbound/Drafts/Revised.antt =====
-- A revision keeps the draft open and hands it to a new decision.
use agent_orchestrator.Base.{
  ℕ, ◌+◌, String, true, Option, some, none, [], ◌∷◌, ◌++◌, ◌≡◌, refl, arith, find_row,
  find_row-update_where, find_row_key, find_row-append_old, find_row-append_new, HasUniqueKeys,
  first-select-find_row, update_where, ◌∙◌,
}
use agent_orchestrator.Outbound.Rows.{
  Outcome, OutboundRow, row_id, Decision, decision_key, revise, Db,
}
use agent_orchestrator.Outbound.Queue.{stamp, update_queue, with_id}
use agent_orchestrator.Outbound.Queue.Effects.{row_at}
use agent_orchestrator.Outbound.Drafts.{
  committed, open_draft, open_with, revise_draft, revised_decision, insert_revised_draft_decision,
  resolve_draft_decision,
}

open_draft-key : (k : ℕ) (r : OutboundRow) → open_draft k r ≡ true → r.id ≡ k
open_draft-key k r h = ground arith

module _ (now k : ℕ) (body output instruction by : String) (verdict : Option String) (db : Db)
    (r : OutboundRow) (d : ℕ) (x : Decision) where
  -- The old decision, resolved.
  abbrev pub superseded : Decision
  superseded = record x {
    outcome = Outcome.revised;
    human_override = some (revise by instruction);
    resolved_at = some now;
  }

  abbrev pub rewritten : OutboundRow
  rewritten = record r { body = body; decision_id = some db.next_decision; updated_at = now }

  abbrev resolved_db : Db
  resolved_db =
      resolve_draft_decision now d Outcome.revised (some (revise by instruction))
        (update_queue now (open_draft k) (λ q. record q { body = body }) db)

  old_resolved :
      find_row decision_key d db.decisions ≡ some x
      → x.outcome ≡ Outcome.pending
      → find_row decision_key d resolved_db.decisions ≡ some superseded
  unfolding resolve_draft_decision
  old_resolved ex pending =
      let keyed = find_row_key decision_key d db.decisions ex in
      ground (
        arith,
        find_row-update_where decision_key (open_with d)
            (λ y. record y {
              outcome = Outcome.revised;
              human_override = some (revise by instruction);
              resolved_at = some now;
            })
            (λ y. refl) d db.decisions,
      )

  new_fresh :
      find_row decision_key db.next_decision db.decisions ≡ none
      → find_row decision_key db.next_decision resolved_db.decisions ≡ none
  unfolding resolve_draft_decision
  new_fresh fresh = ground (
    arith,
    find_row-update_where decision_key (open_with d)
        (λ y. record y {
          outcome = Outcome.revised;
          human_override = some (revise by instruction);
          resolved_at = some now;
        })
        (λ y. refl) db.next_decision db.decisions,
  )

  abbrev revised_db : Db
  revised_db =
      update_queue now (with_id k) (λ q. record q { decision_id = some db.next_decision })
        (record resolved_db {
          decisions =
              resolved_db.decisions ++ revised_decision resolved_db superseded output verdict ∷ [];
          next_decision = db.next_decision + 1;
        })

  -- The transaction commits, for an open draft that is linked to an existing decision.
  revise_commits :
      HasUniqueKeys row_id db.queue
      → row_at k db ≡ some r
      → open_draft k r ≡ true
      → r.decision_id ≡ some d
      → find_row decision_key d db.decisions ≡ some x
      → x.outcome ≡ Outcome.pending
      → revise_draft now k body output instruction by verdict db
        ≡ committed
            (record {
              queue_id = k;
              old_decision_id = some d;
              new_decision_id = some db.next_decision;
              customer_id = r.customer_id;
            })
            revised_db
  unfolding revise_draft insert_revised_draft_decision resolve_draft_decision
  revise_commits u e isopen linked ex pending =
      let found =
        first-select-find_row row_id k (open_draft k) (open_draft-key k) db.queue e isopen u in
      let same = open_draft-key k r isopen in
      let old = old_resolved ex pending in rw (found, linked) (ground (arith, old))

  revised_row : row_at k db ≡ some r → open_draft k r ≡ true → row_at k revised_db ≡ some rewritten
  unfolding resolve_draft_decision
  revised_row e isopen =
      let rows =
        find_row-update_where row_id (open_draft k) (stamp now (λ q. record q { body = body }))
          (λ q. refl) k db.queue in
      let again =
        find_row-update_where row_id (with_id k)
          (stamp now (λ q. record q { decision_id = some db.next_decision })) (λ q. refl) k
          (update_where (open_draft k) (stamp now (λ q. record q { body = body })) db.queue) in
      ground (arith, rows, again)

  -- Revising an open draft whose decision is pending commits: the row keeps its place as an open
  -- draft with the new text and now belongs to a new decision; the old decision is resolved to
  -- `revised`; the new one is pending and copies the customer and the inbound message. Queue keys
  -- are unique and the decisions' sequence is ahead of its table.
  pub revise_draft_keeps_open :
      HasUniqueKeys row_id db.queue
      → find_row decision_key db.next_decision db.decisions ≡ none
      → row_at k db ≡ some r
      → open_draft k r ≡ true
      → r.decision_id ≡ some d
      → find_row decision_key d db.decisions ≡ some x
      → x.outcome ≡ Outcome.pending
      → (db' : Db) × (revise_draft now k body output instruction by verdict db
          ≡ committed
              (record {
                queue_id = k;
                old_decision_id = some d;
                new_decision_id = some db.next_decision;
                customer_id = r.customer_id;
              })
              db')
        × (row_at k db' ≡ some rewritten)
        × (open_draft k rewritten ≡ true)
        × (find_row decision_key d db'.decisions ≡ some superseded)
        × (find_row decision_key db.next_decision db'.decisions
            ≡ some (record {
              id = db.next_decision;
              customer_id = x.customer_id;
              inbox_message_id = x.inbox_message_id;
              decision_type = "draft_reply";
              agent_output = output;
              verifier_verdict = verdict;
              human_override = none;
              outcome = Outcome.pending;
              resolved_at = none;
              source_outbound_inbox_id = none;
            }))
  unfolding resolve_draft_decision
  revise_draft_keeps_open u fresh e isopen linked ex pending = (
    revised_db,
    revise_commits u e isopen linked ex pending,
    revised_row e isopen,
    isopen,
    find_row-append_old decision_key d resolved_db.decisions _ (old_resolved ex pending),
    find_row-append_new decision_key db.next_decision resolved_db.decisions _ (new_fresh fresh)
        ∙ ground arith,
  )
