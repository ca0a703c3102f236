-- ===== src/Outbound/Drafts/Reads.antt =====
-- The reads of src/outbound/outbound-repo.ts that find a draft with the decision it belongs to.
use text.Mathlib.Text.{◌==◌ as str_eq}
use agent_orchestrator.Base.{
  ℕ, String, Bool, false, ◌&&◌, Option, some, none, has_id, leb, select, first, find_row, order_by,
}
use agent_orchestrator.Outbound.Rows.{OutboundRow, is_open, Decision, decision_key, Db}
use agent_orchestrator.Outbound.Drafts.{find_draft}

-- JOIN agent_decisions ON d.id = q.decision_id
abbrev linked : Option ℕ → Db → Option Decision
linked none db = none
linked (some k) db = find_row decision_key k db.decisions

pub record DraftForRevise : Type 0 where
  pub queue_id : ℕ
  pub decision_id : Option ℕ
  pub customer_id : Option String
  pub prior_body : String
  pub inbox_message_id : Option ℕ
  pub agent_output : Option String

abbrev for_revise : OutboundRow → Option Decision → DraftForRevise
for_revise r d = record {
  queue_id = r.id;
  decision_id = r.decision_id;
  customer_id = r.customer_id;
  prior_body = r.body;
  inbox_message_id = elim d [ none ↦ none | some x ↦ x.inbox_message_id ];
  agent_output = elim d [ none ↦ none | some x ↦ some x.agent_output ];
}

pub get_draft_for_revise : ℕ → Db → Option DraftForRevise
get_draft_for_revise k db = elim (find_draft k db) [
  | none ↦ none
  | some r ↦ some (for_revise r (linked r.decision_id db))
]

pub record OpenDraftForInbox : Type 0 where
  pub queue_id : ℕ
  pub decision_id : Option ℕ
  pub customer_id : Option String
  pub body : String
  pub agent_output : String

abbrev replies_to : ℕ → Option Decision → Bool
replies_to m none = false
replies_to m (some d) = has_id d.inbox_message_id m && str_eq d.decision_type "draft_reply"

abbrev newest_first : OutboundRow → OutboundRow → Bool
newest_first r s = leb s.id r.id

abbrev open_for : OutboundRow → Option Decision → Option OpenDraftForInbox
open_for r none = none
open_for r (some d) = some (record {
  queue_id = r.id;
  decision_id = r.decision_id;
  customer_id = r.customer_id;
  body = r.body;
  agent_output = d.agent_output;
})

pub find_open_draft_by_inbox : ℕ → Db → Option OpenDraftForInbox
find_open_draft_by_inbox m db =
    let matches =
      select (λ r. replies_to m (linked r.decision_id db) && r.is_draft && is_open r.status)
        db.queue in
    elim (first (order_by newest_first matches)) [
      | none ↦ none
      | some r ↦ open_for r (linked r.decision_id db)
    ]
