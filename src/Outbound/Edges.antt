-- ===== src/Outbound/Edges.antt =====
-- The life of a row of agent_outbound_queue outside the drainer's dispatch.
use agent_orchestrator.Base.{◌≡◌, refl, true, arith, Each}
use agent_orchestrator.Outbound.Rows.{Status, OutboundRow, Db, is_open, is_sending}

infix 40 ◌⟶◌
pub data ◌⟶◌ : Status → Status → Type 0 where
  stay : {s : Status} → s ⟶ s
  approve : Status.pending ⟶ Status.approved
  cancel : Status.pending ⟶ Status.cancelled
  recall : Status.approved ⟶ Status.cancelled
  take : Status.approved ⟶ Status.sending
  expire : Status.sending ⟶ Status.failed

-- What an operation other than a dispatch does to one row.
pub record Quiet (r s : OutboundRow) : Type 0 where
  pub same_id : s.id ≡ r.id
  pub same_retries : s.retry_count ≡ r.retry_count
  pub edge : r.status ⟶ s.status

pub Quiet-refl : (r : OutboundRow) → Quiet r r
Quiet-refl r = record { same_id = refl; same_retries = refl; edge = stay }

pub Quiet-id : (r s : OutboundRow) → Quiet r s → s.id ≡ r.id
Quiet-id r s q = q.same_id

pub edge_of_open : {s t : Status} → is_open s ≡ true → Status.pending ⟶ t → s ⟶ t
edge_of_open {s = Status.pending} h e = e
edge_of_open {s = Status.approved} h e = cc
edge_of_open {s = Status.sending} h e = cc
edge_of_open {s = Status.sent} h e = cc
edge_of_open {s = Status.failed} h e = cc
edge_of_open {s = Status.cancelled} h e = cc

pub edge_of_sending : {s t : Status} → is_sending s ≡ true → Status.sending ⟶ t → s ⟶ t
edge_of_sending {s = Status.sending} h e = e
edge_of_sending {s = Status.pending} h e = cc
edge_of_sending {s = Status.approved} h e = cc
edge_of_sending {s = Status.sent} h e = cc
edge_of_sending {s = Status.failed} h e = cc
edge_of_sending {s = Status.cancelled} h e = cc

pub edge_of_approved : {s t : Status} → s ≡ Status.approved → Status.approved ⟶ t → s ⟶ t
edge_of_approved {t} h e = rw h e

-- An update that rewrites nothing but the text of a row.
pub record Edited (r s : OutboundRow) : Type 0 where
  pub same_id : s.id ≡ r.id
  pub same_retries : s.retry_count ≡ r.retry_count
  pub same_status : s.status ≡ r.status

pub Edited-refl : (r : OutboundRow) → Edited r r
Edited-refl r = record { same_id = refl; same_retries = refl; same_status = refl }

pub Edited-trans : (a b c : OutboundRow) → Edited a b → Edited b c → Edited a c
Edited-trans a b c h k = ground arith

pub Edited-Quiet : (r s : OutboundRow) → Edited r s → Quiet r s
Edited-Quiet r s h = record {
  same_id = h.same_id;
  same_retries = h.same_retries;
  edge = rw h.same_status stay;
}

-- What an operation other than a dispatch does to the tables, if it adds no row.
pub record QuietTables (db db' : Db) : Type 0 where
  pub rows : Each Quiet db.queue db'.queue
  pub next : db'.next_id ≡ db.next_id
