-- ===== src/Outbound/Drafts/Decided.antt =====
-- Each draft is decided once, and its decision with it; a revision opens a new decision.
use agent_orchestrator.Base.{
  ℕ, String, true, false, Option, some, none, ◌≡◌, refl, arith, find_row, find_row-update_where,
  find_row_key, HasUniqueKeys, first-select, first-select-update_where, ap, ◌∙◌, sym, some_inj,
  first, select,
}
use agent_orchestrator.Outbound.Rows.{
  Status, Outcome, OutboundRow, row_id, Decision, decision_key, Override, edit, reject, Db,
}
use agent_orchestrator.Outbound.Queue.{stamp, update_queue}
use agent_orchestrator.Outbound.Queue.Effects.{row_at}
use agent_orchestrator.Outbound.Drafts.{
  Tx, committed, rolled_back, DraftResolution, open_draft, find_draft, open_with, flip_found,
  flip_draft_and_resolve, resolution, resolve_linked, resolve_draft_decision, approve_row,
  approve_draft, replace_draft_body_and_approve, cancel_draft, get_draft_for_edit,
}

-- The founder's three ways to decide a draft.
pub data Verdict : Type 0 where
  accept : (by : String) → Verdict
  amend : (body by : String) → Verdict
  refuse : (by : String) → Verdict

unfoldable pub decide : Verdict → ℕ → ℕ → Db → Tx DraftResolution
decide (accept by) now k = approve_draft now k by
decide (amend body by) now k = replace_draft_body_and_approve now k body by
decide (refuse by) now k = cancel_draft now k by

-- What a decision makes of the row, and of the audit record.
abbrev pub decided_row : Verdict → ℕ → OutboundRow → OutboundRow
decided_row (accept by) now r = approve_row now by r
decided_row (amend body by) now r = record (approve_row now by r) { body = body }
decided_row (refuse by) now r = record r { status = Status.cancelled }

abbrev pub outcome_of : Verdict → Outcome
outcome_of (accept by) = Outcome.accepted
outcome_of (amend body by) = Outcome.modified
outcome_of (refuse by) = Outcome.rejected

abbrev pub override_of : Verdict → Option Override
override_of (accept by) = none
override_of (amend body by) = some (edit by body)
override_of (refuse by) = some (reject by)

decide-flip :
    (v : Verdict) (now k : ℕ) (db : Db)
    → decide v now k db
      ≡ flip_draft_and_resolve now k (decided_row v now) (outcome_of v) (override_of v) db
unfolding decide approve_draft replace_draft_body_and_approve cancel_draft
decide-flip (accept by) now k db = refl
decide-flip (amend body by) now k db = refl
decide-flip (refuse by) now k db = refl

-- A draft that is not open rolls back; one that is open commits.
pub decide-closed :
    (v : Verdict) (now k : ℕ) (db : Db) → find_draft k db ≡ none → decide v now k db ≡ rolled_back
unfolding flip_draft_and_resolve
decide-closed v now k db e = decide-flip v now k db ∙ rw e refl

pub decide-open :
    (v : Verdict) (now k : ℕ) (db : Db) {r : OutboundRow}
    → find_draft k db ≡ some r
    → (res : DraftResolution) × (after : Db) × (decide v now k db ≡ committed res after)
unfolding flip_draft_and_resolve
decide-open v now k db {r} e = (
  resolution r,
  resolve_linked now r.decision_id (outcome_of v) (override_of v)
      (update_queue now (open_draft k) (decided_row v now) db),
  decide-flip v now k db ∙ rw e refl,
)

pub get_draft_for_edit-open :
    (k : ℕ) (db : Db) {r : OutboundRow}
    → find_draft k db ≡ some r
    → get_draft_for_edit k db ≡ some (resolution r)
unfolding get_draft_for_edit
get_draft_for_edit-open k db e = rw (e, get_draft_for_edit) refl

decided_row-closed :
    (v : Verdict) (now now' k : ℕ) (r : OutboundRow)
    → open_draft k (stamp now' (decided_row v now) r) ≡ false
decided_row-closed (accept by) now now' k r = ground arith
decided_row-closed (amend body by) now now' k r = ground arith
decided_row-closed (refuse by) now now' k r = ground arith

decided_row-id : (v : Verdict) (now : ℕ) (r : OutboundRow) → (decided_row v now r).id ≡ r.id
decided_row-id (accept by) now r = refl
decided_row-id (amend body by) now r = refl
decided_row-id (refuse by) now r = refl

linked-queue :
    (now : ℕ) (d : Option ℕ) (outcome : Outcome) (override : Option Override) (db : Db)
    → (resolve_linked now d outcome override db).queue ≡ db.queue
unfolding resolve_draft_decision
linked-queue now none outcome override db = refl
linked-queue now (some d) outcome override db = refl

committed_inj :
    {res res' : DraftResolution} {db db' : Db} → committed res db ≡ committed res' db' → db ≡ db'
committed_inj h = cc

-- What a committed decision leaves.
flipped :
    (v : Verdict) (now k : ℕ) (db db' : Db) (res : DraftResolution)
    → decide v now k db ≡ committed res db'
    → (r : OutboundRow) × (find_draft k db ≡ some r)
      × (db'
          ≡ resolve_linked now r.decision_id
              (outcome_of v)
              (override_of v)
              (update_queue now (open_draft k) (decided_row v now) db))
unfolding flip_draft_and_resolve
flipped v now k db db' res h = go (find_draft k db) (sym (decide-flip v now k db) ∙ h)
  where
    go :
        (found : Option OutboundRow)
        → flip_found now k (decided_row v now) (outcome_of v) (override_of v) db found
          ≡ committed res db'
        → (r : OutboundRow) × (found ≡ some r)
          × (db'
              ≡ resolve_linked now r.decision_id
                  (outcome_of v)
                  (override_of v)
                  (update_queue now (open_draft k) (decided_row v now) db))
    go none e = cc
    go (some r) e = (r, refl, sym (committed_inj e))

-- A draft is decided at most once: after an approval, an edit or a rejection has committed, every
-- later one on the same draft finds nothing and rolls back.
pub decide_once :
    (v v' : Verdict) (now now' k : ℕ) (db db' : Db) (res : DraftResolution)
    → decide v now k db ≡ committed res db'
    → decide v' now' k db' ≡ rolled_back
unfolding flip_draft_and_resolve
decide_once v v' now now' k db db' res h =
    let (r, found, after) = flipped v now k db db' res h in
    let queue =
      ap (λ d. first (select (open_draft k) d.queue)) after
      ∙ ap (λ q. first (select (open_draft k) q)) (linked-queue now r.decision_id _ _ _)
      ∙ first-select-update_where (open_draft k) (stamp now (decided_row v now))
          (λ q e. decided_row-closed v now now k q) db.queue in
    decide-flip v' now' k db'
    ∙ ap (flip_found now' k (decided_row v' now') (outcome_of v') (override_of v') db') queue

open_draft-key : (k : ℕ) (r : OutboundRow) → open_draft k r ≡ true → r.id ≡ k
open_draft-key k r h = ground arith

open_with-key : (k : ℕ) (d : Decision) → open_with k d ≡ true → d.id ≡ k
open_with-key k d h = ground arith

-- The audit record after its draft was decided.
abbrev pub resolved : Verdict → ℕ → Decision → Decision
resolved v now x = record x {
  outcome = outcome_of v;
  human_override = override_of v;
  resolved_at = some now;
}

-- The queue and the audit record never diverge: a committed approval, edit or rejection of a draft
-- whose decision is pending moves the row and resolves that decision in the same transaction, to
-- the outcome that the verdict stands for. Queue keys are unique.
pub decide_agrees :
    (v : Verdict) (now k : ℕ) (db db' : Db) (res : DraftResolution) (r : OutboundRow) (d : ℕ)
    (x : Decision)
    → HasUniqueKeys row_id db.queue
    → decide v now k db ≡ committed res db'
    → row_at k db ≡ some r
    → r.decision_id ≡ some d
    → find_row decision_key d db.decisions ≡ some x
    → x.outcome ≡ Outcome.pending
    → (row_at k db' ≡ some (stamp now (decided_row v now) r))
      × (find_row decision_key d db'.decisions ≡ some (resolved v now x))
unfolding resolve_draft_decision
decide_agrees v now k db db' res r d x u h e linked ex pending =
    let (q, found, after) = flipped v now k db db' res h in
    let (at, isopen) = first-select row_id k (open_draft k) (open_draft-key k) db.queue u found in
    let same : q ≡ r = some_inj (sym at ∙ e) in
    let rows =
      find_row-update_where row_id (open_draft k) (stamp now (decided_row v now))
        (decided_row-id v now) k db.queue in
    let audit =
      find_row-update_where decision_key (open_with d) (resolved v now) (λ y. refl) d
        db.decisions in
    let keyed = find_row_key decision_key d db.decisions ex in
    (
      rw (after, same, linked) (ground (arith, rows)),
      rw (after, same, linked) (ground (arith, audit)),
    )
