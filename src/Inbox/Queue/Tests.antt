-- ===== src/Inbox/Queue/Tests.antt =====
-- The reads and the claim of src/inbox/inbox-repo.ts at concrete tables.
use agent_orchestrator.Base.{ℕ, Bool, true, false, some, [], ◌∷◌, ◌≡◌, refl, member, find_row}
use agent_orchestrator.Inbox.Rows.{Status, InboxRow, row_id, Db}
use agent_orchestrator.Inbox.Samples.{row_of, table_of, no_json}
use agent_orchestrator.Inbox.Queue.{stamp, claimed, is_claimable, joined, claim_batch}
use agent_orchestrator.Inbox.Queue.Claim.{claimed_ids, IsClaimable, claim_batch-IsClaimable}
use agent_orchestrator.Inbox.Queue.Threads.{PriorInput}

abbrev unlocked : ℕ → Bool
unlocked k = false

abbrev table : Db
table = table_of (row_of 1 Status.pending ∷ row_of 2 Status.processed ∷ [])

claims_one : member 1 (claimed_ids no_json 10 5000 unlocked table) ≡ true
unfolding claim_batch is_claimable joined
claims_one = refl

claim_batch-IsClaimable_example :
    (r : InboxRow) × (find_row row_id 1 table.inbox ≡ some r)
    × IsClaimable 5000 unlocked r
    × (find_row row_id 1 (claim_batch no_json 10 5000 unlocked table).0.inbox
        ≡ some (stamp 5000 claimed r))
claim_batch-IsClaimable_example =
    claim_batch-IsClaimable no_json 10 5000 unlocked table 1 (refl, (refl, tt)) claims_one

abbrev before_2 : PriorInput
before_2 = record {
  instance_id = "wa";
  thread_id = "t";
  before_received_at = 2000;
  before_inbox_id = 2;
  limit = 5;
}
