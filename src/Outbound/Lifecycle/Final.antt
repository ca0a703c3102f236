-- ===== src/Outbound/Lifecycle/Final.antt =====
-- A row of agent_outbound_queue that is final and that no session has is not sent again.
use agent_orchestrator.Base.{
  ℕ, Bool, true, false, some, List, ◌∷◌, ◌++◌, ◌≡◌, ◌≢◌, refl, arith, inl, inr, sym, ◌∙◌,
  Bool-cases, member, ==_iff,
}
use agent_orchestrator.Outbound.Rows.{Status, OutboundRow, Db}
use agent_orchestrator.Outbound.Edges.{◌⟶◌, stay, approve, cancel, recall, take, expire}
use agent_orchestrator.Outbound.Queue.{ClaimedOutbound}
use agent_orchestrator.Outbound.Queue.Effects.{
  row_at, mark_sent-OneRow, defer_until-OneRow, fail_review-OneRow, retry_later-OneRow,
}
use agent_orchestrator.Outbound.Queue.Claim.{
  claimed_ids, claim_due-IsEligible, claim_due_leaves_rest,
}
use agent_orchestrator.Outbound.Drainer.{max_send_attempts, message_of}
use agent_orchestrator.Outbound.Lifecycle.{
  PutsBack, parks, bars, Records, marks, reviews, retries, Fleet, Step, tables, claims, puts_back,
  hands_over, records, drops_held, drops_flying, Reach, here, next,
}
use agent_orchestrator.Outbound.Lifecycle.Sound.{attempts, times, IsSound, Appends-old}
use agent_orchestrator.Outbound.Lifecycle.Flight.{
  attempts-append, times-cons, times-out, times-claimed, OneRow-apart,
}
use agent_orchestrator.Outbound.Lifecycle.Attempts.{TableStep-cases, Reach-IsSound}

abbrev is_final : Status → Bool
is_final Status.sent = true
is_final Status.failed = true
is_final Status.cancelled = true
is_final _ = false

-- The row is there with this status, no session has it, and it was handed over so often.
abbrev pub Rests : ℕ → Status → ℕ → Fleet → Type 0
Rests k status n s =
    (r : OutboundRow) × (row_at k s.db ≡ some r)
    × (r.status ≡ status)
    × (times k s.held ≡ 0)
    × (times k s.flying ≡ 0)
    × (attempts k s.dispatched ≡ n)

edge_final : {s t : Status} → s ⟶ t → is_final s ≡ true → t ≡ s
edge_final stay h = refl
edge_final approve h = cc
edge_final cancel h = cc
edge_final recall h = cc
edge_final take h = cc
edge_final expire h = cc

module _ (k : ℕ) (before : List ClaimedOutbound) (row : ClaimedOutbound)
    (after : List ClaimedOutbound) {rows : List ClaimedOutbound} (e : rows ≡ before ++ row ∷ after)
    (free : times k rows ≡ 0) where
  other_row : k ≢ row.id
  other_row p = ground (arith, times-out k before row after e, free, ==_iff row.id k, sym p)

  still_free : times k (before ++ after) ≡ 0
  still_free = omega (arith, times-out k before row after e, free)

PutsBack-apart :
    (row : ClaimedOutbound) (db : Db) {db' : Db}
    → PutsBack row db db'
    → (k : ℕ) → k ≢ row.id
    → row_at k db' ≡ row_at k db
PutsBack-apart row db (parks now t) k ne =
    OneRow-apart row.id _ db _ (defer_until-OneRow now row.id db t) k ne
PutsBack-apart row db (bars now reason) k ne =
    OneRow-apart row.id _ db _ (fail_review-OneRow now row.id db reason false) k ne

Records-apart :
    (row : ClaimedOutbound) (db : Db) {db' : Db}
    → Records row db db'
    → (k : ℕ) → k ≢ row.id
    → row_at k db' ≡ row_at k db
Records-apart row db (marks now provider) k ne =
    OneRow-apart row.id _ db _ (mark_sent-OneRow now row.id db provider) k ne
Records-apart row db (reviews now reason possibly) k ne =
    OneRow-apart row.id _ db _ (fail_review-OneRow now row.id db reason possibly) k ne
Records-apart row db (retries now reason backoff) k ne =
    OneRow-apart row.id _ db _ (retry_later-OneRow now row.id db reason max_send_attempts backoff) k
      ne

Step-Rests :
    {s t : Fleet} (k : ℕ) (status : Status) (n : ℕ)
    → is_final status ≡ true
    → IsSound s
    → Step s t
    → Rests k status n s
    → Rests k status n t
Step-Rests {s} k status n final sound (tables {db'} st) (r, e, same, held, flying, count) =
    elim (TableStep-cases s.db db' sound.unique st) [
      | inl q ↦
          let (t, e', moved) = q.onward k r e in
          (t, e', edge_final moved.edge (rw same final) ∙ same, held, flying, count)
      | inr a ↦ (r, Appends-old s.db db' a k r e, same, held, flying, count)
    ]
Step-Rests {s} k status n final sound (claims limit types now locked)
      (r, e, same, held, flying, count) =
    elim (Bool-cases (member k (claimed_ids limit types now locked s.db))) [
      | inr left ↦ (
        r,
        claim_due_leaves_rest limit types now locked s.db k left ∙ e,
        same,
        ground (arith, times-claimed s sound limit types now locked k, left, held),
        flying,
        count,
      )
      | inl taken ↦
          let (q, e', eligible, at) =
            claim_due-IsEligible limit types now locked s.db k sound.unique taken in
          absurd (cc (sym e ∙ e', eligible.approved, same, final))
    ]
Step-Rests {s} k status n final sound (puts_back before row after e w)
      (r, f, same, held, flying, count) =
    (
      r,
      PutsBack-apart row s.db w k (other_row k before row after e held) ∙ f,
      same,
      still_free k before row after e held,
      flying,
      count,
    )
Step-Rests {s} k status n final sound (hands_over before row after e)
      (r, f, same, held, flying, count) =
    let apart = other_row k before row after e held in
    (
      r,
      f,
      same,
      still_free k before row after e held,
      ground (arith, times-cons k row s.flying, flying, ==_iff row.id k, apart),
      ground (
        arith,
        attempts-append k s.dispatched row.id (message_of row),
        count,
        ==_iff row.id k,
        apart,
      ),
    )
Step-Rests {s} k status n final sound (records before row after e w)
      (r, f, same, held, flying, count) =
    (
      r,
      Records-apart row s.db w k (other_row k before row after e flying) ∙ f,
      same,
      held,
      still_free k before row after e flying,
      count,
    )
Step-Rests {s} k status n final sound (drops_held before row after e)
      (r, f, same, held, flying, count) =
    (r, f, same, still_free k before row after e held, flying, count)
Step-Rests {s} k status n final sound (drops_flying before row after e)
      (r, f, same, held, flying, count) =
    (r, f, same, held, still_free k before row after e flying, count)

-- However they interleave, a row that is sent, failed or cancelled and that no session has keeps its
-- status, no session has it again, and its message is not handed to an adapter again; the start is as
-- for `attempts-le-three`. (A row that a session still has may be failed by a reclaim and be sent.)
pub final_never_sent_again :
    {s t : Fleet} (k : ℕ) (status : Status) (n : ℕ)
    → is_final status ≡ true
    → IsSound s
    → Reach s t
    → Rests k status n s
    → Rests k status n t
final_never_sent_again k status n final sound here h = h
final_never_sent_again k status n final sound (next reach st) h =
    Step-Rests k status n final (Reach-IsSound sound reach) st
      (final_never_sent_again k status n final sound reach h)
