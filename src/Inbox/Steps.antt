-- ===== src/Inbox/Steps.antt =====
-- Every sequence of the operations of src/inbox/inbox-repo.ts and src/inbox/ingestion.ts.
mod Tests
use text.Mathlib.Text.{◌==◌ as str_eq}
use text.Mathlib.TextEquality.{eq_iff}
use agent_orchestrator.Base.{
  ℕ, ◌+◌, ◌≤◌, inl, inr, String, Bool, true, false, ◌&&◌, not, Option, some, none, List, [], ◌∷◌,
  ◌++◌, ◌≡◌, refl, arith, HasUniqueKeys, HasUniqueKeys-update_where, HasUniqueKeys-append, find_row,
  find_row-update_where, find_row-append_new, find_row-append_old, find_row_key, member, map, sym,
  &&_true, if◌then◌else◌, All, All-append, All-update_where, length, select, first, update_where,
  Option-cases, Bool-cases, length-select-append, length-select-kept, length-select-none, is_some,
}
use agent_orchestrator.Inbox.Rows.{Status, InboxRow, row_id, Db, JsonReader}
use agent_orchestrator.Inbox.Queue.{
  max_attempts, with_id, stamp, is_claimable, claimed, chosen, claim_batch, is_poison, poisoned,
  fail_stuck, mark_processed, mark_skipped, set_inbox_customer,
}
use agent_orchestrator.Inbox.Queue.Claim.{chosen-IsClaimable}
use agent_orchestrator.Inbox.Ingestion.Laws.{Ingested, kept, filled, added, ingest_inbound-Ingested}
use agent_orchestrator.Inbox.Ingestion.{
  InboundMessage, new_row, same_message, find_message, enriches, enriched, upsert, ingest_inbound,
}

pub data Operation : Db → Db → Type 0 where
  claims :
      (json : JsonReader) (limit now : ℕ) (locked : ℕ → Bool) (db : Db)
      → Operation db (claim_batch json limit now locked db).0
  fails_stuck : (now : ℕ) (db : Db) → Operation db (fail_stuck now db).0
  processes : (now k : ℕ) (db : Db) → Operation db (mark_processed now k db)
  skips : (now k : ℕ) (reason : String) (db : Db) → Operation db (mark_skipped now k reason db)
  identifies :
      (now k : ℕ) (customer : String) (db : Db)
      → Operation db (set_inbox_customer now k customer db)
  ingests :
      (now : ℕ) (stale : Bool) (msg : InboundMessage) (db : Db)
      → Operation db (ingest_inbound now stale msg db).0

pub data Reach : Db → Db → Type 0 where
  here : (db : Db) → Reach db db
  and_then : {db db' db'' : Db} → Reach db db' → Operation db' db'' → Reach db db''

-- The rows that have a message's unique key.
abbrev pub with_message : String → String → InboxRow → Bool
with_message inst message r =
    str_eq r.channel_instance_id inst && str_eq r.channel_message_id message

-- The keys are unique and below the sequence, a row has at most MAX_ATTEMPTS attempts, and a
-- message of a channel instance has at most one row.
pub record Sound (db : Db) : Type 0 where
  pub unique : HasUniqueKeys row_id db.inbox
  pub fresh : (k : ℕ) → db.next_id ≤ k → find_row row_id k db.inbox ≡ none
  pub attempts :
      (k : ℕ) (r : InboxRow) → find_row row_id k db.inbox ≡ some r → r.retry_count ≤ max_attempts
  pub single : (inst message : String) → length (select (with_message inst message) db.inbox) ≤ 1

update_where-Sound :
    (p : InboxRow → Bool) (f : InboxRow → InboxRow) (db : Db)
    → ((r : InboxRow) → (f r).id ≡ r.id)
    → ((inst message : String) (r : InboxRow)
        → with_message inst message (f r) ≡ with_message inst message r)
    → ((k : ℕ) (r : InboxRow)
        → find_row row_id k db.inbox ≡ some r
        → p r ≡ true
        → (f r).retry_count ≤ max_attempts)
    → Sound db
    → Sound (record db { inbox = update_where p f db.inbox })
update_where-Sound p f db keep_id keep_message bounded h = record {
  unique = HasUniqueKeys-update_where row_id p f keep_id db.inbox h.unique;
  fresh = λ k above.
      ground (arith, h.fresh k above, find_row-update_where row_id p f keep_id k db.inbox);
  attempts = λ k r e. elim (Option-cases (find_row row_id k db.inbox)) [
    | inl missing ↦ ground (arith, missing, e, find_row-update_where row_id p f keep_id k db.inbox)
    | inr (s, g) ↦ ground (
      arith,
      g,
      e,
      h.attempts k s g,
      bounded k s g,
      find_row-update_where row_id p f keep_id k db.inbox,
    )
  ];
  single = λ inst message.
      rw (length-select-kept (with_message inst message) p f (keep_message inst message) db.inbox)
        (h.single inst message);
}

-- Another key than the message's selects the same rows; the message's key had none.
length-select-added :
    (now k : ℕ) (msg : InboundMessage) (inst message : String) (rs : List InboxRow)
    → first (select (same_message msg) rs) ≡ none
    → length (select (with_message inst message) rs) ≤ 1
    → length (select (with_message inst message) (rs ++ new_row now k msg ∷ [])) ≤ 1
length-select-added now k msg inst message rs absent h =
    elim (Bool-cases (with_message inst message (new_row now k msg))) [
      | inr other ↦ ground (
        arith,
        other,
        h,
        length-select-append (with_message inst message) rs (new_row now k msg ∷ []),
      )
      | inl same ↦
          let (a, b) =
            &&_true (str_eq msg.instance_id inst) (str_eq msg.provider_message_id message) same in
          let zero_before : length (select (with_message inst message) rs) ≡ 0 =
            rw
              (
                sym ((eq_iff msg.instance_id inst).0 a),
                sym ((eq_iff msg.provider_message_id message).0 b),
              )
              (length-select-none (same_message msg) rs absent) in
          ground (
            arith,
            same,
            zero_before,
            length-select-append (with_message inst message) rs (new_row now k msg ∷ []),
          )
    ]

Ingested-Sound :
    (now : ℕ) (msg : InboundMessage) (db : Db) {db' : Db}
    → Ingested now msg db db'
    → Sound db
    → Sound db'
Ingested-Sound now msg db kept h = h
Ingested-Sound now msg db filled h =
    update_where-Sound (enriches msg) (enriched now msg) db (λ r. refl) (λ i m r. refl)
      (λ k r e m. h.attempts k r e) h
Ingested-Sound now msg db (added absent) h = record {
  unique =
      HasUniqueKeys-append row_id db.inbox (new_row now db.next_id msg)
        (h.fresh db.next_id (omega arith)) h.unique;
  fresh = λ k above. ground (
    arith,
    above,
    h.fresh k (omega (arith, above)),
    find_row-append_new row_id k db.inbox (new_row now db.next_id msg ∷ []),
  );
  attempts = λ k r e. elim (Option-cases (find_row row_id k db.inbox)) [
    | inl missing ↦
        ground (
          arith,
          missing,
          e,
          find_row-append_new row_id k db.inbox (new_row now db.next_id msg ∷ []),
        )
    | inr (s, g) ↦ ground (
      arith,
      g,
      e,
      h.attempts k s g,
      find_row-append_old row_id k db.inbox (new_row now db.next_id msg ∷ []) {r = s},
    )
  ];
  single = λ inst message.
      length-select-added now db.next_id msg inst message db.inbox absent (h.single inst message);
}

Operation-Sound : {db db' : Db} → Operation db db' → Sound db → Sound db'
unfolding claim_batch fail_stuck mark_processed mark_skipped set_inbox_customer
Operation-Sound (claims json limit now locked db) h =
    update_where-Sound (λ r. member r.id (map row_id (chosen limit now locked db)))
      (stamp now claimed) db (λ r. refl) (λ i m r. refl)
      (λ k r e m. omega (
        arith,
        (chosen-IsClaimable limit now locked db k {r = r} h.unique e
            (rw (find_row_key row_id k db.inbox {r = r} e) at m)).attempts_left,
      ))
      h
Operation-Sound (fails_stuck now db) h =
    update_where-Sound (is_poison now) (stamp now poisoned) db (λ r. refl) (λ i m r. refl)
      (λ k r e m. h.attempts k r e) h
Operation-Sound (processes now k db) h =
    update_where-Sound (with_id k)
      (stamp now (λ r. record r { status = Status.processed; processed_at = some now })) db
      (λ r. refl) (λ i m r. refl) (λ k r e m. h.attempts k r e) h
Operation-Sound (skips now k reason db) h =
    update_where-Sound (with_id k)
      (stamp now (λ r. record r {
        status = Status.skipped;
        last_error = some reason;
        processed_at = some now;
      }))
      db (λ r. refl) (λ i m r. refl) (λ k r e m. h.attempts k r e) h
Operation-Sound (identifies now k customer db) h =
    update_where-Sound (with_id k) (stamp now (λ r. record r { customer_id = some customer })) db
      (λ r. refl) (λ i m r. refl) (λ k r e m. h.attempts k r e) h
Operation-Sound (ingests now stale msg db) h =
    Ingested-Sound now msg db (ingest_inbound-Ingested now stale msg db) h

-- However ingestions, claims, marks and the poison pill follow each other, a row never has more
-- attempts than MAX_ATTEMPTS and a message never has a second row, from a table where it is so.
pub Reach-Sound : {db db' : Db} → Reach db db' → Sound db → Sound db'
Reach-Sound (here db) h = h
Reach-Sound (and_then before op) h = Operation-Sound op (Reach-Sound before h)
