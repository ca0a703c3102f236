-- ===== src/Inbox/Ingestion/Laws.antt =====
-- What an ingestion of src/inbox/ingestion.ts does to the table, and what it answers.
use text.Mathlib.TextPositions.{eq_refl}
use agent_orchestrator.Base.{
  first-select-added, ℕ, ◌+◌, inl, inr, Bool, true, false, some, none, List, [], ◌∷◌, ◌++◌, map,
  map-update_where, ◌≡◌, refl, arith, ◌⊎◌, find_row, find_row-update_where, find_row-append_old,
  if◌then◌else◌, select, first, update_where, Option-cases, Bool-cases, is_some,
}
use agent_orchestrator.Inbox.Rows.{InboxRow, row_id, Db}
use agent_orchestrator.Inbox.Ingestion.{
  InboundMessage, IngestResult, new_row, same_message, find_message, enriches, enriched, upsert,
  ingest_inbound,
}

-- What an ingestion makes of the table: nothing, the enrichment of the message's row, or one new row
-- for a message that has none.
pub data Ingested (now : ℕ) (msg : InboundMessage) (db : Db) : Db → Type 0 where
  kept : Ingested now msg db db
  filled :
      Ingested now msg db
        (record db { inbox = update_where (enriches msg) (enriched now msg) db.inbox })
  added :
      find_message msg db ≡ none
      → Ingested now msg db (record db {
        inbox = db.inbox ++ new_row now db.next_id msg ∷ [];
        next_id = db.next_id + 1;
      })

pub ingest_inbound-Ingested :
    (now : ℕ) (stale : Bool) (msg : InboundMessage) (db : Db)
    → Ingested now msg db (ingest_inbound now stale msg db).0
unfolding ingest_inbound upsert
ingest_inbound-Ingested now stale msg db = elim (Option-cases (find_message msg db)) [
  | inl absent ↦ rw absent (added absent)
  | inr (r, e) ↦ elim (Bool-cases (is_some r.body)) [
    | inl has_body ↦ rw (e, has_body) kept
    | inr bare ↦ rw (e, bare) filled
  ]
]

module _ (msg : InboundMessage) where
  pub same_message-new_row : (now k : ℕ) → same_message msg (new_row now k msg) ≡ true
  same_message-new_row now k =
      ground (arith, eq_refl msg.instance_id, eq_refl msg.provider_message_id)

  -- A row of the message is still found after its enrichment.
  first-select-filled :
      (now : ℕ) (rs : List InboxRow) {r : InboxRow}
      → first (select (same_message msg) rs) ≡ some r
      → first (select (same_message msg) (update_where (enriches msg) (enriched now msg) rs))
        ≡ some (if is_some r.body then r else enriched now msg r)
  first-select-filled now [] e = cc
  first-select-filled now (x ∷ rs) {r} e = ground (arith, first-select-filled now rs {r = r})

  -- A message that has a row is answered with that row's id, and still has it.
  ingest_inbound_found :
      (now : ℕ) (stale : Bool) (db : Db) {r : InboxRow}
      → find_message msg db ≡ some r
      → ((ingest_inbound now stale msg db).1 ≡ some (record { id = r.id; created = false }))
        × (find_message msg (ingest_inbound now stale msg db).0
            ≡ some (if is_some r.body then r else enriched now msg r))
  unfolding ingest_inbound upsert
  ingest_inbound_found now stale db {r} e = elim (Bool-cases (is_some r.body)) [
    | inl has_body ↦ elim (Bool-cases stale) [
      | inl hidden ↦ (rw (e, has_body, hidden, e) refl, rw (e, has_body) e)
      | inr seen ↦ (rw (e, has_body, seen) refl, rw (e, has_body) e)
    ]
    | inr bare ↦ (
      rw (e, bare) refl,
      rw (e, bare) (ground (arith, bare, first-select-filled now db.inbox {r = r} e)),
    )
  ]

  ingest_inbound_new :
      (now : ℕ) (stale : Bool) (db : Db)
      → find_message msg db ≡ none
      → ((ingest_inbound now stale msg db).1 ≡ some (record { id = db.next_id; created = true }))
        × (find_message msg (ingest_inbound now stale msg db).0 ≡ some (new_row now db.next_id msg))
  unfolding ingest_inbound upsert
  ingest_inbound_new now stale db absent = (
    rw absent refl,
    rw absent (
        first-select-added (same_message msg) db.inbox (new_row now db.next_id msg) absent
          (same_message-new_row now db.next_id)),
  )

  -- An ingestion of a message that has a row leaves the keys of the table as they were.
  ingest_inbound-keys :
      (now : ℕ) (stale : Bool) (db : Db) {r : InboxRow}
      → find_message msg db ≡ some r
      → (map row_id (ingest_inbound now stale msg db).0.inbox ≡ map row_id db.inbox)
        × ((ingest_inbound now stale msg db).0.next_id ≡ db.next_id)
  unfolding ingest_inbound upsert
  ingest_inbound-keys now stale db {r} e = elim (Bool-cases (is_some r.body)) [
    | inl has_body ↦ (rw (e, has_body) refl, rw (e, has_body) refl)
    | inr bare ↦ (
      rw (e, bare) (map-update_where row_id (enriches msg) (enriched now msg) (λ s. refl) db.inbox),
      rw (e, bare) refl,
    )
  ]

-- An ingestion always answers, also under a stale snapshot; a second delivery of the message answers
-- with the same id and creates no row: the keys of the rows, in order, and the next key are those
-- after the first delivery.
pub ingest_again :
    (now now' : ℕ) (stale stale' : Bool) (msg : InboundMessage) (db : Db)
    → (r : IngestResult) × ((ingest_inbound now stale msg db).1 ≡ some r)
      × ((ingest_inbound now' stale' msg (ingest_inbound now stale msg db).0).1
          ≡ some (record { id = r.id; created = false }))
      × (map row_id (ingest_inbound now' stale' msg (ingest_inbound now stale msg db).0).0.inbox
          ≡ map row_id (ingest_inbound now stale msg db).0.inbox)
      × ((ingest_inbound now' stale' msg (ingest_inbound now stale msg db).0).0.next_id
          ≡ (ingest_inbound now stale msg db).0.next_id)
ingest_again now now' stale stale' msg db = elim (Option-cases (find_message msg db)) [
  | inl absent ↦
      let (answer, found) = ingest_inbound_new msg now stale db absent in
      (
        record { id = db.next_id; created = true },
        answer,
        (ingest_inbound_found msg now' stale' (ingest_inbound now stale msg db).0
            {r = new_row now db.next_id msg} found).0,
        (ingest_inbound-keys msg now' stale' (ingest_inbound now stale msg db).0
            {r = new_row now db.next_id msg} found).0,
        (ingest_inbound-keys msg now' stale' (ingest_inbound now stale msg db).0
            {r = new_row now db.next_id msg} found).1,
      )
  | inr (r, e) ↦
      let (answer, found) = ingest_inbound_found msg now stale db {r = r} e in
      let again =
        (ingest_inbound_found msg now' stale' (ingest_inbound now stale msg db).0
          {r = if is_some r.body then r else enriched now msg r} found).0 in
      (
        record { id = r.id; created = false },
        answer,
        ground (arith, again),
        (ingest_inbound-keys msg now' stale' (ingest_inbound now stale msg db).0
            {r = if is_some r.body then r else enriched now msg r} found).0,
        (ingest_inbound-keys msg now' stale' (ingest_inbound now stale msg db).0
            {r = if is_some r.body then r else enriched now msg r} found).1,
      )
]

-- What an ingestion leaves of a row that was there before it.
pub record Undisturbed (r s : InboxRow) : Type 0 where
  pub same_status : s.status ≡ r.status
  pub same_customer : s.customer_id ≡ r.customer_id
  pub same_retries : s.retry_count ≡ r.retry_count
  pub same_processed : s.processed_at ≡ r.processed_at
  pub same_if_read : (is_some r.body ≡ false) ⊎ (s ≡ r)

Undisturbed-refl : (r : InboxRow) → Undisturbed r r
Undisturbed-refl r = record {
  same_status = refl;
  same_customer = refl;
  same_retries = refl;
  same_processed = refl;
  same_if_read = inr refl;
}

find_row-Ingested :
    (now k : ℕ) (msg : InboundMessage) (db : Db) {db' : Db} {r : InboxRow}
    → Ingested now msg db db'
    → find_row row_id k db.inbox ≡ some r
    → (s : InboxRow) × (find_row row_id k db'.inbox ≡ some s) × Undisturbed r s
find_row-Ingested now k msg db {r = r} kept e = (r, e, Undisturbed-refl r)
find_row-Ingested now k msg db {r = r} (added absent) e = (
  r,
  find_row-append_old row_id k db.inbox (new_row now db.next_id msg ∷ []) {r = r} e,
  Undisturbed-refl r,
)
find_row-Ingested now k msg db {r = r} filled e = elim (Bool-cases (enriches msg r)) [
  | inr other ↦ (
    r,
    ground (
      arith,
      other,
      e,
      find_row-update_where row_id (enriches msg) (enriched now msg) (λ r. refl) k db.inbox,
    ),
    Undisturbed-refl r,
  )
  | inl bare ↦ (
    enriched now msg r,
    ground (
      arith,
      bare,
      e,
      find_row-update_where row_id (enriches msg) (enriched now msg) (λ r. refl) k db.inbox,
    ),
    record {
      same_status = refl;
      same_customer = refl;
      same_retries = refl;
      same_processed = refl;
      same_if_read = inl (ground (arith, bare));
    },
  )
]

-- An ingestion never disturbs triage: a row that was there keeps its status, customer, attempts and
-- time of processing, and a row that has its body is left exactly as it was.
pub ingest_inbound-Undisturbed :
    (now k : ℕ) (stale : Bool) (msg : InboundMessage) (db : Db) {r : InboxRow}
    → find_row row_id k db.inbox ≡ some r
    → (s : InboxRow) × (find_row row_id k (ingest_inbound now stale msg db).0.inbox ≡ some s)
      × Undisturbed r s
ingest_inbound-Undisturbed now k stale msg db {r} e =
    find_row-Ingested now k msg db {r = r} (ingest_inbound-Ingested now stale msg db) e
