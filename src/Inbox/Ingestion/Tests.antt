-- ===== src/Inbox/Ingestion/Tests.antt =====
-- The ingestion of src/inbox/ingestion.ts at concrete tables.
use agent_orchestrator.Base.{true, false, some, none, [], ◌∷◌, map, ◌≡◌, refl, find_row}
use agent_orchestrator.Inbox.Rows.{Status, InboxRow, row_id, Db}
use agent_orchestrator.Inbox.Samples.{row_of, table_of, message_of}
use agent_orchestrator.Inbox.Ingestion.{IngestResult, upsert, ingest_inbound}
use agent_orchestrator.Inbox.Ingestion.Laws.{Undisturbed, ingest_again, ingest_inbound-Undisturbed}

abbrev table : Db
table = table_of (row_of 1 Status.processing ∷ [])

new_message :
    (ingest_inbound 9000 false (message_of "m7" none) table).1
    ≡ some (record { id = 10; created = true })
unfolding ingest_inbound upsert
new_message = refl

raced :
    (ingest_inbound 9000 true (message_of "m1" none) table).1
    ≡ some (record { id = 1; created = false })
unfolding ingest_inbound upsert
raced = refl

ingest_again_example :
    (r : IngestResult) × ((ingest_inbound 9000 false (message_of "m7" none) table).1 ≡ some r)
    × ((ingest_inbound 9500 true
          (message_of "m7" none)
          (ingest_inbound 9000 false (message_of "m7" none) table).0).1
        ≡ some (record { id = r.id; created = false }))
    × (map row_id
          (ingest_inbound 9500 true
            (message_of "m7" none)
            (ingest_inbound 9000 false (message_of "m7" none) table).0).0.inbox
        ≡ map row_id (ingest_inbound 9000 false (message_of "m7" none) table).0.inbox)
    × ((ingest_inbound 9500 true
          (message_of "m7" none)
          (ingest_inbound 9000 false (message_of "m7" none) table).0).0.next_id
        ≡ (ingest_inbound 9000 false (message_of "m7" none) table).0.next_id)
ingest_again_example = ingest_again 9000 9500 false true (message_of "m7" none) table

ingest_inbound-Undisturbed_example :
    (s : InboxRow) × (find_row row_id 1
        (ingest_inbound 9000 false (message_of "m1" (some "late")) table).0.inbox
      ≡ some s)
    × Undisturbed (row_of 1 Status.processing) s
ingest_inbound-Undisturbed_example =
    ingest_inbound-Undisturbed 9000 1 false (message_of "m1" (some "late")) table refl
