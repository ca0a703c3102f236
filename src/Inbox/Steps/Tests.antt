-- ===== src/Inbox/Steps/Tests.antt =====
-- A run of the inbox's operations from a concrete table.
use agent_orchestrator.Base.{ℕ, Bool, false, none, [], ◌∷◌, refl, arith}
use agent_orchestrator.Inbox.Rows.{Status, Db}
use agent_orchestrator.Inbox.Samples.{row_of, table_of, message_of, no_json}
use agent_orchestrator.Inbox.Queue.{claim_batch}
use agent_orchestrator.Inbox.Ingestion.{ingest_inbound}
use agent_orchestrator.Inbox.Steps.{here, and_then, claims, ingests, Sound, Reach-Sound}

abbrev start : Db
start = table_of (row_of 1 Status.pending ∷ [])

abbrev unlocked : ℕ → Bool
unlocked k = false

start-Sound : Sound start
start-Sound = record {
  unique = (refl, tt);
  fresh = λ k above. ground (arith, above);
  attempts = λ k r e. ground (arith, e);
  single = λ inst message. ground arith;
}

abbrev ingested : Db
ingested = (ingest_inbound 9000 false (message_of "m7" none) start).0

Reach-Sound_example : Sound (claim_batch no_json 5 9100 unlocked ingested).0
Reach-Sound_example =
    Reach-Sound
      (and_then (and_then (here start) (ingests 9000 false (message_of "m7" none) start))
        (claims no_json 5 9100 unlocked ingested))
      start-Sound
