-- ===== src/Triage/DraftReview/Replays.antt =====
-- Taps and messages that are delivered again to src/triage/draft-review.ts.
use agent_orchestrator.Base.{
  ℕ, ◌+◌, String, str_eq, Bool, true, false, ◌||◌, Option, some, none, ◌≡◌, ◌∙◌, ◌⊎◌, refl, inl,
  inr, leb, Bool-cases, Option-cases,
}
use agent_orchestrator.Base.Json.{JsonCodec, Reads}
use agent_orchestrator.AppState.Store.{KeyStore}
use agent_orchestrator.Outbound.Rows.{Db, OutboundRow}
use agent_orchestrator.Outbound.Drafts.{
  Tx, committed, rolled_back, find_draft, tables_after, DraftResolution,
  replace_draft_body_and_approve,
}
use agent_orchestrator.Outbound.Drafts.Decided.{
  Verdict, accept, amend, refuse, decide, decide_once, decide-closed, decide-open,
  get_draft_for_edit-open,
}
use agent_orchestrator.Triage.Markers.{draft_edit, marker_json, marker_ttl_ms, arm, read, clear}
use agent_orchestrator.Triage.Markers.Reading.{read-arm, read-clear}
use agent_orchestrator.Triage.DraftReview.{
  Note, edit_prompt, draft_approved, draft_rejected, draft_edited, Desk, DecisionEvent, truthy,
  tell, after_flip, draft_decision, after_replace, replaced, draft_edit_message,
}

module _ {ℓ} {S : Type ℓ} where
  tell-db : (n : Note) (w : Desk S) (c : Option String) → (tell n w c).db ≡ w.db
  tell-db n w none = refl
  tell-db n w (some c) = refl

  tell-state : (n : Note) (w : Desk S) (c : Option String) → (tell n w c).state ≡ w.state
  tell-state n w none = refl
  tell-state n w (some c) = refl

  flipped_again :
      (n : Note) (v : Verdict) (now later k : ℕ) (w : Desk S)
      → after_flip n
          (after_flip n w (decide v now k w.db))
          (decide v later k (after_flip n w (decide v now k w.db)).db)
        ≡ after_flip n w (decide v now k w.db)
  flipped_again n v now later k w = elim (Option-cases (find_draft k w.db)) [
    | inl closed ↦ rw (decide-closed v now k w.db closed, decide-closed v later k w.db closed) refl
    | inr (r, found) ↦
        let (res, after, e) = decide-open v now k w.db {r = r} found in
        rw
          (
            e,
            tell-db n (record w { db = after }) (truthy res.customer_id),
            decide_once v v now later k w.db after res e,
          )
          refl
  ]

  module _ (store : KeyStore S) (json : JsonCodec) (number_of : String → ℕ) where
    -- An approval or a rejection that is delivered again, at any time, changes no table and no marker
    -- and tells the founder nothing.
    decided_again :
        (revises : Bool) (d : DecisionEvent) (now later : ℕ) (w : Desk S)
        → (str_eq d.option_id "da" || str_eq d.option_id "dr") ≡ true
        → draft_decision store json number_of later revises d
            (draft_decision store json number_of now revises d w)
          ≡ draft_decision store json number_of now revises d w
    unfolding draft_decision decide
    decided_again revises d now later w tap =
        let k = number_of d.notification_ref in
        elim (Bool-cases (str_eq d.notification_ref "")) [
          | inl malformed ↦ rw malformed refl
          | inr formed ↦ elim (Bool-cases (str_eq d.option_id "da")) [
            | inl approves ↦
                rw (formed, approves) (flipped_again draft_approved (accept d.by) now later k w)
            | inr other ↦
                let rejects : str_eq d.option_id "dr" ≡ true = rw other at tap in
                rw (formed, other, rejects)
                  (flipped_again draft_rejected (refuse d.by) now later k w)
          ]
        ]

    cleared_unarmed :
        (trim : String → String) (thread text by : String) (later : ℕ) (w : Desk S) (s : S)
        → w.state ≡ clear store draft_edit thread s
        → draft_edit_message store json number_of later trim thread text by w ≡ (w, some false)
    unfolding draft_edit_message
    cleared_unarmed trim thread text by later w s e =
        let unarmed : read store json later draft_edit thread w.state ≡ (w.state, none) =
          rw e (read-clear store json draft_edit thread later s) in
        rw unarmed refl

    module _ (trim : String → String) (thread queue_id : String) (armed_at now : ℕ) (w : Desk S)
        (reads : Reads json (marker_json (record { value = queue_id; armed_at = armed_at })))
        (filled : str_eq queue_id "" ≡ false)
        (in_time : leb (armed_at + marker_ttl_ms) now ≡ false) where
      abbrev pub waiting : Desk S
      waiting = record w { state = arm store json armed_at draft_edit thread queue_id w.state }

      on_waiting :
          (text by : String)
          → draft_edit_message store json number_of now trim thread text by waiting
            ≡ replaced store json number_of now trim thread text by waiting (some queue_id)
      unfolding draft_edit_message
      on_waiting text by =
          rw
            (
              read-arm store json armed_at draft_edit thread queue_id w.state draft_edit now reads,
              in_time,
              filled,
            )
            refl

      -- What the desk is after a replacement that did not throw.
      after_replace-once :
          (tx : Tx DraftResolution)
          → tx ≡ rolled_back ⊎ ((res : DraftResolution) × (db : Db) × (tx ≡ committed res db))
          → ((after_replace store json number_of now thread waiting tx).1 ≡ some true)
            × ((after_replace store json number_of now thread waiting tx).0.db
                ≡ tables_after w.db tx)
            × ((after_replace store json number_of now thread waiting tx).0.state
                ≡ clear store draft_edit thread waiting.state)
      after_replace-once tx (inl e) = rw e (refl, refl, refl)
      after_replace-once tx (inr (res, db, e)) =
          let settled = record waiting {
            db = db;
            state = clear store draft_edit thread waiting.state;
          } in
          rw e (
            refl,
            tell-db draft_edited settled (truthy res.customer_id),
            tell-state draft_edited settled (truthy res.customer_id),
          )

      -- From an armed thread on.
      edited_once :
          (text by text' by' : String) (later : ℕ)
          → (str_eq (trim text) "" ≡ true
              → draft_edit_message store json number_of now trim thread text by waiting
                ≡ (waiting, some true))
            × (str_eq (trim text) "" ≡ false
                → ((draft_edit_message store json number_of now trim thread text by waiting).1
                    ≡ some true)
                  × ((draft_edit_message store json number_of now trim thread text by waiting).0.db
                      ≡ tables_after w.db
                          (replace_draft_body_and_approve now (number_of queue_id) text by w.db))
                  × (draft_edit_message store json number_of later trim thread text' by'
                        (draft_edit_message store json number_of now trim thread text by waiting).0
                      ≡ (
                        (draft_edit_message store json number_of now trim thread text by waiting).0,
                        some false,
                      )))
      unfolding decide
      edited_once text by text' by' later = (
        λ blank. on_waiting text by ∙ rw blank refl,
        λ written.
            let k = number_of queue_id in
            let tx = replace_draft_body_and_approve now k text by w.db in
            let done = after_replace store json number_of now thread waiting tx in
            let taken : draft_edit_message store json number_of now trim thread text by waiting
                ≡ done =
              on_waiting text by ∙ rw written refl in
            let settled : tx ≡ rolled_back
                ⊎ ((res : DraftResolution) × (db : Db) × (tx ≡ committed res db)) =
              elim (Option-cases (find_draft k w.db)) [
                | inl closed ↦ inl (decide-closed (amend text by) now k w.db closed)
                | inr (r, found) ↦ inr (decide-open (amend text by) now k w.db {r = r} found)
              ] in
            let (answer, tables, cleared) = after_replace-once tx settled in
            rw taken (
              answer,
              tables,
              cleared_unarmed trim thread text' by' later done.0 waiting.state cleared,
            ),
      )

    abbrev pub edit_tap : (queue_id by thread : String) → DecisionEvent
    edit_tap queue_id by thread = record {
      notification_ref = queue_id;
      option_id = "de";
      by = by;
      thread_id = some thread;
    }

    tell-armed :
        (n : Note) (w : Desk S) (s : S) (c : Option String)
        → tell n (record w { state = s }) c ≡ record (tell n w c) { state = s }
    tell-armed n w s none = refl
    tell-armed n w s (some c) = refl

    module _ (thread queue_id tapper : String) (armed_at : ℕ) (revises : Bool) (w : Desk S) where
      abbrev pub tapped : Desk S
      tapped =
          draft_decision store json number_of armed_at revises (edit_tap queue_id tapper thread) w

      tapped-waiting :
          {r : OutboundRow}
          → str_eq queue_id "" ≡ false
          → str_eq thread "" ≡ false
          → find_draft (number_of queue_id) w.db ≡ some r
          → tapped ≡ record (tell edit_prompt w (truthy r.customer_id)) {
            state = arm store json armed_at draft_edit thread queue_id w.state;
          }
      unfolding draft_decision
      tapped-waiting {r} filled named found =
          rw (filled, get_draft_for_edit-open (number_of queue_id) w.db {r = r} found, named)
            (tell-armed edit_prompt w (arm store json armed_at draft_edit thread queue_id w.state)
              (truthy r.customer_id))

      -- After an edit tap on an open draft a blank message of the next half hour changes nothing and
      -- is taken. Any other is taken, replaces the text and approves the draft, as the one
      -- transaction that it runs commits; and whatever is sent in the thread later, the same message
      -- again included, is not taken and changes nothing. The texts of JSON read back, and the queue
      -- id and the thread are not empty.
      pub edited_after_tap :
          (trim : String → String) (now later : ℕ) (text by text' by' : String) {r : OutboundRow}
          → Reads json (marker_json (record { value = queue_id; armed_at = armed_at }))
          → str_eq queue_id "" ≡ false
          → str_eq thread "" ≡ false
          → leb (armed_at + marker_ttl_ms) now ≡ false
          → find_draft (number_of queue_id) w.db ≡ some r
          → (str_eq (trim text) "" ≡ true
              → draft_edit_message store json number_of now trim thread text by tapped
                ≡ (tapped, some true))
            × (str_eq (trim text) "" ≡ false
                → (res : DraftResolution) × (after : Db) × (w' : Desk S)
                  × (replace_draft_body_and_approve now (number_of queue_id) text by w.db
                      ≡ committed res after)
                  × (draft_edit_message store json number_of now trim thread text by tapped
                      ≡ (w', some true))
                  × (w'.db ≡ after)
                  × (draft_edit_message store json number_of later trim thread text' by' w'
                      ≡ (w', some false)))
      unfolding decide
      edited_after_tap trim now later text by text' by' {r} reads filled named in_time found =
          let told = tell edit_prompt w (truthy r.customer_id) in
          let same_db = tell-db edit_prompt w (truthy r.customer_id) in
          let same_state = tell-state edit_prompt w (truthy r.customer_id) in
          let waits : tapped ≡ waiting trim thread queue_id armed_at now told reads filled in_time =
            tapped-waiting filled named found ∙ rw same_state refl in
          let (blank, written) =
            edited_once trim thread queue_id armed_at now told reads filled in_time text by text'
              by' later in
          let out =
            draft_edit_message store json number_of now trim thread text by
              (waiting trim thread queue_id armed_at now told reads filled in_time) in
          rw waits (
            blank,
            λ some_text.
                let (answer, tables, again) = written some_text in
                let (res, after, commits) =
                  decide-open (amend text by) now (number_of queue_id) w.db {r = r} found in
                (
                  res,
                  after,
                  out.0,
                  commits,
                  rw answer refl,
                  tables ∙ rw (same_db, commits) refl,
                  again,
                ),
          )
