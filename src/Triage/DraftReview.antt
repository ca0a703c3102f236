-- ===== src/Triage/DraftReview.antt =====
-- src/triage/draft-review.ts: the founder's buttons on a draft, and the message that replaces its text.
-- A queue id is a text whose number is the row's; a note stands for a message to the founder.
pub mod Replays
mod Tests
use agent_orchestrator.Base.{
  ℕ, String, str_eq, Bool, true, false, not, Option, some, none, List, ◌∷◌, if◌then◌else◌,
}
use agent_orchestrator.Base.Json.{JsonCodec}
use agent_orchestrator.AppState.Store.{KeyStore}
use agent_orchestrator.Outbound.Rows.{Db}
use agent_orchestrator.Outbound.Drafts.{
  Tx, committed, rolled_back, thrown, DraftResolution, approve_draft,
  replace_draft_body_and_approve, cancel_draft, get_draft_for_edit,
}
use agent_orchestrator.Triage.Markers.{MarkerKind, draft_edit, draft_revise, arm, read, clear}

pub data Note : Type 0 where
  draft_approved draft_rejected : Note
  revise_unavailable revise_prompt : Note
  edit_unavailable edit_prompt : Note
  draft_edited : Note

pub record Desk {ℓ} (S : Type ℓ) : Type ℓ where
  pub db : Db
  pub state : S
  pub told : List (String × Note)

pub record DecisionEvent : Type 0 where
  pub notification_ref : String
  pub option_id : String
  pub by : String
  pub thread_id : Option String

-- A text that JavaScript takes for true.
abbrev pub truthy : Option String → Option String
truthy none = none
truthy (some t) = if str_eq t "" then none else some t

module _ {ℓ} {S : Type ℓ} where
  abbrev pub tell : Note → Desk S → Option String → Desk S
  tell n w none = w
  tell n w (some customer) = record w { told = (customer, n) ∷ w.told }

  -- `null` is a draft that is no longer open; what is thrown leaves the desk as it was.
  abbrev pub after_flip : Note → Desk S → Tx DraftResolution → Desk S
  after_flip n w (committed res db) = tell n (record w { db = db }) (truthy res.customer_id)
  after_flip n w rolled_back = w
  after_flip n w thrown = w

  module _ (store : KeyStore S) (json : JsonCodec) (number_of : String → ℕ) (now : ℕ) where
    abbrev armed :
        MarkerKind
        → (queue_id : String) → (unavailable prompt : Note) → Option String
        → Desk S
        → DraftResolution
        → Desk S
    armed kind queue_id unavailable prompt none w res = tell unavailable w (truthy res.customer_id)
    armed kind queue_id unavailable prompt (some thread) w res =
        tell prompt (record w { state = arm store json now kind thread queue_id w.state })
          (truthy res.customer_id)

    abbrev armed_if :
        MarkerKind
        → (queue_id : String) → (unavailable prompt : Note) → Option String
        → Desk S
        → Option DraftResolution
        → Desk S
    armed_if kind queue_id unavailable prompt thread w none = w
    armed_if kind queue_id unavailable prompt thread w (some res) =
        armed kind queue_id unavailable prompt (truthy thread) w res

    -- `revises` is whether `armRevise` is wired.
    unfoldable pub draft_decision : (revises : Bool) → DecisionEvent → Desk S → Desk S
    draft_decision revises d w =
        let k = number_of d.notification_ref in
        if str_eq d.notification_ref ""
        then w
        else (if str_eq d.option_id "da"
            then after_flip draft_approved w (approve_draft now k d.by w.db)
            else (if str_eq d.option_id "dr"
                then after_flip draft_rejected w (cancel_draft now k d.by w.db)
                else (if str_eq d.option_id "dv"
                    then (if revises
                        then armed_if draft_revise d.notification_ref revise_unavailable
                            revise_prompt d.thread_id w (get_draft_for_edit k w.db)
                        else w)
                    else (if str_eq d.option_id "de"
                        then armed_if draft_edit d.notification_ref edit_unavailable edit_prompt
                            d.thread_id w (get_draft_for_edit k w.db)
                        else w))))

    -- Whether the message was taken; `none` is an exception, after which the marker is still armed.
    abbrev pub after_replace : String → Desk S → Tx DraftResolution → Desk S × Option Bool
    after_replace thread w (committed res db) = (
      tell draft_edited (record w { db = db; state = clear store draft_edit thread w.state })
          (truthy res.customer_id),
      some true,
    )
    after_replace thread w rolled_back =
        (record w { state = clear store draft_edit thread w.state }, some true)
    after_replace thread w thrown = (w, none)

    abbrev pub replaced :
        (trim : String → String)
        → (thread text by : String) → Desk S
        → Option String
        → Desk S × Option Bool
    replaced trim thread text by w none = (w, some false)
    replaced trim thread text by w (some queue_id) =
        if str_eq (trim text) ""
        then (w, some true)
        else after_replace thread w
            (replace_draft_body_and_approve now (number_of queue_id) text by w.db)

    unfoldable pub draft_edit_message :
        (trim : String → String) → (thread text by : String) → Desk S → Desk S × Option Bool
    draft_edit_message trim thread text by w =
        let (state, queue_id) = read store json now draft_edit thread w.state in
        replaced trim thread text by (record w { state = state }) (truthy queue_id)
