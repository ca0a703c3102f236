-- ===== src/Query/PendingAsk.antt =====
-- src/query/pending-ask.ts: a question of `askFounder` that waits for an answer in a thread, with
-- parseOptionData of src/triage/decision-handler.ts. JavaScript's string functions are a parameter;
-- a reply to the founder is the labels that its text names.
pub mod Matching
pub mod RoundTrip
pub mod Answers
mod Tests
use Prim.Native.String
use text.Mathlib.Text.{find?}
use agent_orchestrator.Base.{
  ℕ, ◌+◌, String, Bool, true, false, not, ◌&&◌, ◌||◌, Option, some, none, List, [], ◌∷◌, ◌++◌, map,
  ltb, ◌==◌, str_eq, if◌then◌else◌, is_some,
}
use agent_orchestrator.Base.Json.{
  Json, number, string, array, object, Items, end, item, Fields, no_fields, field, JsonCodec,
  member_of, as_text, as_number,
}
use agent_orchestrator.AppState.Store.{KeyStore}
use agent_orchestrator.Triage.Markers.{ask_founder, arm, read, clear}

pub record AskOption : Type 0 where
  pub id : String
  pub label : String

pub record PendingAsk : Type 0 where
  pub customer_id : String
  pub options : List AskOption

abbrev pub option_json : AskOption → Json
option_json o = object (field "id" (string o.id) (field "label" (string o.label) no_fields))

abbrev pub option_items : List AskOption → Items
option_items [] = end
option_items (o ∷ os) = item (option_json o) (option_items os)

abbrev pub ask_json : PendingAsk → Json
ask_json p = object (
    field "v" (number 1) (
      field "customerId" (string p.customer_id)
        (field "options" (array (option_items p.options)) no_fields)))

pub serialize_pending_ask : JsonCodec → PendingAsk → String
serialize_pending_ask json p = json.stringify (ask_json p)

-- A text that JavaScript takes for true.
abbrev pub is_filled : String → Bool
is_filled s = not (str_eq s "")

abbrev option_if : Option String → Option String → Option AskOption
option_if (some id) (some label) =
    if is_filled id && is_filled label then some (record { id = id; label = label }) else none
option_if _ _ = none

abbrev prepend : Option AskOption → Option (List AskOption) → Option (List AskOption)
prepend (some o) (some os) = some (o ∷ os)
prepend _ _ = none

abbrev pub read_options : Items → Option (List AskOption)
read_options end = some []
read_options (item j js) =
    prepend (option_if (as_text (member_of "id" j)) (as_text (member_of "label" j)))
      (read_options js)

-- `Array.isArray(p.options)`, and each of them.
abbrev options_of : Option Json → Option (List AskOption)
options_of (some (array js)) = read_options js
options_of _ = none

abbrev ask_if : Option ℕ → Option String → Option (List AskOption) → Option PendingAsk
ask_if (some v) (some customer) (some (o ∷ os)) =
    if v == 1 && is_filled customer
    then some (record { customer_id = customer; options = o ∷ os })
    else none
ask_if _ _ _ = none

abbrev ask_of : Option Json → Option PendingAsk
ask_of none = none
ask_of (some j) =
    ask_if (as_number (member_of "v" j)) (as_text (member_of "customerId" j))
      (options_of (member_of "options" j))

pub parse_pending_ask : JsonCodec → Option String → Option PendingAsk
parse_pending_ask json none = none
parse_pending_ask json (some raw) = if is_filled raw then ask_of (json.parse raw) else none

-- `toLowerCase`, the two replacements of `normalize`, `trim` and `length`.
pub record JsText : Type 0 where
  pub lower_case : String → String
  pub collapse_spaces : String → String
  pub drop_marks : String → String
  pub trim : String → String
  pub length : String → ℕ

pub normalize : JsText → String → String
normalize js s = js.trim (js.drop_marks (js.collapse_spaces (js.lower_case s)))

abbrev pub includes : String → String → Bool
includes s t = is_some (find? s t)

-- `answer === label || answer.includes(label)`, for a label that is not empty
pub is_hit : JsText → String → AskOption → Bool
is_hit js answer o =
    let label = normalize js o.label in
    is_filled label && (str_eq answer label || includes answer label)

pub label_length : JsText → AskOption → ℕ
label_length js o = js.length (normalize js o.label)

pub match_from :
    JsText
    → (answer : String) → Option AskOption
    → (best_len : ℕ) → List AskOption
    → Option AskOption
match_from js answer best best_len [] = best
match_from js answer best best_len (o ∷ os) =
    let better = is_hit js answer o && ltb best_len (label_length js o) in
    match_from js answer (if better then some o else best)
      (if better then label_length js o else best_len) os

pub match_option : JsText → List AskOption → String → Option AskOption
match_option js options text =
    let answer = normalize js text in
    if is_filled answer then match_from js answer none 0 options else none

pub record DecisionEvent : Type 0 where
  pub notification_ref : String
  pub option_id : String
  pub by : String
  pub thread_id : String

abbrev split_at : String → Option ℕ → String × String
split_at button none = (button, "")
split_at button (some i) =
    (String.slice button 0 i, String.slice button (i + 1) (String.len button))

-- The option's id, and the reference that its button carries.
pub parse_option_data : String → String × String
parse_option_data button = split_at button (find? button ":")

pub record MessageEvent : Type 0 where
  pub thread_id : String
  pub text : String
  pub by : String

pub data UnmatchedOutcome : Type 0 where
  resolved consumed declined : UnmatchedOutcome

pub data Effect : Type 0 where
  clears_pending : Effect
  posts_labels : List String → Effect
  dispatches : DecisionEvent → Effect

abbrev unmatched : List AskOption → UnmatchedOutcome → Bool × List Effect
unmatched options resolved = (true, clears_pending ∷ [])
unmatched options consumed = (true, [])
unmatched options declined = (true, posts_labels (map (λ o. o.label) options) ∷ [])

abbrev decision : MessageEvent → AskOption → DecisionEvent
decision m o =
    let (option_id, notification_ref) = parse_option_data o.id in
    record {
      notification_ref = notification_ref;
      option_id = option_id;
      by = m.by;
      thread_id = m.thread_id;
    }

abbrev chosen :
    (PendingAsk → UnmatchedOutcome)
    → MessageEvent
    → PendingAsk
    → Option AskOption
    → Bool × List Effect
chosen on_unmatched m p none = unmatched p.options (on_unmatched p)
chosen on_unmatched m p (some o) = (true, clears_pending ∷ dispatches (decision m o) ∷ [])

-- `on_unmatched` answers `declined` where there is no hook.
abbrev answered :
    JsText → (PendingAsk → UnmatchedOutcome) → MessageEvent → Option PendingAsk → Bool × List Effect
answered js on_unmatched m none = (false, [])
answered js on_unmatched m (some p) =
    if is_filled (js.trim m.text)
    then chosen on_unmatched m p (match_option js p.options m.text)
    else (true, [])

-- Whether the message is taken, and what is done, in order.
pub handle_message :
    JsonCodec
    → JsText
    → (PendingAsk → UnmatchedOutcome)
    → (pending : Option String) → MessageEvent
    → Bool × List Effect
handle_message json js on_unmatched pending m =
    answered js on_unmatched m (parse_pending_ask json pending)

-- The wiring of src/adapters/telegram/factory.ts and src/adapters/triage/callback-poller.factory.ts:
-- the question is stored under the thread's `ask_founder` marker.
module _ {ℓ} {S : Type ℓ} (store : KeyStore S) (json : JsonCodec) where
  pub arm_pending_ask : ℕ → String → PendingAsk → S → S
  arm_pending_ask now thread_id p s =
      arm store json now ask_founder thread_id (serialize_pending_ask json p) s

  abbrev pub apply_effects : String → List Effect → S → S
  apply_effects t [] s = s
  apply_effects t (clears_pending ∷ es) s = apply_effects t es (clear store ask_founder t s)
  apply_effects t (posts_labels ls ∷ es) s = apply_effects t es s
  apply_effects t (dispatches d ∷ es) s = apply_effects t es s

  pub on_message :
      JsText → (PendingAsk → UnmatchedOutcome) → ℕ → MessageEvent → S → S × Bool × List Effect
  on_message js on_unmatched now m s =
      let (s', raw) = read store json now ask_founder m.thread_id s in
      let (taken, effects) = handle_message json js on_unmatched raw m in
      (apply_effects m.thread_id effects s', taken, effects)
