-- ===== src/Triage/Samples.antt =====
-- A question, an answer to it and texts of JSON to test with.
use agent_orchestrator.Base.{String, some, none, [], ◌∷◌, str_eq, if◌then◌else◌}
use agent_orchestrator.Base.Json.{Json, object, field, JsonCodec}
use agent_orchestrator.Triage.Markers.{marker_json}
use agent_orchestrator.Query.PendingAsk.{AskOption, PendingAsk, ask_json, JsText, MessageEvent}

abbrev pub add_contact : AskOption
add_contact = record { id = "add:r7"; label = "add contact" }

abbrev pub question : PendingAsk
question = record {
  customer_id = "c1";
  options = add_contact ∷ record { id = "ignore:r7"; label = "ignore" } ∷ [];
}

abbrev pub answer : MessageEvent
answer = record { thread_id = "t"; text = "yes, add contact please"; by = "founder" }

abbrev stringify_sample : Json → String
stringify_sample (object (field f x (field g y fs))) = if str_eq g "value" then "M" else "Q"
stringify_sample _ = "?"

-- It writes the question as "Q", and the marker that holds it since instant 1000 as "M".
abbrev pub codec : JsonCodec
codec = record {
  stringify = stringify_sample;
  parse = λ s.
      if str_eq s "M"
      then some (marker_json (record { value = "Q"; armed_at = 1000 }))
      else (if str_eq s "Q" then some (ask_json question) else none);
}

-- For texts that are in lower case and trimmed.
abbrev pub plain_text : JsText
plain_text = record {
  lower_case = λ s. s;
  collapse_spaces = λ s. s;
  drop_marks = λ s. s;
  trim = λ s. s;
  length = λ s. if str_eq s "" then 0 else 11;
}
