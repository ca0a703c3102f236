-- ===== src/Query/PendingAsk/RoundTrip.antt =====
-- src/query/pending-ask.ts: what serializePendingAsk writes, parsePendingAsk reads.
use agent_orchestrator.Base.{String, true, some, List, [], ◌∷◌, ◌≡◌, ◌≢◌, refl, arith, All}
use agent_orchestrator.Base.Json.{JsonCodec, Reads}
use agent_orchestrator.Query.PendingAsk.{
  AskOption, PendingAsk, ask_json, option_items, is_filled, ask_if, read_options,
  serialize_pending_ask, parse_pending_ask,
}

-- An option that the parser accepts.
abbrev pub IsFilled : AskOption → Type 0
IsFilled o = (is_filled o.id ≡ true) × (is_filled o.label ≡ true)

pub record IsAskable (p : PendingAsk) : Type 0 where
  pub customer : is_filled p.customer_id ≡ true
  pub some_option : p.options ≢ []
  pub each : All IsFilled p.options

read_options-items :
    (os : List AskOption) → All IsFilled os → read_options (option_items os) ≡ some os
read_options-items [] h = refl
read_options-items (o ∷ os) (filled, h) =
    ground (arith, filled.0, filled.1, read_options-items os h)

ask_if-filled :
    (customer : String) (os : List AskOption)
    → is_filled customer ≡ true
    → os ≢ []
    → ask_if (some 1) (some customer) (some os)
      ≡ some (record { customer_id = customer; options = os })
ask_if-filled customer [] filled ne = ground (arith, ne)
ask_if-filled customer (o ∷ os) filled ne = ground (arith, filled)

-- An askable question is read back as it was asked.
pub parse-serialize :
    (json : JsonCodec) (p : PendingAsk)
    → IsAskable p
    → Reads json (ask_json p)
    → parse_pending_ask json (some (serialize_pending_ask json p)) ≡ some p
unfolding parse_pending_ask serialize_pending_ask
parse-serialize json p h reads =
    rw (reads.1, reads.0, read_options-items p.options h.each)
      (ask_if-filled p.customer_id p.options h.customer h.some_option)
