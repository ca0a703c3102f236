-- ===== src/Query/PendingAsk/Tests.antt =====
-- A run of src/query/pending-ask.ts over an empty app_state.
use agent_orchestrator.Base.{◌+◌, ◌<◌, true, false, some, none, [], ◌∷◌, ◌≡◌, ◌⊎◌, refl, arith, All}
use agent_orchestrator.AppState.{AppState}
use agent_orchestrator.AppState.Store.{app_state_store}
use agent_orchestrator.Triage.Markers.{ask_founder, clear, marker_ttl_ms}
use agent_orchestrator.Triage.Samples.{add_contact, question, answer, codec, plain_text}
use agent_orchestrator.Query.PendingAsk.{
  parse_option_data, PendingAsk, UnmatchedOutcome, clears_pending, dispatches, arm_pending_ask,
  on_message, decision, match_option, match_from, normalize, is_hit, label_length, is_filled,
  serialize_pending_ask, AskOption,
}
use agent_orchestrator.Query.PendingAsk.Matching.{Among, NoLonger, match_option-Longest}
use agent_orchestrator.Query.PendingAsk.Answers.{IsStorable, answered_once}

abbrev empty : AppState
empty = []

abbrev no_hook : PendingAsk → UnmatchedOutcome
no_hook p = UnmatchedOutcome.declined

question-IsStorable : IsStorable codec 1000 question
unfolding serialize_pending_ask
question-IsStorable = record {
  askable = record {
    customer = refl;
    some_option = ground arith;
    each = ((refl, refl), ((refl, refl), tt));
  };
  question = (refl, refl);
  marker = (refl, refl);
}

names_contact : match_option plain_text question.options answer.text ≡ some add_contact
unfolding match_option match_from normalize is_hit label_length
names_contact = refl

abbrev asked : AppState
asked = arm_pending_ask app_state_store codec 1000 "t" question empty

early : 5000 < 1000 + marker_ttl_ms
unfolding marker_ttl_ms
early = omega arith

answered_once_example :
    (on_message app_state_store codec plain_text no_hook 5000 answer asked ≡ (
      clear app_state_store ask_founder "t" asked,
      true,
      clears_pending ∷ dispatches (decision answer add_contact) ∷ [],
    ))
    × (on_message app_state_store codec plain_text no_hook 9000 answer
          (on_message app_state_store codec plain_text no_hook 5000 answer asked).0
        ≡ (clear app_state_store ask_founder "t" asked, false, []))
answered_once_example =
    answered_once app_state_store codec plain_text no_hook 1000 5000 question answer empty
      question-IsStorable early add_contact 9000 refl names_contact

measured :
    (o : AskOption)
    → is_hit plain_text (normalize plain_text answer.text) o ≡ true
    → 0 < label_length plain_text o
unfolding is_hit label_length normalize
measured o hit = ground (arith, hit)

match_option-Longest_example :
    ((o : AskOption) × (match_option plain_text question.options answer.text ≡ some o)
      × Among o question.options
      × (is_hit plain_text (normalize plain_text answer.text) o ≡ true)
      × All
          (NoLonger plain_text (normalize plain_text answer.text) (label_length plain_text o))
          question.options)
    ⊎ ((match_option plain_text question.options answer.text ≡ none)
        × ((is_filled (normalize plain_text answer.text) ≡ false)
            ⊎ All
                (λ o. is_hit plain_text (normalize plain_text answer.text) o ≡ false)
                question.options))
match_option-Longest_example = match_option-Longest plain_text question.options answer.text measured

option_of_button : parse_option_data "add:r7:2" ≡ ("add", "r7:2")
unfolding parse_option_data
option_of_button = refl

bare_button : parse_option_data "add" ≡ ("add", "")
unfolding parse_option_data
bare_button = refl
