-- ===== src/Query/PendingAsk/Answers.antt =====
-- A question from its arming to its answer: src/query/pending-ask.ts over src/triage/thread-markers.ts.
use agent_orchestrator.Base.{
  ℕ, ◌+◌, leb, ◌<◌, true, false, some, none, List, [], ◌∷◌, map, ◌≡◌, refl, ap, ◌∙◌, arith, inl,
  inr, Bool-cases, Option-cases,
}
use agent_orchestrator.Base.Json.{JsonCodec, Reads}
use agent_orchestrator.AppState.Store.{KeyStore}
use agent_orchestrator.Triage.Markers.{ask_founder, marker_ttl_ms, marker_json, read, clear}
use agent_orchestrator.Triage.Markers.Reading.{read-arm, read-clear}
use agent_orchestrator.Query.PendingAsk.{
  AskOption, PendingAsk, ask_json, serialize_pending_ask, parse_pending_ask, JsText, is_filled,
  match_option, MessageEvent, UnmatchedOutcome, clears_pending, posts_labels, dispatches, decision,
  handle_message, arm_pending_ask, apply_effects, on_message, answered, unmatched, answered,
}
use agent_orchestrator.Query.PendingAsk.RoundTrip.{IsAskable, parse-serialize}

-- Everything that the code relies on about a question: that it can be asked, and that JSON reads back
-- its record and the marker that holds it.
pub record IsStorable (json : JsonCodec) (now : ℕ) (p : PendingAsk) : Type 0 where
  pub askable : IsAskable p
  pub question : Reads json (ask_json p)
  pub marker :
      Reads json (marker_json (record { value = serialize_pending_ask json p; armed_at = now }))

unmatched-taken : (options : List AskOption) (u : UnmatchedOutcome) → (unmatched options u).0 ≡ true
unmatched-taken options UnmatchedOutcome.resolved = refl
unmatched-taken options UnmatchedOutcome.consumed = refl
unmatched-taken options UnmatchedOutcome.declined = refl

answered-taken :
    (js : JsText) (hook : PendingAsk → UnmatchedOutcome) (m : MessageEvent) (p : PendingAsk)
    → (answered js hook m (some p)).0 ≡ true
answered-taken js hook m p = elim (Bool-cases (is_filled (js.trim m.text))) [
  | inr blank ↦ rw blank refl
  | inl filled ↦ elim (Option-cases (match_option js p.options m.text)) [
    | inl absent ↦ rw (filled, absent) (unmatched-taken p.options (hook p))
    | inr (o, e) ↦ rw (filled, e) refl
  ]
]

module _ {ℓ} {S : Type ℓ} (store : KeyStore S) (json : JsonCodec) (js : JsText)
    (hook : PendingAsk → UnmatchedOutcome) (now later : ℕ) (p : PendingAsk) (m : MessageEvent)
    (s : S) (stored : IsStorable json now p) (fresh : later < now + marker_ttl_ms) where
  abbrev asked : S
  asked = arm_pending_ask store json now m.thread_id p s

  read-asked :
      read store json later ask_founder m.thread_id asked
      ≡ (asked, some (serialize_pending_ask json p))
  unfolding arm_pending_ask
  read-asked =
      let young : leb (now + marker_ttl_ms) later ≡ false = ground (arith, fresh) in
      read-arm store json now ask_founder m.thread_id (serialize_pending_ask json p) s ask_founder
        later stored.marker
      ∙ rw young refl

  handled :
      handle_message json js hook (some (serialize_pending_ask json p)) m
      ≡ answered js hook m (some p)
  unfolding handle_message
  handled = rw (parse-serialize json p stored.askable stored.question) refl

  -- What a question that waits makes of the next message.
  on_asked : on_message store json js hook later m asked ≡ (
    apply_effects store json m.thread_id (answered js hook m (some p)).1 asked,
    (answered js hook m (some p)).0,
    (answered js hook m (some p)).1,
  )
  unfolding on_message
  on_asked = rw (read-asked, handled) refl

  on_cleared :
      (again : ℕ) (x : S)
      → on_message store json js hook again m (clear store ask_founder m.thread_id x)
        ≡ (clear store ask_founder m.thread_id x, false, [])
  unfolding on_message handle_message parse_pending_ask
  on_cleared again x = rw (read-clear store json ask_founder m.thread_id again x) refl

  -- The query engine gets no message of the thread while the question waits.
  pub question_owns_next : (on_message store json js hook later m asked).1 ≡ true
  question_owns_next = ap (λ out. out.1) on_asked ∙ answered-taken js hook m p

  -- An answer that names no option leaves the question armed where no hook takes it.
  pub unmatched_stays :
      is_filled (js.trim m.text) ≡ true
      → match_option js p.options m.text ≡ none
      → hook p ≡ UnmatchedOutcome.declined
      → on_message store json js hook later m asked
        ≡ (asked, true, posts_labels (map (λ o. o.label) p.options) ∷ [])
  unmatched_stays filled e declines = on_asked ∙ rw (filled, e, declines) refl

  -- A question that was asked within the last half hour, and that JSON reads back, is answered once: an
  -- answer that names an option disarms the question first and then dispatches that option's decision;
  -- the same answer, delivered again at any time, falls through and dispatches nothing.
  pub answered_once :
      (o : AskOption) (again : ℕ)
      → is_filled (js.trim m.text) ≡ true
      → match_option js p.options m.text ≡ some o
      → (on_message store json js hook later m asked ≡ (
        clear store ask_founder m.thread_id asked,
        true,
        clears_pending ∷ dispatches (decision m o) ∷ [],
      ))
        × (on_message store json js hook again m (on_message store json js hook later m asked).0
            ≡ (clear store ask_founder m.thread_id asked, false, []))
  answered_once o again filled e =
      let out = on_asked ∙ rw (filled, e) refl in (out, rw out (on_cleared again asked))
