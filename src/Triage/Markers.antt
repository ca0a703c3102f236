-- ===== src/Triage/Markers.antt =====
-- src/triage/thread-markers.ts: which capture, if any, takes the founder's next message in a thread.
-- A call is the list of the store's operations that it awaits, so that one cut short is a prefix.
pub mod Keys
pub mod Exclusion
pub mod Reading
mod Tests
use Prim.Native.String
use agent_orchestrator.Base.{
  ℕ, ◌+◌, ◌-◌, ◌*◌, String, Bool, true, false, Option, some, none, List, [], ◌∷◌, ◌++◌, map, not,
  leb, ◌==◌, if◌then◌else◌, select,
}
use agent_orchestrator.Base.Json.{
  Json, number, string, object, no_fields, field, JsonCodec, member_of, as_text, as_number,
}
use agent_orchestrator.AppState.Store.{KeyStore}

pub data MarkerKind : Type 0 where
  draft_edit draft_revise schedule ask_founder : MarkerKind

pub marker_kinds : List MarkerKind
marker_kinds = draft_edit ∷ draft_revise ∷ schedule ∷ ask_founder ∷ []

-- Its `eq` is `===` on kinds.
abbrev pub same_kind : MarkerKind → MarkerKind → Bool
same_kind draft_edit draft_edit = true
same_kind draft_revise draft_revise = true
same_kind schedule schedule = true
same_kind ask_founder ask_founder = true
same_kind _ _ = false

pub marker_key_prefix : MarkerKind → String
marker_key_prefix draft_edit = "draft_edit_pending"
marker_key_prefix draft_revise = "draft_revise_pending"
marker_key_prefix schedule = "schedule_pending"
marker_key_prefix ask_founder = "ask_founder_pending"

pub marker_key : MarkerKind → String → String
marker_key kind thread_id = String.◌++◌ (marker_key_prefix kind) (String.◌++◌ ":" thread_id)

unfoldable pub marker_ttl_ms : ℕ
marker_ttl_ms = 30 * 60000

pub record StoredMarker : Type 0 where
  pub value : String
  pub armed_at : ℕ

abbrev pub marker_json : StoredMarker → Json
marker_json m = object (
    field "v" (number 1)
      (field "value" (string m.value) (field "armedAt" (number m.armed_at) no_fields)))

pub data StoreOp : Type 0 where
  clears : String → StoreOp
  sets : String → String → StoreOp

abbrev pub run_op {ℓ} : {S : Type ℓ} → KeyStore S → StoreOp → S → S
run_op store (clears key) s = store.clear key s
run_op store (sets key value) s = store.set key value s

abbrev pub run_ops {ℓ} : {S : Type ℓ} → KeyStore S → List StoreOp → S → S
run_ops store [] s = s
run_ops store (op ∷ ops) s = run_ops store ops (run_op store op s)

-- `JSON.stringify(stored)`
abbrev pub stored_text : JsonCodec → String → ℕ → String
stored_text json value now = json.stringify (marker_json (record { value = value; armed_at = now }))

pub arm_ops : JsonCodec → ℕ → MarkerKind → String → String → List StoreOp
arm_ops json now kind thread_id value =
    map (λ other. clears (marker_key other thread_id))
      (select (λ other. not (same_kind other kind)) marker_kinds)
    ++ sets (marker_key kind thread_id) (stored_text json value now) ∷ []

pub arm {ℓ} : {S : Type ℓ} → KeyStore S → JsonCodec → ℕ → MarkerKind → String → String → S → S
arm store json now kind thread_id value = run_ops store (arm_ops json now kind thread_id value)

-- The checks of the shape, in the `try`.
abbrev marker_of : Option ℕ → Option String → Option ℕ → Option StoredMarker
marker_of (some v) (some value) (some armed_at) =
    if v == 1 then some (record { value = value; armed_at = armed_at }) else none
marker_of _ _ _ = none

abbrev shaped : Option Json → Option StoredMarker
shaped none = none
shaped (some j) =
    marker_of (as_number (member_of "v" j)) (as_text (member_of "value" j))
      (as_number (member_of "armedAt" j))

pub parse_marker : JsonCodec → String → Option StoredMarker
parse_marker json raw = shaped (json.parse raw)

-- What is read, and whether the key is cleared.
abbrev pub judged : ℕ → Option StoredMarker → Option String × Bool
judged now none = (none, true)
judged now (some m) =
    if leb marker_ttl_ms (now - m.armed_at) then (none, true) else (some m.value, false)

abbrev pub judge : JsonCodec → ℕ → Option String → Option String × Bool
judge json now none = (none, false)
judge json now (some raw) = judged now (parse_marker json raw)

pub read {ℓ} :
    {S : Type ℓ} → KeyStore S → JsonCodec → ℕ → MarkerKind → String → S → S × Option String
read store json now kind thread_id s =
    let key = marker_key kind thread_id in
    let (result, stale) = judge json now (store.get key s) in
    (if stale then store.clear key s else s, result)

pub clear {ℓ} : {S : Type ℓ} → KeyStore S → MarkerKind → String → S → S
clear store kind thread_id s = store.clear (marker_key kind thread_id) s
