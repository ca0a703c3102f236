-- ===== src/AppState.antt =====
-- src/db/app-state.ts: key/value accessors over the table app_state.
pub mod Store
use agent_orchestrator.Base.{
  String, Bool, not, Option, some, none, List, [], ◌∷◌, ◌++◌, str_eq, if◌then◌else◌, select, first,
  is_some, update_where,
}

pub record AppStateRow : Type 0 where
  pub key : String
  pub value : Option String

abbrev pub AppState : Type 0
AppState = List AppStateRow

abbrev pub with_key : String → AppStateRow → Bool
with_key key row = str_eq row.key key

-- `rows[0]?.value ?? null`
abbrev pub value_of : Option AppStateRow → Option String
value_of none = none
value_of (some row) = row.value

pub get_app_state : String → AppState → Option String
get_app_state key db = value_of (first (select (with_key key) db))

-- INSERT ... ON CONFLICT (key) DO UPDATE
pub set_app_state : String → String → AppState → AppState
set_app_state key value db =
    if is_some (first (select (with_key key) db))
    then update_where (with_key key) (λ row. record row { value = some value }) db
    else db ++ record { key = key; value = some value } ∷ []

pub clear_app_state : String → AppState → AppState
clear_app_state key db = select (λ row. not (with_key key row)) db
