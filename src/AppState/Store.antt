-- ===== src/AppState/Store.antt =====
-- The accessors of src/db/app-state.ts as the store that src/triage/thread-markers.ts is given.
use text.Mathlib.TextPositions.{eq_refl}
use agent_orchestrator.Base.{
  String, true, false, Option, some, none, [], ◌∷◌, ◌++◌, ◌≡◌, ◌≢◌, refl, arith, eq_iff, select,
  first, update_where, Option-cases, Bool-cases, inl, inr,
}
use agent_orchestrator.AppState.{
  AppStateRow, AppState, with_key, value_of, get_app_state, set_app_state, clear_app_state,
}

-- A store under string keys, with what its clients rely on.
pub record KeyStore {ℓ} (S : Type ℓ) : Type ℓ where
  pub get : String → S → Option String
  pub set : String → String → S → S
  pub clear : String → S → S
  pub get_set : (k v : String) (s : S) → get k (set k v s) ≡ some v
  pub get_set_other : (k j v : String) (s : S) → j ≢ k → get j (set k v s) ≡ get j s
  pub get_clear : (k : String) (s : S) → get k (clear k s) ≡ none
  pub get_clear_other : (k j : String) (s : S) → j ≢ k → get j (clear k s) ≡ get j s

abbrev at : String → AppState → Option AppStateRow
at k db = first (select (with_key k) db)

abbrev valued : String → AppStateRow → AppStateRow
valued v row = record row { value = some v }

apart : (j k : String) (row : AppStateRow) → j ≢ k → with_key j row ≡ true → with_key k row ≡ false
apart j k row ne hit = ground (arith, ne, hit, eq_iff row.key j, eq_iff row.key k)

updated :
    (k v : String) (db : AppState) {row : AppStateRow}
    → at k db ≡ some row
    → value_of (at k (update_where (with_key k) (valued v) db)) ≡ some v
updated k v [] e = cc
updated k v (row ∷ db) {row = found} e = elim (Bool-cases (with_key k row)) [
  | inl hit ↦ ground (arith, hit)
  | inr miss ↦ rw (miss, miss) (updated k v db {row = found} (rw miss at e))
]

updated_other :
    (k j v : String) (db : AppState)
    → j ≢ k
    → value_of (at j (update_where (with_key k) (valued v) db)) ≡ value_of (at j db)
updated_other k j v [] ne = refl
updated_other k j v (row ∷ db) ne = ground (arith, apart j k row ne, updated_other k j v db ne)

appended :
    (k v : String) (db : AppState)
    → at k db ≡ none
    → value_of (at k (db ++ record { key = k; value = some v } ∷ [])) ≡ some v
appended k v [] e = ground (arith, eq_refl k)
appended k v (row ∷ db) e = ground (arith, appended k v db)

appended_other :
    (k j v : String) (db : AppState)
    → j ≢ k
    → at j (db ++ record { key = k; value = some v } ∷ []) ≡ at j db
appended_other k j v [] ne = ground (arith, ne, eq_iff k j)
appended_other k j v (row ∷ db) ne = ground (arith, appended_other k j v db ne)

pub get-set : (k v : String) (db : AppState) → get_app_state k (set_app_state k v db) ≡ some v
unfolding get_app_state set_app_state
get-set k v db = elim (Option-cases (at k db)) [
  | inl missing ↦ rw missing (appended k v db missing)
  | inr (row, e) ↦ rw e (updated k v db {row = row} e)
]

pub get-set_other :
    (k j v : String) (db : AppState)
    → j ≢ k
    → get_app_state j (set_app_state k v db) ≡ get_app_state j db
unfolding get_app_state set_app_state
get-set_other k j v db ne = elim (Option-cases (at k db)) [
  | inl missing ↦ rw (missing, appended_other k j v db ne) refl
  | inr (row, e) ↦ rw e (updated_other k j v db ne)
]

pub get-clear : (k : String) (db : AppState) → get_app_state k (clear_app_state k db) ≡ none
unfolding get_app_state clear_app_state
get-clear k [] = refl
get-clear k (row ∷ db) = ground (arith, get-clear k db)

pub get-clear_other :
    (k j : String) (db : AppState)
    → j ≢ k
    → get_app_state j (clear_app_state k db) ≡ get_app_state j db
unfolding get_app_state clear_app_state
get-clear_other k j [] ne = refl
get-clear_other k j (row ∷ db) ne = ground (arith, apart j k row ne, get-clear_other k j db ne)

pub get-empty : (k : String) → get_app_state k [] ≡ none
unfolding get_app_state
get-empty k = refl

abbrev pub app_state_store : KeyStore AppState
app_state_store = record {
  get = get_app_state;
  set = set_app_state;
  clear = clear_app_state;
  get_set = get-set;
  get_set_other = get-set_other;
  get_clear = get-clear;
  get_clear_other = get-clear_other;
}
