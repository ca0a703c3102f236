-- ===== src/Runtime/Registry.antt =====
-- src/workers/worker-registry.ts: the status map of the workers, in the order of registration.
use text.Mathlib.Text.{◌==◌ as str_eq}
use text.Mathlib.TextPositions.{eq_refl}
use agent_orchestrator.Base.{
  ℕ, ◌+◌, ◌*◌, max, String, Bool, true, false, Option, some, none, List, [], ◌∷◌, ◌≡◌, refl, ap,
  sym, ◌∙◌, arith, ltb, if◌then◌else◌, map, get_or_else,
}

pub data WorkerState : Type 0 where
  registered_idle working healthy stale hung failing_backoff : WorkerState

-- What a worker's definition gives the registry.
pub record WorkerDefinition : Type 0 where
  pub name : String
  pub interval_ms : ℕ
  pub max_backoff_ms : Option ℕ
  pub max_runtime_ms : Option ℕ
  pub critical : Option Bool
  pub run_immediately : Bool

pub record Entry : Type 0 where
  pub name : String
  pub interval_ms : ℕ
  pub max_runtime_ms : ℕ
  pub critical : Bool
  pub last_run_at : Option ℕ
  pub last_success_at : Option ℕ
  pub last_duration_ms : Option ℕ
  pub last_error : Option String
  pub consecutive_failures : ℕ
  pub is_running : Bool

-- Map.get and Map.set
abbrev pub get : String → List Entry → Option Entry
get name [] = none
get name (e ∷ es) = let rest = get name es in if str_eq e.name name then some e else rest

abbrev pub set : Entry → List Entry → List Entry
set x [] = x ∷ []
set x (e ∷ es) = let rest = set x es in if str_eq e.name x.name then x ∷ es else e ∷ rest

abbrev pub default_runtime : WorkerDefinition → ℕ
default_runtime def = get_or_else def.max_runtime_ms (max (def.interval_ms * 2) 60000)

pub register_worker : WorkerDefinition → List Entry → List Entry
register_worker def = set (record {
  name = def.name;
  interval_ms = def.interval_ms;
  max_runtime_ms = default_runtime def;
  critical = get_or_else def.critical false;
  last_run_at = none;
  last_success_at = none;
  last_duration_ms = none;
  last_error = none;
  consecutive_failures = 0;
  is_running = false;
})

-- `prev?.field ?? default`
abbrev of_prev {ℓ} : {A : Type ℓ} → (Entry → A) → A → Option Entry → A
of_prev field default none = default
of_prev field default (some e) = field e

abbrev pub started : ℕ → String → Option Entry → Entry
started now name prev = record {
  name = name;
  interval_ms = of_prev (λ e. e.interval_ms) 0 prev;
  max_runtime_ms = of_prev (λ e. e.max_runtime_ms) 60000 prev;
  critical = of_prev (λ e. e.critical) false prev;
  last_run_at = some now;
  last_success_at = of_prev (λ e. e.last_success_at) none prev;
  last_duration_ms = of_prev (λ e. e.last_duration_ms) none prev;
  last_error = of_prev (λ e. e.last_error) none prev;
  consecutive_failures = of_prev (λ e. e.consecutive_failures) 0 prev;
  is_running = true;
}

pub record_run_start : ℕ → String → List Entry → List Entry
record_run_start now name reg = set (started now name (get name reg)) reg

pub record RunResult : Type 0 where
  pub ok : Bool
  pub duration_ms : ℕ
  pub err_message : Option String

abbrev pub failures_after : RunResult → Option Entry → ℕ
failures_after r prev = if r.ok then 0 else of_prev (λ e. e.consecutive_failures) 0 prev + 1

abbrev pub finished : ℕ → String → RunResult → Option Entry → Entry
finished now name r prev = record {
  name = name;
  interval_ms = of_prev (λ e. e.interval_ms) 0 prev;
  max_runtime_ms = of_prev (λ e. e.max_runtime_ms) 60000 prev;
  critical = of_prev (λ e. e.critical) false prev;
  last_run_at = some now;
  last_success_at = if r.ok then some now else of_prev (λ e. e.last_success_at) none prev;
  last_duration_ms = some r.duration_ms;
  last_error = if r.ok then none else r.err_message;
  consecutive_failures = failures_after r prev;
  is_running = false;
}

-- The registry and the new count of consecutive failures.
pub record_run : ℕ → String → RunResult → List Entry → List Entry × ℕ
record_run now name r reg =
    let prev = get name reg in (set (finished now name r prev) reg, failures_after r prev)

-- Is the last run longer ago than `bound`? A difference of instants may be negative.
abbrev older_than : ℕ → ℕ → Option ℕ → Bool
older_than bound now none = false
older_than bound now (some at) = ltb (at + bound) now

abbrev is_missing {ℓ} : {A : Type ℓ} → Option A → Bool
is_missing none = true
is_missing (some a) = false

pub classify_worker_state : Entry → ℕ → WorkerState
classify_worker_state w now =
    if w.is_running
    then (if older_than w.max_runtime_ms now w.last_run_at then hung else working)
    else (if is_missing w.last_run_at
        then registered_idle
        else (if is_missing w.last_error
            then (if older_than (max (w.interval_ms * 2) 30000) now w.last_run_at
                then stale
                else healthy)
            else failing_backoff))

pub record WorkerStatus : Type 0 where
  pub entry : Entry
  pub state : WorkerState

-- `order` stands for localeCompare's sort by name.
pub get_worker_statuses :
    (List WorkerStatus → List WorkerStatus) → ℕ → List Entry → List WorkerStatus
get_worker_statuses order now reg =
    order (map (λ e. record { entry = e; state = classify_worker_state e now }) reg)

abbrev pub state_at : ℕ → Option Entry → Option WorkerState
state_at now none = none
state_at now (some e) = some (classify_worker_state e now)

abbrev pub state_of : String → ℕ → List Entry → Option WorkerState
state_of name now reg = state_at now (get name reg)

get-set : (x : Entry) (es : List Entry) → get x.name (set x es) ≡ some x
get-set x [] = ground (arith, eq_refl x.name)
get-set x (e ∷ es) = ground (arith, eq_refl x.name, get-set x es)

state_of-set :
    (name : String) (now : ℕ) (x : Entry) (es : List Entry)
    → x.name ≡ name
    → state_of name now (set x es) ≡ some (classify_worker_state x now)
state_of-set name now x es same = rw (sym same) (ap (state_at now) (get-set x es))

-- A worker that has started a tick is `working` until its longest run time has passed, then `hung`.
state_of-record_run_start :
    (name : String) (at now : ℕ) (reg : List Entry) {e : Entry}
    → get name reg ≡ some e
    → state_of name now (record_run_start at name reg)
      ≡ some (if ltb (at + e.max_runtime_ms) now then hung else working)
unfolding record_run_start classify_worker_state
state_of-record_run_start name at now reg {e} f =
    state_of-set name now (started at name (get name reg)) reg refl ∙ rw f refl

-- After a tick a worker is `failing_backoff` from then on if the tick failed, with one consecutive
-- failure more; if it succeeded it has none, and is `healthy` until twice its interval has passed, at
-- least 30 seconds, and `stale` then. A failed tick comes with the category of its error.
state_of-record_run :
    (name : String) (at now duration : ℕ) (category : String) (ok : Bool) (reg : List Entry)
    {e : Entry}
    → get name reg ≡ some e
    → (state_of name now
          (record_run at name
            (record {
              ok = ok;
              duration_ms = duration;
              err_message = if ok then none else some category;
            })
            reg).0
        ≡ some (
            if ok
            then (if ltb (at + max (e.interval_ms * 2) 30000) now then stale else healthy)
            else failing_backoff))
      × ((record_run at name
            (record {
              ok = ok;
              duration_ms = duration;
              err_message = if ok then none else some category;
            })
            reg).1
          ≡ (if ok then 0 else e.consecutive_failures + 1))
unfolding record_run classify_worker_state
state_of-record_run name at now duration category true reg {e} f = (
  state_of-set name now
        (finished at name (record { ok = true; duration_ms = duration; err_message = none })
          (get name reg))
        reg refl
      ∙ rw f refl,
  refl,
)
state_of-record_run name at now duration category false reg {e} f = (
  state_of-set name now
      (finished at name (record { ok = false; duration_ms = duration; err_message = some category })
        (get name reg))
      reg refl,
  rw f refl,
)
