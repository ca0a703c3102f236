-- ===== src/Runtime/Worker.antt =====
-- src/workers/worker-runner.ts: the interval loop of one worker, with its backoff.
use text.Mathlib.Text.{◌==◌ as str_eq}
use native.Mathlib.Nat.{mul-le-mul_left, pow-le-pow_right}
use agent_orchestrator.Base.{
  ℕ, ◌+◌, ◌*◌, ◌^◌, ◌≤◌, min, String, Bool, true, false, ◌&&◌, ◌||◌, Option, some, none, List, [],
  ◌∷◌, ◌≡◌, refl, ◌∙◌, arith, leb, if◌then◌else◌, any, get_or_else, is_some,
}
use agent_orchestrator.Runtime.Registry.{WorkerDefinition}

abbrev network_error_codes : List String
network_error_codes =
    "ECONNABORTED" ∷ "ECONNREFUSED" ∷ "ECONNRESET" ∷ "EHOSTUNREACH" ∷ "ENETUNREACH" ∷ "ENOTFOUND"
    ∷ "ETIMEDOUT" ∷ []

-- What the projection reads of a thrown value: none is a value that is not an object, and a field
-- is none where it has another type. A status is an integer.
pub record ErrorFields : Type 0 where
  pub code : Option String
  pub status : Option ℕ
  pub name : Option String

pub data ErrorCategory : Type 0 where
  network : String → ErrorCategory
  upstream_http : ℕ → ErrorCategory
  timeout worker_failed : ErrorCategory

abbrev is_network : Option String → Bool
is_network none = false
is_network (some code) = any (λ c. str_eq c code) network_error_codes

abbrev is_http : Option ℕ → Bool
is_http none = false
is_http (some status) = leb 400 status && leb status 599

abbrev is_timeout : Option String → Bool
is_timeout none = false
is_timeout (some name) = str_eq name "TimeoutError" || str_eq name "AbortError"

pub project_worker_error : Option ErrorFields → ErrorCategory
project_worker_error none = worker_failed
project_worker_error (some e) =
    if is_network e.code
    then network (get_or_else e.code "")
    else (if is_http e.status
        then upstream_http (get_or_else e.status 0)
        else (if is_timeout e.name then timeout else worker_failed))

-- The loop's variables: `timer` is the delay of the pending timeout, `aborted` that the
-- active tick was asked to cancel; `failures` is what recordRun keeps and `ticks` counts the calls of `run`.
pub record Loop : Type 0 where
  pub timer : Option ℕ
  pub active : Bool
  pub aborted : Bool
  pub stopped : Bool
  pub failures : ℕ
  pub ticks : ℕ

pub schedule_next : ℕ → Loop → Loop
schedule_next delay_ms l = if l.stopped then l else record l { timer = some delay_ms }

-- `def.maxBackoffMs ?? def.intervalMs * 10`
abbrev pub max_backoff : WorkerDefinition → ℕ
max_backoff def = get_or_else def.max_backoff_ms (def.interval_ms * 10)

pub next_delay : WorkerDefinition → Bool → ℕ → ℕ
next_delay def ok failures =
    if ok then def.interval_ms else min (def.interval_ms * 2 ^ min failures 16) (max_backoff def)

pub data Event : Type 0 where
  fires : Event
  settles : (ok : Bool) → Event
  stops : Event

pub start_worker : WorkerDefinition → Loop
start_worker def = schedule_next (if def.run_immediately then 0 else def.interval_ms) (record {
  timer = none;
  active = false;
  aborted = false;
  stopped = false;
  failures = 0;
  ticks = 0;
})

-- The timer's callback, which starts a tick.
abbrev begin_tick : Loop → Loop
begin_tick l = record l { timer = none; active = true; aborted = false; ticks = l.ticks + 1 }

-- The end of a tick: the count of recordRun, then the next timer.
abbrev end_tick : WorkerDefinition → Bool → Loop → Loop
end_tick def ok l =
    let failures = if ok then 0 else l.failures + 1 in
    schedule_next (next_delay def ok failures) (record l { active = false; failures = failures })

abbrev pub stop : Loop → Loop
stop l = record l { stopped = true; timer = none; aborted = l.active || l.aborted }

-- A timer that is not set does not fire, and only an active tick settles.
pub step : WorkerDefinition → Event → Loop → Loop
step def fires l = if is_some l.timer then begin_tick l else l
step def (settles ok) l = if l.active then end_tick def ok l else l
step def stops l = stop l

pub run_events : WorkerDefinition → List Event → Loop → Loop
run_events def [] l = l
run_events def (e ∷ es) l = run_events def es (step def e l)

-- A timer is set or a tick is active, never both; a stopped loop has no timer.
pub record WellTimed (l : Loop) : Type 0 where
  pub one_at_a_time : is_some l.timer && l.active ≡ false
  pub alive : l.stopped ≡ false → is_some l.timer || l.active ≡ true
  pub quiet : l.stopped ≡ true → is_some l.timer ≡ false

step-WellTimed :
    (def : WorkerDefinition) (e : Event) (l : Loop) → WellTimed l → WellTimed (step def e l)
unfolding step schedule_next
step-WellTimed def fires l h = record {
  one_at_a_time = ground (arith, h.one_at_a_time);
  alive = ground (arith, h.alive);
  quiet = ground (arith, h.quiet);
}
step-WellTimed def (settles ok) l h = record {
  one_at_a_time = ground (arith, h.one_at_a_time);
  alive = ground (arith, h.alive);
  quiet = ground (arith, h.quiet);
}
step-WellTimed def stops l h = record { one_at_a_time = refl; alive = λ e. cc; quiet = λ e. refl }

start_worker-WellTimed : (def : WorkerDefinition) → WellTimed (start_worker def)
unfolding start_worker schedule_next
start_worker-WellTimed def = record { one_at_a_time = refl; alive = λ e. refl; quiet = λ e. cc }

run_events-WellTimed :
    (def : WorkerDefinition) (es : List Event) (l : Loop)
    → WellTimed l
    → WellTimed (run_events def es l)
unfolding run_events
run_events-WellTimed def [] l h = h
run_events-WellTimed def (e ∷ es) l h =
    run_events-WellTimed def es (step def e l) (step-WellTimed def e l h)

-- Whatever happens to a started worker, no timer is set while a tick is active, so that its ticks
-- never overlap; the worker never goes to sleep for good unless it is stopped, and a stopped one has
-- no timer.
pub worker_is-WellTimed :
    (def : WorkerDefinition) (es : List Event) → WellTimed (run_events def es (start_worker def))
worker_is-WellTimed def es =
    run_events-WellTimed def es (start_worker def) (start_worker-WellTimed def)

stopped_step :
    (def : WorkerDefinition) (e : Event) (l : Loop)
    → l.stopped ≡ true
    → l.timer ≡ none
    → ((step def e l).stopped ≡ true)
      × ((step def e l).timer ≡ none)
      × ((step def e l).ticks ≡ l.ticks)
unfolding step schedule_next
stopped_step def fires l s t = ground (arith, s, t)
stopped_step def (settles ok) l s t = ground (arith, s, t)
stopped_step def stops l s t = (refl, refl, refl)

stopped_for_good :
    (def : WorkerDefinition) (es : List Event) (l : Loop)
    → l.stopped ≡ true
    → l.timer ≡ none
    → (run_events def es l).ticks ≡ l.ticks
unfolding run_events
stopped_for_good def [] l s t = refl
stopped_for_good def (e ∷ es) l s t =
    let (s', t', same) = stopped_step def e l s t in
    stopped_for_good def es (step def e l) s' t' ∙ same

stop_stops :
    (def : WorkerDefinition) (l : Loop)
    → ((step def stops l).stopped ≡ true)
      × ((step def stops l).timer ≡ none)
      × ((step def stops l).ticks ≡ l.ticks)
unfolding step
stop_stops def l = (refl, refl, refl)

-- Once a worker is stopped it never starts another tick, whatever comes after.
pub no_tick_after_stop :
    (def : WorkerDefinition) (es : List Event) (l : Loop)
    → (run_events def es (step def stops l)).ticks ≡ l.ticks
no_tick_after_stop def es l =
    let (s, t, same) = stop_stops def l in stopped_for_good def es (step def stops l) s t ∙ same

-- The delay after a tick never goes beyond the longest backoff after a failure, is the interval after
-- a success, and after a failure never falls as the failures in a row grow.
next_delay_bounds :
    (def : WorkerDefinition) (n m : ℕ)
    → n ≤ m
    → (next_delay def false n ≤ next_delay def false m)
      × (next_delay def false m ≤ max_backoff def)
      × (next_delay def true m ≡ def.interval_ms)
unfolding next_delay
next_delay_bounds def n m le = (
  omega (
    arith,
    mul-le-mul_left def.interval_ms
        (pow-le-pow_right {n = 2} (omega arith) {i = min n 16} {j = min m 16} (omega (arith, le))),
  ),
  omega arith,
  refl,
)
