-- ===== src/Runtime/Tests.antt =====
-- The theorems about src/workers, src/runtime and src/adapters/shared/retry.ts at concrete workers.
use agent_orchestrator.Base.{
  ℕ, ltb, if◌then◌else◌, String, true, false, some, none, List, [], ◌∷◌, ◌≡◌, arith, length, select,
}
use agent_orchestrator.Runtime.Retry.{
  Answer, returned, threw, RetryOptions, with_retry, Settled, with_retry-Settled,
}
use agent_orchestrator.Runtime.Registry.{WorkerDefinition, Entry}
use agent_orchestrator.Runtime.Worker.{
  Event, fires, settles, stops, step, start_worker, run_events, WellTimed, worker_is-WellTimed,
  no_tick_after_stop,
}
use agent_orchestrator.Runtime.Shutdown.{
  cleaned_up, deadline_passed, is_exit, signals, signals_exit_once,
}

abbrev drainer : WorkerDefinition
drainer = record {
  name = "drainer";
  interval_ms = 1000;
  max_backoff_ms = none;
  max_runtime_ms = none;
  critical = some true;
  run_immediately = true;
}

abbrev options : RetryOptions String
options = record {
  attempts = 3;
  base_ms = 300;
  factor = 2;
  cap_ms = 5000;
  is_retryable = λ err. true;
  retry_after_ms = λ err. none;
}

abbrev fails_twice : ℕ → Answer String ℕ
fails_twice n = if ltb n 3 then threw "503" else returned 42

abbrev exact : ℕ → ℕ → ℕ
exact attempt raw = raw

with_retry-Settled_example :
    (final : ℕ) × Settled exact options fails_twice 1 final (with_retry exact options fails_twice)
with_retry-Settled_example = with_retry-Settled exact options fails_twice (omega arith)

abbrev registry : List Entry
registry =
    record {
      name = "drainer";
      interval_ms = 1000;
      max_runtime_ms = 60000;
      critical = true;
      last_run_at = none;
      last_success_at = none;
      last_duration_ms = none;
      last_error = none;
      consecutive_failures = 2;
      is_running = false;
    }
    ∷ []

abbrev events : List Event
events = fires ∷ settles false ∷ fires ∷ []

worker_is-WellTimed_example : WellTimed (run_events drainer events (start_worker drainer))
worker_is-WellTimed_example = worker_is-WellTimed drainer events

no_tick_after_stop_example :
    (run_events drainer events
      (step drainer stops (run_events drainer events (start_worker drainer)))).ticks
    ≡ (run_events drainer events (start_worker drainer)).ticks
no_tick_after_stop_example =
    no_tick_after_stop drainer events (run_events drainer events (start_worker drainer))

signals_exit_once_example :
    length (select is_exit (signals (1 ∷ 2 ∷ []) (deadline_passed ∷ cleaned_up ∷ []) false)) ≡ 1
signals_exit_once_example = signals_exit_once (1 ∷ 2 ∷ []) deadline_passed (cleaned_up ∷ [])
