-- ===== src/Runtime/Shutdown.antt =====
-- src/runtime/graceful-shutdown.ts and src/runtime/advisory-worker.ts, as the effects they have in
-- order.
use agent_orchestrator.Base.{
  ℕ, Bool, true, false, List, [], ◌∷◌, ◌++◌, ◌≡◌, refl, ◌∙◌, if◌then◌else◌, map, length, select,
}

-- How the race between the cleanup and the deadline ends.
pub data Race : Type 0 where
  cleaned_up cleanup_failed deadline_passed : Race

pub data Effect : Type 0 where
  log_start : Effect
  stop_worker : ℕ → Effect
  begin_cleanup : Effect
  warn_cleanup_failed : Effect
  close_all_connections : Effect
  warn_forced : Effect
  exit : ℕ → Effect

abbrev pub is_exit : Effect → Bool
is_exit (exit code) = true
is_exit _ = false

abbrev after_race : Race → List Effect
after_race cleaned_up = exit 0 ∷ []
after_race cleanup_failed = warn_cleanup_failed ∷ exit 1 ∷ []
after_race deadline_passed = close_all_connections ∷ warn_forced ∷ exit 0 ∷ []

-- `workers` are the handles; begin_cleanup starts to close the server, to wait for the workers and to
-- close the resources.
pub shutdown_effects : List ℕ → Race → List Effect
shutdown_effects workers race =
    log_start ∷ map stop_worker workers ++ begin_cleanup ∷ after_race race

-- The state is the stored promise: has a shutdown begun?
pub shutdown : List ℕ → Race → Bool → Bool × List Effect
shutdown workers race begun = if begun then (true, []) else (true, shutdown_effects workers race)

-- One call for each signal.
pub signals : List ℕ → List Race → Bool → List Effect
signals workers [] begun = []
signals workers (race ∷ races) begun =
    let (begun', effects) = shutdown workers race begun in effects ++ signals workers races begun'

signals_begun : (workers : List ℕ) (races : List Race) → signals workers races true ≡ []
unfolding signals shutdown
signals_begun workers [] = refl
signals_begun workers (race ∷ races) = signals_begun workers races

append-nil : {A : Type 0} (xs : List A) → xs ++ [] ≡ xs
append-nil [] = refl
append-nil (x ∷ xs) = rw (append-nil xs) refl

-- However many signals arrive, the shutdown runs once, for the first of them.
signals_once :
    (workers : List ℕ) (race : Race) (races : List Race)
    → signals workers (race ∷ races) false ≡ shutdown_effects workers race
unfolding signals shutdown
signals_once workers race races =
    rw (signals_begun workers races) (append-nil (shutdown_effects workers race))

exits_in_stops :
    (workers : List ℕ) (rest : List Effect)
    → length (select is_exit (map stop_worker workers ++ rest)) ≡ length (select is_exit rest)
exits_in_stops [] rest = refl
exits_in_stops (w ∷ ws) rest = exits_in_stops ws rest

exits_after : (race : Race) → length (select is_exit (after_race race)) ≡ 1
exits_after cleaned_up = refl
exits_after cleanup_failed = refl
exits_after deadline_passed = refl

-- A process that gets at least one signal exits exactly once, whether its cleanup ends, fails or is cut
-- off by the deadline.
pub signals_exit_once :
    (workers : List ℕ) (race : Race) (races : List Race)
    → length (select is_exit (signals workers (race ∷ races) false)) ≡ 1
unfolding shutdown_effects
signals_exit_once workers race races =
    rw (signals_once workers race races)
      (exits_in_stops workers (begin_cleanup ∷ after_race race) ∙ exits_after race)

-- The advisory lease around a worker's run.
pub data LeaseEffect : Type 0 where
  warn_busy run_worker unlock : LeaseEffect

-- `throws` says that the run throws; the result says whether the lease passes the error on.
pub with_advisory_worker_lock : (locked throws : Bool) → List LeaseEffect × Bool
with_advisory_worker_lock false throws = (warn_busy ∷ [], false)
with_advisory_worker_lock true throws = (run_worker ∷ unlock ∷ [], throws)
