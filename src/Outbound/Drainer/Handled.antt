-- ===== src/Outbound/Drainer/Handled.antt =====
-- What processing one claimed row comes to: one update of its row, and at most one dispatch, which
-- has passed every gate.
use agent_orchestrator.Base.{
  ℕ, ◌+◌, ◌-◌, ◌*◌, ◌≤◌, ◌<◌, String, eq_iff, Bool, true, false, ◌||◌, Option, some, List, [], ◌∷◌,
  ◌++◌, get_or_else, ◌≡◌, refl, arith, ◌⊎◌, inl, inr, Bool-cases, Option-cases, leb,
}
use agent_orchestrator.Outbound.Queue.{
  ClaimedOutbound, mark_sent, retry_later, defer_until, fail_review, count_sent_since, last_sent_at,
}
use agent_orchestrator.Outbound.SendWindow.{Luxon, BusinessHour, Holiday}
use agent_orchestrator.Outbound.Drainer.{
  DrainerConfig, Adapter, SendOutcome, delivered, refused, unrecorded, Caught, send_error, error,
  value, backoff_of, World, Clock, hour_ms, day_ms, max_send_attempts, classify, message_of,
  dispatch, too_soon, in_lease, with_lease, window_at, check_window, recent_failures, check_breaker,
  is_isolated, check_isolation, process_row,
}

-- The pacing gates, inside the lease.
pub record IsPaced (cfg : DrainerConfig) (clock : Clock) (row : ClaimedOutbound) (w : World)
    : Type 0 where
  pub rate :
      count_sent_since row.channel_instance_id row.recipient_address (clock.lease_at - hour_ms) w.db
      < cfg.rate_per_hour
  pub gap :
      (last : ℕ)
      → last_sent_at row.channel_instance_id row.recipient_address w.db ≡ some last
      → last + cfg.min_gap_ms ≤ clock.lease_at

-- All that a message has passed when it leaves.
pub record PassesGates (luxon : Luxon) (cfg : DrainerConfig) (registry : String → Option Adapter)
    (hours : List BusinessHour) (holidays : List Holiday) (clock : Clock) (held : Bool)
    (row : ClaimedOutbound) (w : World) : Type 0 where
  pub adapter :
      (a : Adapter) × (registry row.channel_instance_id ≡ some a)
      × (a.can_send ≡ true)
      × (a.instance_id ≡ row.channel_instance_id)
      × (a.channel_type ≡ row.channel_type)
  pub breaker :
      recent_failures luxon cfg registry hours holidays clock row w < cfg.max_recipient_failures
  pub window :
      (row.bypass_send_window ≡ true)
      ⊎ ((window_at luxon cfg registry hours holidays clock.row_at row).allowed ≡ true)
  pub lease : held ≡ false
  pub paced : IsPaced cfg clock row w

abbrev pub Sends : ClaimedOutbound → World → World → Type 0
Sends row w w' = w'.dispatched ≡ w.dispatched ++ (row.id, message_of row) ∷ []

-- How a row leaves the drainer. `G` is what holds if its message was dispatched.
pub data Handled (G : Type 0) (row : ClaimedOutbound) (w w' : World) : Type 0 where
  parked :
      (now t : ℕ)
      → w'.db ≡ defer_until now row.id t w.db
      → w'.dispatched ≡ w.dispatched
      → Handled G row w w'
  barred :
      (now : ℕ) (reason : String)
      → w'.db ≡ fail_review now row.id reason false w.db
      → w'.dispatched ≡ w.dispatched
      → Handled G row w w'
  recorded :
      (now : ℕ) (provider : String)
      → w'.db ≡ mark_sent now row.id provider w.db
      → Sends row w w'
      → G
      → Handled G row w w'
  reviewed :
      (now : ℕ) (reason : String) (possibly : Bool)
      → w'.db ≡ fail_review now row.id reason possibly w.db
      → Sends row w w'
      → G
      → Handled G row w w'
  retried :
      (now : ℕ) (reason : String) (backoff : ℕ)
      → w'.db ≡ (retry_later now row.id reason max_send_attempts backoff w.db).0
      → Sends row w w'
      → G
      → Handled G row w w'

-- A stronger reason for the dispatch.
pub Handled-map :
    {G H : Type 0} {row : ClaimedOutbound} {w w' : World}
    → (G → H)
    → Handled G row w w'
    → Handled H row w w'
Handled-map f (parked now t d s) = parked now t d s
Handled-map f (barred now reason d s) = barred now reason d s
Handled-map f (recorded now p d s g) = recorded now p d s (f g)
Handled-map f (reviewed now reason b d s g) = reviewed now reason b d s (f g)
Handled-map f (retried now reason b d s g) = retried now reason b d s (f g)

abbrev sending : ClaimedOutbound → World → World
sending row w = record w { dispatched = w.dispatched ++ (row.id, message_of row) ∷ [] }

-- A failed send.
classify-Handled :
    (now : ℕ) (row : ClaimedOutbound) (err : Caught) (w : World)
    → Handled (Unit {0}) row w (classify now row err (sending row w))
unfolding classify
classify-Handled now row (send_error r true reason) w = reviewed now reason true refl refl tt
classify-Handled now row (send_error true false reason) w =
    retried now reason (backoff_of row) (ground arith) (ground arith) tt
classify-Handled now row (send_error false false reason) w = reviewed now reason false refl refl tt
classify-Handled now row (error name) w = reviewed now name true refl refl tt
classify-Handled now row value w = reviewed now "unknown send error" true refl refl tt

dispatch-Handled :
    (now : ℕ) (row : ClaimedOutbound) (outcome : SendOutcome) (w : World)
    → Handled (Unit {0}) row w (dispatch now row outcome w)
unfolding dispatch
dispatch-Handled now row (delivered pid) w = recorded now pid refl refl tt
dispatch-Handled now row (refused err) w = classify-Handled now row err w
dispatch-Handled now row (unrecorded name) w = classify-Handled now row (error name) w

in_lease-Handled :
    (cfg : DrainerConfig) (clock : Clock) (row : ClaimedOutbound) (outcome : SendOutcome)
    (w : World)
    → Handled (IsPaced cfg clock row w) row w (in_lease cfg clock row outcome w)
unfolding in_lease
in_lease-Handled cfg clock row outcome w =
    let now = clock.lease_at in
    let count =
      count_sent_since row.channel_instance_id row.recipient_address (now - hour_ms) w.db in
    let last = last_sent_at row.channel_instance_id row.recipient_address w.db in
    elim (Bool-cases (leb cfg.rate_per_hour count)) [
      | inl full ↦ rw full (parked now _ refl refl)
      | inr room ↦ elim (Bool-cases (too_soon cfg now last)) [
        | inl soon ↦ rw (room, soon) (parked now _ refl refl)
        | inr late ↦
            rw (room, late)
              (Handled-map (λ u. record { rate = ground arith; gap = λ t e. ground arith })
                (dispatch-Handled clock.done_at row outcome w))
      ]
    ]

module _ (luxon : Luxon) (cfg : DrainerConfig) (registry : String → Option Adapter)
    (hours : List BusinessHour) (holidays : List Holiday) (clock : Clock) (held : Bool)
    (row : ClaimedOutbound) (outcome : SendOutcome) (w : World) where
  abbrev Gated : Type 0
  Gated =
      ((row.bypass_send_window ≡ true)
        ⊎ ((window_at luxon cfg registry hours holidays clock.row_at row).allowed ≡ true))
      × (held ≡ false)
      × IsPaced cfg clock row w

  with_lease-Handled :
      Handled
        ((held ≡ false) × IsPaced cfg clock row w)
        row
        w
        (with_lease cfg clock held row outcome w)
  unfolding with_lease
  with_lease-Handled = elim (Bool-cases held) [
    | inl taken ↦ rw taken (parked clock.done_at _ refl refl)
    | inr free ↦ rw free (Handled-map (λ p. (refl, p)) (in_lease-Handled cfg clock row outcome w))
  ]

  check_window-Handled :
      Handled Gated row w (check_window luxon cfg registry hours holidays clock held row outcome w)
  unfolding check_window
  check_window-Handled =
      let win = window_at luxon cfg registry hours holidays clock.row_at row in
      elim (Bool-cases (row.bypass_send_window || win.allowed)) [
        | inl through ↦ rw through (Handled-map (λ p. (ground arith, p.0, p.1)) with_lease-Handled)
        | inr shut ↦ rw shut (
            parked clock.row_at (get_or_else win.next_open (clock.row_at + day_ms)) (ground arith)
              (ground arith))
      ]

  check_breaker-Handled :
      Handled
        ((recent_failures luxon cfg registry hours holidays clock row w
            < cfg.max_recipient_failures)
          × Gated)
        row
        w
        (check_breaker luxon cfg registry hours holidays clock held row outcome w)
  unfolding check_breaker
  check_breaker-Handled =
      let failures = recent_failures luxon cfg registry hours holidays clock row w in
      elim (Bool-cases (leb cfg.max_recipient_failures failures)) [
        | inl many ↦ rw many (
            parked clock.row_at (clock.row_at + cfg.failure_window_min * 60000) (ground arith)
              (ground arith))
        | inr few ↦ rw few (Handled-map (λ p. (ground arith, p)) check_window-Handled)
      ]

  abbrev Isolated : Adapter → Type 0
  Isolated a =
      (a.instance_id ≡ row.channel_instance_id)
      × (a.channel_type ≡ row.channel_type)
      × (recent_failures luxon cfg registry hours holidays clock row w < cfg.max_recipient_failures)
      × Gated

  check_isolation-Handled :
      (a : Adapter)
      → Handled
          (Isolated a)
          row
          w
          (check_isolation luxon cfg registry hours holidays clock held a row outcome w)
  unfolding check_isolation
  check_isolation-Handled a =
      elim (Bool-cases (is_isolated luxon cfg registry hours holidays a row)) [
        | inr mixed ↦ rw mixed (barred clock.row_at _ refl refl)
        | inl same ↦ rw same (
            Handled-map
              (λ p. (
                ground (arith, eq_iff a.instance_id row.channel_instance_id),
                ground (arith, eq_iff a.channel_type row.channel_type),
                p.0,
                p.1,
              ))
              check_breaker-Handled)
      ]

  abbrev Gates : Type 0
  Gates = PassesGates luxon cfg registry hours holidays clock held row w

  to_gates :
      (a : Adapter)
      → registry row.channel_instance_id ≡ some a
      → a.can_send ≡ true
      → Isolated a
      → Gates
  to_gates a e able (inst, channel, few, (win, free, paced)) = record {
    adapter = (a, e, able, inst, channel);
    breaker = few;
    window = win;
    lease = free;
    paced = paced;
  }

  -- Processing a claimed row is one update of that row's entry: it is parked for later, barred for
  -- review, or its message is dispatched, once, and recorded as sent, put up for review or retried.
  -- A message is dispatched only if it has passed every gate: an adapter that can send and belongs
  -- to the row's own instance and channel, the failure breaker, the send window unless the row
  -- bypasses it, the recipient's lease, the hourly cap and the minimum gap.
  pub process_row-Handled :
      Handled Gates row w (process_row luxon cfg registry hours holidays clock held row outcome w)
  unfolding process_row
  process_row-Handled = elim (Option-cases (registry row.channel_instance_id)) [
    | inl missing ↦ rw (missing, process_row) (barred clock.row_at _ refl refl)
    | inr (a, e) ↦ elim (Bool-cases a.can_send) [
      | inr mute ↦ rw (e, mute, process_row) (barred clock.row_at _ refl refl)
      | inl able ↦
          rw (e, process_row)
            (simp able (Handled-map (to_gates a e able) (check_isolation-Handled a)))
    ]
  ]
