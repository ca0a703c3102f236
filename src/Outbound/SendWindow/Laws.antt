-- ===== src/Outbound/SendWindow/Laws.antt =====
-- When a send is allowed, and where the next window is, stated without the code's tests.
use mathlib.Core.List.{Memᴰ}
use agent_orchestrator.Base.{
  ℕ, zero, suc, ◌+◌, ◌≤◌, ◌<◌, ◌%◌, String, str_eq, eq_iff, Bool, true, false, Option, some, none,
  List, [], ◌∷◌, ◌≡◌, ◌≢◌, ◌⊎◌, inl, inr, refl, arith, Bool-cases, Option-cases, ◌∙◌, ◌↔◌, ◌&&◌,
  ◌||◌, any,
}
use mathlib.Core.Path.{subst}
use native.Mathlib.Decide.{ℕ_discrete}
use agent_orchestrator.Outbound.SendWindow.{
  Luxon, SendWindowResult, BusinessHour, Holiday, Window, is_holiday, same_faith, effective_faith,
  business_hours_by_dow, open_window_for_day, opening, scan, scan_cap_days, safe_zone, local_date,
  window_of, compute_send_window, at_least, after,
}

-- A holiday that the customer observes: a global one, or one of the customer's own faith.
abbrev pub Observes : Option String → Holiday → Type 0
Observes faith h =
    (h.faith ≡ "global") ⊎ ((faith ≡ some h.faith) × (h.faith ≢ "") × (h.faith ≢ "none"))

abbrev pub Observed : String → List Holiday → Option String → Type 0
Observed date holidays faith = (h : Holiday) × Memᴰ h holidays × (h.date ≡ date) × Observes faith h

abbrev hits : String → Option String → Holiday → Bool
hits date faith h =
    str_eq h.date date && (str_eq h.faith "global" || same_faith (effective_faith faith) h.faith)

hits_iff :
    (date : String) (faith : Option String) (h : Holiday)
    → (hits date faith h ≡ true) ↔ ((h.date ≡ date) × Observes faith h)
hits_iff date none h = ground (arith, eq_iff h.date date, eq_iff h.faith "global")
hits_iff date (some f) h = ground (
  arith,
  eq_iff h.date date,
  eq_iff h.faith "global",
  eq_iff h.faith f,
  eq_iff f "",
  eq_iff f "none",
)

Observed-head :
    (date : String) (faith : Option String) (h : Holiday) (hs : List Holiday) (g : Holiday)
    → (Observed date hs faith → any (hits date faith) hs ≡ true)
    → Memᴰ g (h ∷ hs)
    → (g.date ≡ date) × Observes faith g
    → (hits date faith h || any (hits date faith) hs) ≡ true
Observed-head date faith h hs g rest (Memᴰ.head e) obs = ground (
  arith,
  (hits_iff date faith g).1 obs,
  subst (λ x. hits date faith x ≡ true) e ((hits_iff date faith g).1 obs),
)
Observed-head date faith h hs g rest (Memᴰ.tail m) obs = ground (arith, rest (g, m, obs.0, obs.1))

-- A date is a holiday for a customer exactly if the calendar holds, on that date, a global holiday
-- or one of the customer's faith; no faith, an empty one and 'none' observe global holidays only.
is_holiday-Observed :
    (date : String) (holidays : List Holiday) (faith : Option String)
    → (is_holiday date holidays faith ≡ true) ↔ Observed date holidays faith
unfolding is_holiday
is_holiday-Observed date [] faith = (λ h. cc, λ o. elim o.1 [ ])
is_holiday-Observed date (h ∷ hs) faith =
    let (to, from) = is_holiday-Observed date hs faith in
    let (here, back) = hits_iff date faith h in
    (
      λ e. elim (Bool-cases (hits date faith h)) [
        | inl hit ↦ let (same, obs) = here hit in (h, Memᴰ.head refl, same, obs)
        | inr miss ↦ let (g, m, same, obs) = to (rw miss at e) in (g, Memᴰ.tail m, same, obs)
      ],
      λ o. Observed-head date faith h hs o.0 (from) o.1 (o.2, o.3),
    )

module _ (luxon : Luxon) where
  open luxon use {DateTime, from_js_date, weekday, set_time, plus_days, start_of_day, to_millis}

  -- The window of a day: its weekday's row is a working day and the date is no observed holiday.
  pub record IsOpenDay (day : DateTime) (hours : List BusinessHour) (holidays : List Holiday)
      (faith : Option String) (w : Window luxon) : Type 0 where
    pub row : BusinessHour
    pub listed : business_hours_by_dow hours (weekday day % 7) ≡ some row
    pub working : row.is_working_day ≡ true
    pub not_observed : ¬ Observed (local_date luxon day) holidays faith
    pub window : w ≡ window_of luxon day row

  open_window-IsOpenDay :
      (day : DateTime) (hours : List BusinessHour) (holidays : List Holiday) (faith : Option String)
      (w : Window luxon)
      → open_window_for_day luxon day (business_hours_by_dow hours) holidays faith ≡ some w
      → IsOpenDay day hours holidays faith w
  unfolding open_window_for_day
  open_window-IsOpenDay day hours holidays faith w h =
      elim (Option-cases (business_hours_by_dow hours (weekday day % 7))) [
        | inl missing ↦ absurd (ground arith)
        | inr (row, e) ↦ record {
          row = row;
          listed = e;
          working = ground arith;
          not_observed =
              λ o. ground (arith, (is_holiday-Observed (local_date luxon day) holidays faith).1 o);
          window = ground arith;
        }
      ]

  module _ (now_utc : ℕ) (tz : String) (hours : List BusinessHour) (holidays : List Holiday)
      (faith : Option String) where
    abbrev pub now : DateTime
    now = from_js_date now_utc (safe_zone luxon tz)

    abbrev result : SendWindowResult
    result = compute_send_window luxon now_utc tz hours holidays faith

    -- A send is allowed only inside the window of an open day: from its opening instant on, and
    -- before its closing one.
    pub allowed_inside :
        (compute_send_window luxon now_utc tz hours holidays faith).allowed ≡ true
        → (w : Window luxon) × IsOpenDay now hours holidays faith w
          × (at_least (to_millis now) (to_millis w.opens) ≡ true)
          × (after (to_millis w.closes) (to_millis now) ≡ true)
    unfolding compute_send_window
    allowed_inside h =
        elim (Option-cases
          (open_window_for_day luxon now (business_hours_by_dow hours) holidays faith)) [
            | inl shut ↦ absurd (ground arith)
            | inr (w, e) ↦
                (w, open_window-IsOpenDay now hours holidays faith w e, ground arith, ground arith)
          ]

    -- The opening instant on the j-th day from now, if it is still to come.
    abbrev pub opening_on : ℕ → Option ℕ
    opening_on j = opening luxon now (
        open_window_for_day luxon (start_of_day (plus_days now j)) (business_hours_by_dow hours)
          holidays faith)

    scan_found :
        (d left t : ℕ)
        → scan luxon (business_hours_by_dow hours) holidays faith now d left ≡ some t
        → (e : ℕ) × (d ≤ e)
          × (e < d + left)
          × (opening_on e ≡ some t)
          × ((j : ℕ) → d ≤ j → j < e → opening_on j ≡ none)
    unfolding scan
    scan_found d zero t h = cc
    scan_found d (suc left) t h = elim (Option-cases (opening_on d)) [
      | inr (u, e) ↦ (d, omega arith, omega arith, e ∙ ground arith, λ j p q. absurd (omega arith))
      | inl shut ↦
          let (k, low, high, at, earlier) = scan_found (d + 1) left t (ground arith) in
          (
            k,
            omega arith,
            omega arith,
            at,
            λ j p q. elim (ℕ_discrete j d) [
              | yes same ↦ rw same shut
              | no other ↦ earlier j (omega arith) q
            ],
          )
    ]

    scan-none :
        (d left : ℕ)
        → scan luxon (business_hours_by_dow hours) holidays faith now d left ≡ none
        → (j : ℕ) → d ≤ j
        → j < d + left
        → opening_on j ≡ none
    unfolding scan
    scan-none d zero h j p q = absurd (omega arith)
    scan-none d (suc left) h j p q = elim (Option-cases (opening_on d)) [
      | inr (u, e) ↦ absurd (ground arith)
      | inl shut ↦ elim (ℕ_discrete j d) [
        | yes same ↦ rw same shut
        | no other ↦ scan-none (d + 1) left (ground arith) j (omega arith) (omega arith)
      ]
    ]

    -- The next opening that the result names is the first to come on the fourteen days from today.
    pub next_open_first :
        (t : ℕ)
        → (compute_send_window luxon now_utc tz hours holidays faith).next_open ≡ some t
        → (e : ℕ) × (e < 14) × (opening_on e ≡ some t) × ((j : ℕ) → j < e → opening_on j ≡ none)
    unfolding compute_send_window
    next_open_first t h =
        let (e, low, high, at, earlier) = scan_found 0 scan_cap_days t (ground arith) in
        (e, omega arith, at, λ j q. earlier j (omega arith) q)

    -- A refusal that names no next opening is given only when none comes on those fourteen days.
    no_next_open :
        (j : ℕ)
        → (compute_send_window luxon now_utc tz hours holidays faith).allowed ≡ false
        → (compute_send_window luxon now_utc tz hours holidays faith).next_open ≡ none
        → j < 14
        → opening_on j ≡ none
    unfolding compute_send_window
    no_next_open j shut h q = scan-none 0 scan_cap_days (ground arith) j (omega arith) (omega arith)
