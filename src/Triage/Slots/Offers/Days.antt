-- ===== src/Triage/Slots/Offers/Days.antt =====
-- The days of generateSlots in src/triage/meeting-slots.ts: the result and what each offer is.
use mathlib.Core.List.{append_assoc, append-nil}
use agent_orchestrator.Base.{
  ℕ, zero, suc, ◌∙◌, ◌+◌, ◌*◌, ◌≤◌, ◌<◌, Bool, false, ◌||◌, ◌&&◌, Option, some, none, List, [], ◌∷◌,
  ◌++◌, ◌≡◌, refl, sym, ap, arith, inl, inr, ltb, ◌==◌, Bool-cases, Option-cases, select, first,
  length, any, is_some, length-select_le, All, All-append, All-imply, get_or_else,
}
use agent_orchestrator.Outbound.SendWindow.{Luxon, Window, safe_zone, after}
use agent_orchestrator.Triage.Slots.{Slot, clashes, is_proper, slot_conflicts}
use agent_orchestrator.Triage.Slots.Merging.{slot_conflicts-any}
use agent_orchestrator.Triage.Slots.Offers.{
  Minutes, GenerateSlotsInput, soft_blocks_for_day, holds, window_at, plan_at, first_cursor,
  granularity_of, earliest, count_of, on_day, enough, days, day_at, generate_slots,
}
use agent_orchestrator.Triage.Slots.Offers.Clock.{IsClock, ceil_later}
use agent_orchestrator.Triage.Slots.Offers.Filling.{Offered, fill-Filled, busy_ahead, soft_ahead}

module _ (luxon : Luxon) (minutes : Minutes luxon) (clock : IsClock luxon minutes)
    (input : GenerateSlotsInput) where
  abbrev pub lead : ℕ
  lead = get_or_else input.options.lead_minutes 60

  abbrev pub soonest : ℕ
  soonest = input.now + lead * 60000

  abbrev pub horizon : ℕ
  horizon = get_or_else input.options.horizon_days 7

  earliest_read : luxon.to_millis (earliest luxon minutes input) ≡ some soonest
  earliest_read =
      clock.added (luxon.from_js_date input.now (safe_zone luxon input.tz)) input.now lead
        (clock.reads_back input.now input.tz)

  -- A day's first cursor is neither before its opening nor within the lead time.
  first_cursor_later :
      (w : Window luxon)
      → (c : ℕ) × (luxon.to_millis (first_cursor luxon minutes input w) ≡ some c)
        × (soonest ≤ c)
        × (after (luxon.to_millis w.opens) (some c) ≡ false)
  first_cursor_later w =
      elim (Bool-cases
        (after (luxon.to_millis w.opens) (luxon.to_millis (earliest luxon minutes input)))) [
          | inl later ↦ elim (Option-cases (luxon.to_millis w.opens)) [
            | inl invalid ↦ ground (arith, invalid, later)
            | inr (o, at) ↦
                let (c, read, le) =
                  ceil_later luxon minutes clock w.opens o (granularity_of luxon minutes input)
                    at in
                let past : soonest < o = ground (arith, later, at, earliest_read) in
                (c, rw later read, omega (arith, past, le), rw at (ground (arith, le)))
          ]
          | inr sooner ↦
              let (c, read, le) =
                ceil_later luxon minutes clock (earliest luxon minutes input) soonest
                  (granularity_of luxon minutes input) earliest_read in
              (
                c,
                rw sooner read,
                le,
                elim (Option-cases (luxon.to_millis w.opens)) [
                  | inl invalid ↦ rw invalid refl
                  | inr (o, at) ↦ ground (arith, at, sooner, earliest_read, le)
                ],
              )
        ]

  -- An offer lies in the window of a day of the horizon, and clears the busy intervals, as they
  -- are given, and the day's soft holds.
  pub record IsOffer (slot : Slot) : Type 0 where
    pub day : ℕ
    pub in_horizon : day < horizon
    pub window : Window luxon
    pub working : window_at luxon minutes input day ≡ some window
    pub long : slot.ends_at ≡ slot.starts_at + input.duration_minutes * 60000
    pub in_time : soonest ≤ slot.starts_at
    pub opened : after (luxon.to_millis window.opens) (some slot.starts_at) ≡ false
    pub not_closed : after (some slot.ends_at) (luxon.to_millis window.closes) ≡ false
    pub not_busy : any (λ b. is_proper b && clashes slot b) input.busy ≡ false
    pub not_held :
        any
          (holds luxon minutes (some slot.starts_at) (some slot.ends_at))
          (soft_blocks_for_day luxon minutes (day_at luxon minutes input day) input.soft_blocks)
        ≡ false

  any-first-select :
      {A : Type 0} (p : A → Bool) (xs : List A) → first (select p xs) ≡ none → any p xs ≡ false
  any-first-select p [] e = refl
  any-first-select p (x ∷ xs) e = ground (arith, any-first-select p xs)

  module _ (proper : 0 < input.duration_minutes) where
    Offered-IsOffer :
        (d c : ℕ) (w : Window luxon) (slot : Slot)
        → d < horizon
        → window_at luxon minutes input d ≡ some w
        → soonest ≤ c
        → after (luxon.to_millis w.opens) (some c) ≡ false
        → Offered luxon minutes clock
            (plan_at luxon minutes input d w)
            (λ m. clock.reads_back m input.tz)
            c
            slot
        → IsOffer slot
    unfolding slot_conflicts
    Offered-IsOffer d c w slot near working in_time opened (from, fits) = record {
      day = d;
      in_horizon = near;
      window = w;
      working = working;
      long = fits.long;
      in_time = omega (arith, in_time, from);
      opened = elim (Option-cases (luxon.to_millis w.opens)) [
        | inl invalid ↦ rw invalid refl
        | inr (o, at) ↦ ground (arith, at, opened, from)
      ];
      not_closed = fits.in_window;
      not_busy =
          sym ((slot_conflicts-any slot input.busy (ground (arith, fits.long, proper))).1)
          ∙ ap is_some fits.not_busy;
      not_held =
          any-first-select (holds luxon minutes (some slot.starts_at) (some slot.ends_at))
            (soft_blocks_for_day luxon minutes (day_at luxon minutes input d) input.soft_blocks)
            fits.not_held;
    }

    abbrev Given : List Slot → Option (List Slot) → Type 0
    Given out result =
        (added : List Slot) × (result ≡ some (out ++ added))
        × All IsOffer added
        × (length (out ++ added) ≤ count_of luxon minutes input)

    on_day-Given :
        (d : ℕ) (out : List Slot) (w : Option (Window luxon))
        → d < horizon
        → window_at luxon minutes input d ≡ w
        → length out ≤ count_of luxon minutes input
        → Given out (on_day luxon minutes input d out w)
    on_day-Given d out none near e short =
        ([], ap some (sym (append-nil out)), tt, rw (append-nil out) short)
    on_day-Given d out (some w) near e short =
        let (c, read, in_time, opened) = first_cursor_later w in
        let plan = plan_at luxon minutes input d w in
        let reads = λ (m : ℕ). clock.reads_back m input.tz in
        let (added, e', all, short') =
          fill-Filled luxon minutes clock plan reads c (enough luxon minutes plan)
            (first_cursor luxon minutes input w) c 0 out read (omega arith)
            (omega (
              arith,
              length-select_le (busy_ahead luxon minutes clock plan reads c) plan.busy,
              length-select_le (soft_ahead luxon minutes clock plan reads c) plan.softs,
            ))
            short in
        (
          added,
          e',
          All-imply (Offered luxon minutes clock plan reads c) IsOffer
              (λ slot o. Offered-IsOffer d c w slot near e in_time opened o) added all,
          short',
        )

    two_days :
        (out first_day : List Slot) (result : Option (List Slot))
        → All IsOffer first_day
        → Given (out ++ first_day) result
        → Given out result
    two_days out day result all (added, e, all', short) =
        let whole = append_assoc out day added in
        (day ++ added, e ∙ ap some whole, All-append IsOffer day added all all', rw whole at short)

    days-Given :
        (left d : ℕ) (out : List Slot)
        → left + d ≤ horizon
        → length out ≤ count_of luxon minutes input
        → Given out (days luxon minutes input left d out)
    unfolding days
    days-Given zero d out near short =
        ([], ap some (sym (append-nil out)), tt, rw (append-nil out) short)
    days-Given (suc left) d out near short =
        elim (Bool-cases (ltb (length out) (count_of luxon minutes input))) [
          | inr full ↦ rw full ([], ap some (sym (append-nil out)), tt, rw (append-nil out) short)
          | inl room ↦
              let w = window_at luxon minutes input d in
              let (added, e, all, short') = on_day-Given d out w (omega arith) refl short in
              rw (room, e)
                (two_days out added (days luxon minutes input left (d + 1) (out ++ added)) all
                  (days-Given left (d + 1) (out ++ added) (omega arith) short'))
        ]

  -- Over a clock that keeps luxon's laws the search for slots ends with a list: at most as many
  -- slots as were asked for, and each of them, of the asked length, lies in the open window of a day
  -- of the horizon, not within the lead time, and clears the busy intervals and the soft holds.
  pub generate_slots-IsOffer :
      (slots : List Slot) × (generate_slots luxon minutes input ≡ some slots)
      × (length slots ≤ count_of luxon minutes input)
      × All IsOffer slots
  unfolding generate_slots
  generate_slots-IsOffer =
      elim (Bool-cases (input.duration_minutes == 0 || count_of luxon minutes input == 0)) [
        | inl nothing ↦ rw nothing ([], refl, omega arith, tt)
        | inr wanted ↦
            let (slots, e, all, short) =
              days-Given (ground (arith, wanted)) horizon 0 [] (omega arith) (omega arith) in
            rw wanted (slots, e, short, all)
      ]
