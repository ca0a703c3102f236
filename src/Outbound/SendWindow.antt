-- ===== src/Outbound/SendWindow.antt =====
-- src/outbound/send-window.ts: business hours, holidays and the next open window. Dates are
-- luxon's, a parameter; a `none` of `to_millis` is an invalid DateTime, which compares false, and
-- a `none` number is NaN. Setting a NaN hour, where luxon throws, is taken as an invalid DateTime:
-- schedules with malformed times are outside the model.
pub mod Laws
mod Tests
use agent_orchestrator.Base.{
  ℕ, ◌+◌, ◌*◌, ◌-◌, ◌%◌, zero, suc, String, str_eq, Bool, true, false, not, ◌&&◌, ◌||◌, Option,
  some, none, List, [], ◌∷◌, map, leb, ltb, ◌==◌, if◌then◌else◌, any, get_or_else,
}
use Prim.Native.String
use Prim.Native.Char.{Char, code}

pub record Luxon : Type 1 where
  pub DateTime : Type 0
  pub from_js_date : ℕ → String → DateTime
  pub is_valid_zone : String → Bool
  pub weekday : DateTime → ℕ
  pub to_iso_date : DateTime → Option String
  pub set_time : DateTime → Option ℕ → Option ℕ → DateTime
  pub plus_days : DateTime → ℕ → DateTime
  pub start_of_day : DateTime → DateTime
  pub to_millis : DateTime → Option ℕ

pub record BusinessHour : Type 0 where
  pub day_of_week : ℕ
  pub start_time : String
  pub end_time : String
  pub is_working_day : Bool

pub record Holiday : Type 0 where
  pub date : String
  pub faith : String

pub record SoftBlock : Type 0 where
  pub start_minutes : Option ℕ
  pub end_minutes : Option ℕ
  pub days : Option (List ℕ)
  pub label : String

-- An entry of CALENDAR_SOFT_BLOCKS.
pub record SoftBlockConfig : Type 0 where
  pub start : String
  pub end : String
  pub label : String
  pub days : Option (List ℕ)

abbrev digit : Char → Option ℕ
digit c = if leb b'0' (code c) && leb (code c) b'9' then some (code c - b'0') else none

-- `Number` of a part of 'HH:MM[:SS]', whose characters are digits; other parts read as NaN.
number_from : ℕ → String → Option ℕ
number_from acc String.[] = some acc
number_from acc (String.◌∷◌ c s) = elim (digit c) [
  | none ↦ none
  | some d ↦ number_from (acc * 10 + d) s
]

number : String → Option ℕ
number s = number_from 0 s

abbrev push : String → Char → String
push s c = String.◌++◌ s (String.◌∷◌ c String.[])

-- `t.split(':')`
split_colon : String → String → List String
split_colon cur String.[] = cur ∷ []
split_colon cur (String.◌∷◌ c s) = elim (code c == b':') [
  | true ↦ cur ∷ split_colon "" s
  | false ↦ split_colon (push cur c) s
]

-- `{ hour: Number(h), minute: Number(m ?? 0) }`
abbrev time_of : List String → Option ℕ × Option ℕ
time_of [] = (none, some 0)
time_of (h ∷ []) = (number h, some 0)
time_of (h ∷ m ∷ _) = (number h, number m)

unfoldable pub parse_time : String → Option ℕ × Option ℕ
unfolding number number_from split_colon
parse_time t = time_of (split_colon "" t)

abbrev minutes_of : Option ℕ × Option ℕ → Option ℕ
minutes_of (some h, some m) = some (h * 60 + m)
minutes_of (some h, none) = none
minutes_of (none, _) = none

pub hhmm_to_minutes : String → Option ℕ
hhmm_to_minutes t = minutes_of (parse_time t)

pub to_soft_blocks : List SoftBlockConfig → List SoftBlock
to_soft_blocks = map (λ b. record {
  start_minutes = hhmm_to_minutes b.start;
  end_minutes = hhmm_to_minutes b.end;
  days = b.days;
  label = b.label;
})

-- `faith && faith !== 'none' ? faith : null`
abbrev effective_faith : Option String → Option String
effective_faith none = none
effective_faith (some f) = if str_eq f "" || str_eq f "none" then none else some f

abbrev same_faith : Option String → String → Bool
same_faith none f = false
same_faith (some g) f = str_eq f g

unfoldable pub is_holiday : String → List Holiday → Option String → Bool
is_holiday date holidays faith =
    any
      (λ h.
        str_eq h.date date
        && (str_eq h.faith "global" || same_faith (effective_faith faith) h.faith))
      holidays

-- The Map of businessHoursByDow: a later row of a day replaces an earlier one.
unfoldable pub business_hours_by_dow : List BusinessHour → ℕ → Option BusinessHour
business_hours_by_dow [] k = none
business_hours_by_dow (b ∷ bs) k = elim (business_hours_by_dow bs k) [
  | some later ↦ some later
  | none ↦ if b.day_of_week == k then some b else none
]

-- Comparison of two instants, false where one is invalid.
abbrev pub at_least : Option ℕ → Option ℕ → Bool
at_least (some a) (some b) = leb b a
at_least (some a) none = false
at_least none _ = false

abbrev pub after : Option ℕ → Option ℕ → Bool
after (some a) (some b) = ltb b a
after (some a) none = false
after none _ = false

pub data Reason : Type 0 where
  off_hours holiday : Reason

pub record SendWindowResult : Type 0 where
  pub allowed : Bool
  pub next_open : Option ℕ
  pub reason : Option Reason

abbrev pub scan_cap_days : ℕ
scan_cap_days = 14

module _ (luxon : Luxon) where
  open luxon use {
    DateTime, from_js_date, is_valid_zone, weekday, to_iso_date, set_time, plus_days, start_of_day,
    to_millis,
  }

  pub record Window : Type 0 where
    pub opens : DateTime
    pub closes : DateTime

  abbrev pub local_date : DateTime → String
  local_date day = get_or_else (to_iso_date day) ""

  abbrev pub set_to : DateTime → String → DateTime
  set_to day t = let (h, m) = parse_time t in set_time day h m

  abbrev window_of : DateTime → BusinessHour → Window
  window_of day row = record { opens = set_to day row.start_time; closes = set_to day row.end_time }

  unfoldable pub open_window_for_day :
      DateTime → (ℕ → Option BusinessHour) → List Holiday → Option String → Option Window
  open_window_for_day day by_dow holidays faith = elim (by_dow (weekday day % 7)) [
    | none ↦ none
    | some row ↦
        if not row.is_working_day
        then none
        else (if is_holiday (local_date day) holidays faith then none else some (window_of day row))
  ]

  -- `setZone(tz).isValid ? tz : 'utc'`
  unfoldable pub safe_zone : String → String
  safe_zone tz = if is_valid_zone tz then tz else "utc"

  abbrev inside : DateTime → Option Window → Bool
  inside now none = false
  inside now (some w) =
      at_least (to_millis now) (to_millis w.opens) && after (to_millis w.closes) (to_millis now)

  -- The window of the day that the scan is at, if it opens after `now`.
  abbrev pub opening : DateTime → Option Window → Option ℕ
  opening now none = none
  opening now (some w) =
      if after (to_millis w.opens) (to_millis now) then to_millis w.opens else none

  -- The loop `for (let d = 0; d < SCAN_CAP_DAYS; d += 1)`, by the days that are left.
  pub scan : (ℕ → Option BusinessHour) → List Holiday → Option String → DateTime → ℕ → ℕ → Option ℕ
  scan by_dow holidays faith now d zero = none
  scan by_dow holidays faith now d (suc left) =
      elim (opening now
        (open_window_for_day (start_of_day (plus_days now d)) by_dow holidays faith)) [
          | some t ↦ some t
          | none ↦ scan by_dow holidays faith now (d + 1) left
        ]

  pub compute_send_window :
      ℕ → String → List BusinessHour → List Holiday → Option String → SendWindowResult
  compute_send_window now_utc tz hours holidays faith =
      let by_dow = business_hours_by_dow hours in
      let now = from_js_date now_utc (safe_zone tz) in
      let later = scan by_dow holidays faith now 0 scan_cap_days in
      if is_holiday (local_date now) holidays faith
      then record { allowed = false; next_open = later; reason = some holiday }
      else (if inside now (open_window_for_day now by_dow holidays faith)
          then record { allowed = true; next_open = none; reason = none }
          else record { allowed = false; next_open = later; reason = some off_hours })
