-- ===== src/Triage/Meetings/Options.antt =====
-- The button ids of src/triage/meeting-scheduler.ts.
use Prim.Native.Char.{Char, code as char_code}
use agent_orchestrator.Base.{
  ℕ, zero, suc, ◌+◌, ◌-◌, ◌*◌, String, str_eq, ◌&&◌, Option, some, none, leb, ◌==◌, if◌then◌else◌,
}

pub data MeetingOption : Type 0 where
  duration : ℕ → MeetingOption
  slot : ℕ → MeetingOption
  other : MeetingOption
  task : MeetingOption

-- `\d`
abbrev digit : Char → Option ℕ
digit c =
    if leb b'0' (char_code c) && leb (char_code c) b'9' then some (char_code c - b'0') else none

-- Digits up to the end of a text, `left` at most.
digits : ℕ → ℕ → String → Option ℕ
digits left acc String.[] = some acc
digits zero acc (String.◌∷◌ c s) = none
digits (suc left) acc (String.◌∷◌ c s) = elim (digit c) [
  | none ↦ none
  | some d ↦ digits left (acc * 10 + d) s
]

-- `Number` of one digit or more
abbrev number_up_to : ℕ → String → Option ℕ
number_up_to most String.[] = none
number_up_to most (String.◌∷◌ c s) = digits most 0 (String.◌∷◌ c s)

abbrev numbered : Option ℕ → Option ℕ → Option MeetingOption
numbered (some minutes) index = some (duration minutes)
numbered none (some index) = some (slot index)
numbered none none = none

-- The number after a letter `m` and a given one.
abbrev after_m : ℕ → ℕ → String → Option ℕ
after_m letter most String.[] = none
after_m letter most (String.◌∷◌ c String.[]) = none
after_m letter most (String.◌∷◌ c (String.◌∷◌ d s)) =
    if char_code c == b'm' && char_code d == letter then number_up_to most s else none

unfoldable pub parse_meeting_option : String → Option MeetingOption
unfolding digits
parse_meeting_option id =
    if str_eq id "mso"
    then some other
    else (if str_eq id "mtask" then some task else numbered (after_m b'd' 3 id) (after_m b's' 2 id))
