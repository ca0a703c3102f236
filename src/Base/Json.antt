-- ===== src/Base/Json.antt =====
-- JSON values whose numbers are natural. `JSON.stringify` and `JSON.parse` are a codec.
use agent_orchestrator.Base.Tests.{if◌then◌else◌}
use Prim.Native.Nat.{ℕ}
use Prim.Native.String.{String}
use mathlib.Core.Path.{◌≡◌}
use mathlib.Core.Bool.{Bool, false}
use mathlib.Core.Option.{Option, none, some}
use text.Mathlib.Text.{◌==◌ as str_eq}

mutual
  pub data Json : Type 0 where
    null : Json
    boolean : Bool → Json
    number : ℕ → Json
    string : String → Json
    array : Items → Json
    object : Fields → Json

  pub data Items : Type 0 where
    end : Items
    item : Json → Items → Items

  pub data Fields : Type 0 where
    no_fields : Fields
    field : String → Json → Fields → Fields

pub record JsonCodec : Type 0 where
  pub stringify : Json → String
  pub parse : String → Option Json

-- What is written is what is read back, and no text of JSON is empty.
abbrev pub Reads : JsonCodec → Json → Type 0
Reads json j = (json.parse (json.stringify j) ≡ some j) × (str_eq (json.stringify j) "" ≡ false)

abbrev pub get_field : String → Fields → Option Json
get_field name no_fields = none
get_field name (field f j fs) = if str_eq f name then some j else get_field name fs

-- `j.name`, where `undefined` is none
abbrev pub member_of : String → Json → Option Json
member_of name (object fs) = get_field name fs
member_of name _ = none

-- `typeof x === 'string'`
abbrev pub as_text : Option Json → Option String
as_text (some (string s)) = some s
as_text _ = none

-- `typeof x === 'number'`
abbrev pub as_number : Option Json → Option ℕ
as_number (some (number n)) = some n
as_number _ = none
