-- ===== src/Common/Values.antt =====
-- Parsed JSON values that the frontend passes on. A number is kept as the text of its literal,
-- since the code that holds such a value never computes with a number inside it.
use Prim.Native.String
use Prim.Native.String.{String}
use Prim.Native.Nat.{ℕ}
use mathlib.Core.Bool.{Bool, true, false, not}
use mathlib.Core.Option.{Option, none, some}
use mathlib.Core.List.{List}
use text.Mathlib.Text.{◌==◌ as str_eq}
use open_pm.Common.Tests.{if◌then◌else◌}

-- A text that is cut and counted: its UTF-16 code units.
abbrev pub Text : Type 0
Text = List ℕ

mutual
  pub data Json : Type 0 where
    null : Json
    bool : Bool → Json
    num : String → Json
    str : String → Json
    arr : Items → Json
    obj : Fields → Json

  pub data Items : Type 0 where
    nil : Items
    cons : Json → Items → Items

  pub data Fields : Type 0 where
    end : Fields
    field : String → Json → Fields → Fields

-- `{}`.
abbrev pub empty_object : Json
empty_object = obj end

-- `value.name`, with `none` for `undefined`; the names of an object are distinct.
abbrev pub field_in : String → Fields → Option Json
field_in name end = none
field_in name (field key value later) =
    let found = field_in name later in if str_eq key name then some value else found

abbrev pub get_field : String → Json → Option Json
get_field name (obj fields) = field_in name fields
get_field name _ = none

-- The test `if (value)` on a JSON value; JavaScript prints both zeros as "0".
abbrev pub json_truthy : Json → Bool
json_truthy null = false
json_truthy (bool b) = b
json_truthy (num literal) = not (str_eq literal "0")
json_truthy (str text) = not (str_eq text "")
json_truthy _ = true

-- The parts of a template.
infixr 65 ◌&◌
abbrev pub ◌&◌ : String → String → String
s & t = String.◌++◌ s t
