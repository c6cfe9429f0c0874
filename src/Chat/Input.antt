-- ===== src/Chat/Input.antt =====
-- The chat's input field, frontend/src/components/chat/ChatInput.tsx: its text, the popover of
-- slash commands, and what its keys do.
pub mod Laws
use open_pm.Common.{
  ℕ, zero, suc, ◌+◌, ◌-◌, ◌%◌, Text, Option, none, some, List, [], ◌∷◌, ◌++◌, Bool, true, false,
  not, ◌&&◌, ◌||◌, is_empty, is_some, includes, ltb, if◌then◌else◌, length, get_elem?, units,
  text_eq, ◌otherwise◌,
}
use open_pm.Lines.{trim}
use open_pm.Chat.Slash.{
  SlashCommandName, name_of, SlashCommandDef, slash, space, after_slash, find_command,
  match_slash_commands, ParsedCommand, parse_slash_command,
}

pub record Input : Type 0 where
  pub value : Text
  pub slash_matches : List SlashCommandDef
  pub slash_active_idx : ℕ

-- `disabled`, whether `onSlashCommand` is given, and whether the device has a touch screen.
pub record Setting : Type 0 where
  pub disabled : Bool
  pub takes_commands : Bool
  pub is_mobile : Bool

-- The calls of `onSend` and `onSlashCommand`.
pub data Call : Type 0 where
  on_send : Text → Call
  on_slash_command : (name arg : Text) → Call

-- The keys that the code tells apart.
pub data Key : Type 0 where
  arrow_down arrow_up tab enter escape_key other_key : Key

pub record KeyPress : Type 0 where
  pub key : Key
  pub shift : Bool
  -- `e.metaKey || e.ctrlKey`.
  pub modified : Bool

pub record Handled : Type 0 where
  pub input : Input
  pub calls : List Call

abbrev pub cleared : Input
cleared = record { value = []; slash_matches = []; slash_active_idx = 0 }

-- `/${name} `.
abbrev pub completed_name : SlashCommandName → Text
completed_name name = slash ∷ (units (name_of name) ++ space ∷ [])

abbrev pub closed : Text → Input
closed value = record { value = value; slash_matches = []; slash_active_idx = 0 }

-- `slashMatches.find((c) => c.name === name) ?? slashMatches[0]`.
unfoldable pub chosen_def : SlashCommandName → List SlashCommandDef → Option SlashCommandDef
chosen_def name [] = none
chosen_def name (c ∷ cs) = some (find_command (units (name_of name)) (c ∷ cs) otherwise c)

unfoldable pub select_with : Setting → SlashCommandName → Input → Option SlashCommandDef → Handled
select_with setting name i none = record { input = i; calls = [] }
select_with setting name i (some def) =
    if not def.takes_arg && setting.takes_commands
    then record { input = cleared; calls = on_slash_command (units (name_of name)) [] ∷ [] }
    else record { input = closed (completed_name name); calls = [] }

unfoldable pub select_slash_command : Setting → SlashCommandName → Input → Handled
select_slash_command setting name i = select_with setting name i (chosen_def name i.slash_matches)

-- `slashMatches[slashActiveIdx]?.name ?? slashMatches[0].name`.
unfoldable pub select_active : Setting → Input → List SlashCommandDef → Handled
select_active setting i [] = record { input = i; calls = [] }
select_active setting i (c ∷ cs) =
    let def = get_elem? (c ∷ cs) i.slash_active_idx otherwise c in
    select_slash_command setting def.name i

-- The keys of the open popover with `n + 1` entries; `none` for a key that it leaves alone.
unfoldable pub on_popover_key : Setting → Key → (shift : Bool) → ℕ → Input → Option Handled
on_popover_key setting arrow_down shift n i = some (record {
  input = record i { slash_active_idx = (i.slash_active_idx + 1) % suc n };
  calls = [];
})
on_popover_key setting arrow_up shift n i = some (record {
  input = record i { slash_active_idx = (i.slash_active_idx + suc n - 1) % suc n };
  calls = [];
})
on_popover_key setting tab shift n i = some (select_active setting i i.slash_matches)
on_popover_key setting enter shift n i =
    if shift then none else some (select_active setting i i.slash_matches)
on_popover_key setting escape_key shift n i = some (record { input = closed i.value; calls = [] })
on_popover_key setting other_key shift n i = none

-- The pointer is over an entry of the popover.
unfoldable pub on_hover : ℕ → Input → Input
on_hover n i = if ltb n (length i.slash_matches) then record i { slash_active_idx = n } else i

pub data InputEvent : Type 0 where
  typed : Text → InputEvent
  pressed : KeyPress → InputEvent
  clicked : SlashCommandName → InputEvent
  hovered : ℕ → InputEvent
  -- A click on the Send button, which is there unless an answer is awaited.
  clicked_send : InputEvent

module _ (lower : Text → Text) where
  -- A message that is not blank, as a command or as a message.
  unfoldable pub submit_parsed : Setting → Text → Option ParsedCommand → List Call
  submit_parsed setting val none = on_send val ∷ []
  submit_parsed setting val (some p) =
      if setting.takes_commands
      then on_slash_command (units (name_of p.name)) p.arg ∷ []
      else on_send val ∷ []

  unfoldable pub submit : Setting → Input → Handled
  submit setting i =
      let val = trim i.value in
      if is_empty val || setting.disabled then record { input = i; calls = [] } else record {
        input = cleared;
        calls = submit_parsed setting val (parse_slash_command lower val);
      }

  -- The Enter key in the text: on a desktop, both tests of the code may submit.
  unfoldable pub on_enter : Setting → KeyPress → Input → Handled
  on_enter setting e i =
      let plain = not setting.is_mobile && not e.shift in
      let first = if plain then submit setting i else record { input = i; calls = [] } in
      let second = submit setting first.input in
      if e.modified
      then record { input = second.input; calls = first.calls ++ second.calls }
      else first

  unfoldable pub on_text_key : Setting → KeyPress → Key → Input → Handled
  on_text_key setting e enter i = on_enter setting e i
  on_text_key setting e _ i = record { input = i; calls = [] }

  -- The popover, when it is open, takes its keys first.
  unfoldable pub on_key : Setting → KeyPress → Input → List SlashCommandDef → Handled
  on_key setting e i [] = on_text_key setting e e.key i
  on_key setting e i (c ∷ cs) =
      on_popover_key setting e.key e.shift (length cs) i otherwise on_text_key setting e e.key i

  unfoldable pub on_key_down : Setting → KeyPress → Input → Handled
  on_key_down setting e i = on_key setting e i i.slash_matches

  -- The text becomes `val`.
  unfoldable pub on_input : Text → Input → Input
  on_input val i =
      if is_some (after_slash val) && not (includes space val)
      then record {
        value = val;
        slash_matches = match_slash_commands lower val;
        slash_active_idx = 0;
      }
      else if is_empty val
      then closed val
      else record i { value = val; slash_matches = [] }

  unfoldable pub on_event : Setting → InputEvent → Input → Handled
  on_event setting (typed val) i = record { input = on_input val i; calls = [] }
  on_event setting (pressed e) i = on_key_down setting e i
  on_event setting (clicked name) i = select_slash_command setting name i
  on_event setting (hovered n) i = record { input = on_hover n i; calls = [] }
  on_event setting clicked_send i = submit setting i

  -- The input after some events, and the calls in between.
  unfoldable pub on_events : Setting → List InputEvent → Input → Handled
  on_events setting [] i = record { input = i; calls = [] }
  on_events setting (e ∷ es) i =
      let first = on_event setting e i in
      let later = on_events setting es first.input in
      record { input = later.input; calls = first.calls ++ later.calls }
