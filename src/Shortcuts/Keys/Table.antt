-- ===== src/Shortcuts/Keys/Table.antt =====
-- The handler against the table that the cheat sheet shows.
use open_pm.Common.{
  String, Option, none, some, List, [], ◌∷◌, Bool, true, false, not, ◌&&◌, str_eq, if◌then◌else◌,
  ◌≡◌, refl, arith,
}
use open_pm.Shortcuts.Ui.{
  UiState, initial, read_initial_collapsed, toggle_sidebar, toggle_command_palette,
  toggle_shortcuts_modal, show_bool,
}
use open_pm.Shortcuts.Keys.{
  ShortcutId, command_palette, new_chat, shortcuts_cheatsheet, toggle_bar, open_settings,
  open_file_picker, KeyBinding, key_bindings, KeyboardEvent, is_mod, is_composing, prevent_default,
  dispatch_new_chat, dispatch_open_file_picker, push_settings, Outcome, handler,
}

-- The shortcut that the table has for a key.
abbrev pub shortcut_in : String → List KeyBinding → Option ShortcutId
shortcut_in key [] = none
shortcut_in key (b ∷ bs) =
    let later = shortcut_in key bs in if str_eq key b.key then some b.id else later

-- What a shortcut means: its effects after `preventDefault`, and what it does to the overlays.
abbrev pub perform : ShortcutId → UiState → Outcome
perform command_palette s = record { effects = []; ui = toggle_command_palette s }
perform new_chat s = record { effects = dispatch_new_chat ∷ []; ui = s }
perform shortcuts_cheatsheet s = record { effects = []; ui = toggle_shortcuts_modal s }
perform toggle_bar s = record { effects = []; ui = toggle_sidebar s }
perform open_settings s = record { effects = push_settings ∷ []; ui = s }
perform open_file_picker s = record { effects = dispatch_open_file_picker ∷ []; ui = s }

abbrev pub is_new_chat : ShortcutId → Bool
is_new_chat new_chat = true
is_new_chat _ = false

abbrev pub meant : KeyboardEvent → UiState → Option ShortcutId → Outcome
meant e s none = record { effects = []; ui = s }
meant e s (some id) =
    if is_new_chat id && e.shift_key
    then record { effects = []; ui = s }
    else record { effects = prevent_default ∷ (perform id s).effects; ui = (perform id s).ui }

-- With the modifier held and no composition under way, a key does what the table of the cheat sheet
-- says of it, save that the key of a new chat is left to the browser with the shift key; a key that
-- is not in the table, and every key otherwise, does nothing.
pub handler_lem :
    (e : KeyboardEvent) (s : UiState)
    → handler e s
      ≡ meant e s
          (if is_mod e && not (is_composing e) then shortcut_in e.key key_bindings else none)
unfolding handler
handler_lem e s = ground arith

-- Where localStorage takes writes, the sidebar is after a reload as it was after the last toggle.
pub initial-toggle_sidebar :
    (s : UiState)
    → s.storage.is_writable ≡ true
    → (initial (toggle_sidebar s).storage).sidebar_collapsed ≡ (toggle_sidebar s).sidebar_collapsed
unfolding initial read_initial_collapsed toggle_sidebar
initial-toggle_sidebar s h = rw h (read_back s.sidebar_collapsed)
  where
    read_back : (b : Bool) → str_eq (show_bool (not b)) "true" ≡ not b
    read_back true = refl
    read_back false = refl
