-- ===== src/Shortcuts/Ui.antt =====
-- The store of frontend/src/store/uiStore.ts. `saved` is what localStorage holds under
-- "sidebar_collapsed"; where it takes no writes, `saved` is `none` and stays so.
use open_pm.Common.{String, Option, none, some, Bool, true, false, not, str_eq, if◌then◌else◌}

pub record Storage : Type 0 where
  pub is_writable : Bool
  pub saved : Option String

pub record UiState : Type 0 where
  pub sidebar_collapsed : Bool
  pub command_palette_open : Bool
  pub shortcuts_modal_open : Bool
  pub storage : Storage

-- `String(value)`.
abbrev pub show_bool : Bool → String
show_bool true = "true"
show_bool false = "false"

abbrev pub set_item : String → Storage → Storage
set_item text s = if s.is_writable then record s { saved = some text } else s

unfoldable pub read_initial_collapsed : Storage → Bool
read_initial_collapsed s = elim s.saved [ none ↦ false | some text ↦ str_eq text "true" ]

unfoldable pub initial : Storage → UiState
initial s = record {
  sidebar_collapsed = read_initial_collapsed s;
  command_palette_open = false;
  shortcuts_modal_open = false;
  storage = s;
}

unfoldable pub set_sidebar_collapsed : Bool → UiState → UiState
set_sidebar_collapsed value s = record s {
  sidebar_collapsed = value;
  storage = set_item (show_bool value) s.storage;
}

unfoldable pub toggle_sidebar : UiState → UiState
toggle_sidebar s =
    let next = not s.sidebar_collapsed in
    record s { sidebar_collapsed = next; storage = set_item (show_bool next) s.storage }

unfoldable pub set_command_palette_open : Bool → UiState → UiState
set_command_palette_open value s = record s { command_palette_open = value }

unfoldable pub toggle_command_palette : UiState → UiState
toggle_command_palette s = record s { command_palette_open = not s.command_palette_open }

unfoldable pub set_shortcuts_modal_open : Bool → UiState → UiState
set_shortcuts_modal_open value s = record s { shortcuts_modal_open = value }

unfoldable pub toggle_shortcuts_modal : UiState → UiState
toggle_shortcuts_modal s = record s { shortcuts_modal_open = not s.shortcuts_modal_open }
