-- ===== src/Shortcuts/Tests.antt =====
-- Runs of the shortcuts.
use open_pm.Common.{none, some, true, false}
use open_pm.Shortcuts.Ui.{UiState}
use open_pm.Shortcuts.Keys.{KeyboardEvent}

abbrev shown : UiState
shown = record {
  sidebar_collapsed = false;
  command_palette_open = false;
  shortcuts_modal_open = true;
  storage = record { is_writable = true; saved = none };
}

abbrev press_b : KeyboardEvent
press_b = record {
  key = "b";
  meta_key = false;
  ctrl_key = true;
  shift_key = false;
  composing = false;
  key_code = some 66;
}
