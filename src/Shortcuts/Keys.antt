-- ===== src/Shortcuts/Keys.antt =====
-- The table of frontend/src/lib/keybindings.ts and the `handler` of
-- frontend/src/hooks/useGlobalKeybindings.ts.
pub mod Table
use open_pm.Common.{
  ℕ, String, Option, none, some, List, [], ◌∷◌, Bool, true, false, not, ◌||◌, ◌==◌, str_eq,
  if◌then◌else◌,
}
use open_pm.Shortcuts.Ui.{UiState, toggle_sidebar, toggle_command_palette, toggle_shortcuts_modal}

pub data ShortcutId : Type 0 where
  command_palette new_chat shortcuts_cheatsheet toggle_bar open_settings open_file_picker :
      ShortcutId

pub record KeyBinding : Type 0 where
  pub id : ShortcutId
  pub key : String
  pub description : String

abbrev pub key_bindings : List KeyBinding
key_bindings =
    record {
      id = command_palette;
      key = "k";
      description = "Globale Suche öffnen (Projekte / Chats / Dokumente)";
    }
    ∷ record { id = new_chat; key = "n"; description = "Neuen Chat im aktiven Projekt starten" }
    ∷ record {
      id = shortcuts_cheatsheet;
      key = "/";
      description = "Tastenkürzel-Übersicht anzeigen";
    }
    ∷ record { id = toggle_bar; key = "b"; description = "Sidebar ein-/ausklappen" }
    ∷ record { id = open_settings; key = ","; description = "Einstellungen öffnen" }
    ∷ record { id = open_file_picker; key = "u"; description = "Datei-Auswahl öffnen" }
    ∷ []

pub record KeyboardEvent : Type 0 where
  pub key : String
  pub meta_key : Bool
  pub ctrl_key : Bool
  pub shift_key : Bool
  pub composing : Bool
  pub key_code : Option ℕ

unfoldable pub is_mod : KeyboardEvent → Bool
is_mod e = e.meta_key || e.ctrl_key

unfoldable pub is_composing : KeyboardEvent → Bool
is_composing e = e.composing || elim e.key_code [ none ↦ false | some code ↦ code == 229 ]

-- What the handler does beside the store, in order.
pub data Effect : Type 0 where
  prevent_default dispatch_new_chat dispatch_open_file_picker push_settings : Effect

pub record Outcome : Type 0 where
  pub effects : List Effect
  pub ui : UiState

abbrev pub done : List Effect → UiState → Outcome
done effects ui = record { effects = effects; ui = ui }

unfoldable pub handler : KeyboardEvent → UiState → Outcome
handler e s =
    if not (is_mod e) || is_composing e
    then done [] s
    else if str_eq e.key "k"
    then done (prevent_default ∷ []) (toggle_command_palette s)
    else if str_eq e.key "n"
    then (if e.shift_key then done [] s else done (prevent_default ∷ dispatch_new_chat ∷ []) s)
    else if str_eq e.key "/"
    then done (prevent_default ∷ []) (toggle_shortcuts_modal s)
    else if str_eq e.key "b"
    then done (prevent_default ∷ []) (toggle_sidebar s)
    else if str_eq e.key ","
    then done (prevent_default ∷ push_settings ∷ []) s
    else if str_eq e.key "u"
    then done (prevent_default ∷ dispatch_open_file_picker ∷ []) s
    else done [] s
