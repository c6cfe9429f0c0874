-- ===== src/Chat/Slash.antt =====
-- The slash commands of frontend/src/lib/slash-commands.ts. `String.prototype.toLowerCase` is the
-- parameter `lower`.
pub mod Parse
use open_pm.Common.{
  ℕ, Text, String, Option, none, some, List, [], ◌∷◌, ◌++◌, Bool, true, false, not, units, text_eq,
  is_empty, if◌then◌else◌, is_some, split_at, join_texts,
}
use open_pm.Lines.{strip_prefix, trim}

pub data SlashCommandName : Type 0 where
  status tasks deadlines blockers contacts search export cancel clear version help :
      SlashCommandName

-- The member of the union type as a string.
abbrev pub name_of : SlashCommandName → String
name_of status = "status"
name_of tasks = "tasks"
name_of deadlines = "deadlines"
name_of blockers = "blockers"
name_of contacts = "contacts"
name_of search = "search"
name_of export = "export"
name_of cancel = "cancel"
name_of clear = "clear"
name_of version = "version"
name_of help = "help"

pub record SlashCommandDef : Type 0 where
  pub name : SlashCommandName
  pub description : String
  pub hint : Option String
  pub takes_arg : Bool

abbrev plain : SlashCommandName → String → SlashCommandDef
plain name description = record {
  name = name;
  description = description;
  hint = none;
  takes_arg = false;
}

abbrev pub slash_commands : List SlashCommandDef
slash_commands =
    plain status "Projekt-Zusammenfassung (Aufgaben, Fristen, Blocker…)"
    ∷ plain tasks "Offene Aufgaben nach Fälligkeitsdatum"
    ∷ plain deadlines "Bevorstehende & überfällige Fristen"
    ∷ plain blockers "Offene Blocker"
    ∷ plain contacts "Kontaktliste"
    ∷ record {
      name = search;
      description = "Semantische Dokumentensuche";
      hint = some "<Suchbegriff>";
      takes_arg = true;
    }
    ∷ plain export "Kompiliertes Briefing als .md herunterladen"
    ∷ plain cancel "Laufende Pipelines abbrechen"
    ∷ plain clear "Neuen Chat starten"
    ∷ plain version "Aktuelle State-Version & letzter Changelog"
    ∷ plain help "Alle Slash-Befehle anzeigen"
    ∷ []

-- "/" and " ".
abbrev pub slash : ℕ
slash = 47

abbrev pub space : ℕ
space = 32

-- `input.startsWith("/")`, with `input.slice(1)`.
abbrev pub after_slash : Text → Option Text
after_slash input = strip_prefix (slash ∷ []) input

-- `SLASH_COMMANDS.filter((cmd) => cmd.name.startsWith(fragment))`.
unfoldable pub filter_commands : Text → List SlashCommandDef → List SlashCommandDef
filter_commands fragment [] = []
filter_commands fragment (c ∷ cs) =
    let rest = filter_commands fragment cs in
    if is_some (strip_prefix fragment (units (name_of c.name))) then c ∷ rest else rest

-- `SLASH_COMMANDS.find((c) => c.name === name)`.
unfoldable pub find_command : Text → List SlashCommandDef → Option SlashCommandDef
find_command name [] = none
find_command name (c ∷ cs) =
    let later = find_command name cs in
    if text_eq (units (name_of c.name)) name then some c else later

pub record ParsedCommand : Type 0 where
  pub name : SlashCommandName
  pub arg : Text

module _ (lower : Text → Text) where
  unfoldable pub match_slash_commands : Text → List SlashCommandDef
  match_slash_commands input = elim (after_slash input) [
    | none ↦ []
    | some rest ↦ filter_commands (lower rest) slash_commands
  ]

  -- The name and the argument of what follows the slash.
  unfoldable pub parse_words : Text × List Text → Option ParsedCommand
  parse_words (raw_name, rest) = elim (find_command (lower raw_name) slash_commands) [
    | none ↦ none
    | some c ↦ some (record { name = c.name; arg = trim (join_texts (space ∷ []) rest) })
  ]

  unfoldable pub parse_slash_command : Text → Option ParsedCommand
  parse_slash_command input = elim (after_slash (trim input)) [
    | none ↦ none
    | some rest ↦ parse_words (split_at space rest)
  ]

-- `arg ? `/${name} ${arg}` : `/${name}``, the input as the cockpit shows it again
-- (frontend/src/components/cockpit/CockpitLayout.tsx).
unfoldable pub raw_input : Text → Text → Text
raw_input name arg = if is_empty arg then slash ∷ name else slash ∷ (name ++ space ∷ arg)
