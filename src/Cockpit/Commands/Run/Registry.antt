-- ===== src/Cockpit/Commands/Run/Registry.antt =====
-- The registry of the slash commands and the cases of their executor name the same commands.
use open_pm.Common.{Text, ◌≡◌, refl, some, units, ℤ, String, ap, ◌∙◌}
use open_pm.Chat.Slash.{SlashCommandName, name_of, parse_slash_command, raw_input}
use open_pm.Chat.Slash.Parse.{IsTrimmed, LowersLetters, parse_slash_command-raw_input}
use open_pm.Cockpit.Commands.Run.{Answers, case_of, handle_slash_command}
use open_pm.Cockpit.Commands.Run.Exchange.{
  exchanges, has_answer, once, is_answered, exchanges-handle_slash_command,
}

case_of-name_of : (c : SlashCommandName) → case_of (units (name_of c)) ≡ some c
unfolding case_of
case_of-name_of SlashCommandName.status = refl
case_of-name_of SlashCommandName.tasks = refl
case_of-name_of SlashCommandName.deadlines = refl
case_of-name_of SlashCommandName.blockers = refl
case_of-name_of SlashCommandName.contacts = refl
case_of-name_of SlashCommandName.search = refl
case_of-name_of SlashCommandName.export = refl
case_of-name_of SlashCommandName.cancel = refl
case_of-name_of SlashCommandName.clear = refl
case_of-name_of SlashCommandName.version = refl
case_of-name_of SlashCommandName.help = refl

-- For every command of the registry and every argument without spaces at its ends, when
-- `toLowerCase` keeps lower-case letters: the input that the cockpit prints for them parses to that
-- command and argument, and the handler selects the case of that command, so that it shows this
-- input with a reply exactly when the data of this command arrives.
pub registered-handled :
    (lower : Text → Text) (lowers : LowersLetters lower) (compare : Text → Text → ℤ)
    (percent : String → Text) (local_time : Text → Text) (a : Answers) (c : SlashCommandName)
    (arg : Text)
    → IsTrimmed arg
    → let input = raw_input (units (name_of c)) arg in
      (parse_slash_command lower input ≡ some (record { name = c; arg = arg }))
      × (case_of (units (name_of c)) ≡ some c)
      × (exchanges
            (handle_slash_command compare percent local_time a (units (name_of c)) arg).effects
          ≡ once (has_answer a c) input)
registered-handled lower lowers compare percent local_time a c arg h = (
  parse_slash_command-raw_input lower lowers c arg h,
  case_of-name_of c,
  (exchanges-handle_slash_command compare percent local_time a (units (name_of c)) arg).0
      ∙ ap (λ o. once (is_answered a o) (raw_input (units (name_of c)) arg)) (case_of-name_of c),
)
