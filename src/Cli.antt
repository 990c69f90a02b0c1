-- ===== src/Cli.antt =====
-- internal/cli/cli.go: the commands, what they print and their exit codes. The parsing of flags
-- (github.com/urfave/cli), the listener, the signals and the texts of errors are parameters.
pub mod Output
pub mod Serve
pub mod ExitCodes
pub mod Outcomes
pub mod Completion
use microhook.Prelude.{
  ℕ, Text, bytes, Bool, true, false, not, List, [], ◌∷◌, ◌++◌, Option, none, some, is_empty,
  if◌then◌else◌,
}
use microhook.Config.Load.{LoadResult, loaded, resolve_path, load}
use microhook.Auth.TokenFormat
use microhook.Cli.Output.{
  Console, CliError, exit_code, write_failed, Run, ◌>>◌, done, exit, Writer, to_stdout, to_stderr,
  write, writeln,
}
use microhook.Cli.Serve.{World, Printer, run_serve, load_config, reject_positional_args, fail}

-- `buildinfo.Info`
pub record Info : Type 0 where
  pub version : Text
  pub commit : Text
  pub build_time : Text
  pub built_by : Text
  pub go_version : Text
  pub platform : Text

unfoldable pub lines : Info → List Text
lines i =
    (bytes "version=" ++ i.version)
    ∷ (bytes "commit=" ++ i.commit)
    ∷ (bytes "build_time=" ++ i.build_time)
    ∷ (bytes "built_by=" ++ i.built_by)
    ∷ (bytes "go_version=" ++ i.go_version)
    ∷ (bytes "platform=" ++ i.platform)
    ∷ []

-- `commandExitCode`
unfoldable pub command_exit_code : Option CliError → ℕ
command_exit_code none = 0
command_exit_code (some (exit_code n)) = n
command_exit_code (some write_failed) = 1

unfoldable pub write_lines : List Text → Run
unfolding writeln
write_lines [] = done
write_lines (line ∷ rest) = writeln to_stdout line >> write_lines rest

-- What the parser makes of the arguments: a command with its flag and its positional arguments, or
-- an error, with the help of the command that it was met in.
pub data Command : Type 0 where
  root : List Text → Command
  serve : (config : Text) → List Text → Command
  generate_token : List Text → Command
  validate_config : (config : Text) → List Text → Command
  version : List Text → Command
  usage_error : (message : Text) → (help : Text) → Command

module _ (printer : Printer) where
  unfoldable pub run_root : List Text → Run
  unfolding write
  run_root [] = write to_stderr printer.root_help >> exit 2
  run_root (first ∷ rest) =
      write to_stderr (bytes "unknown command " ++ printer.quote first ++ bytes "\n\n")
      >> write to_stderr printer.root_help
      >> exit 2

  -- `onUsageError`
  unfoldable pub on_usage_error : Text → Text → Run
  unfolding write
  on_usage_error message help =
      write to_stderr (bytes "Incorrect Usage: " ++ message ++ bytes "\n\n")
      >> write to_stderr help
      >> exit 2

  unfoldable pub validate_loaded : Text → LoadResult → Run
  unfolding write fail
  validate_loaded path (loaded cfg) =
      write to_stdout (bytes "config is valid: " ++ path ++ bytes "\n")
  validate_loaded path refused = fail (printer.load_message refused)

  unfoldable pub run_validate_config : World → Text → List Text → Run
  unfolding validate_loaded load_config reject_positional_args
  run_validate_config world config args =
      reject_positional_args (bytes "validate-config") args
      >> validate_loaded (resolve_path world.env_path config) (load_config world config)

  abbrev pub print_token : Option Text → Run
  print_token none = fail (bytes "generate token: " ++ printer.random_error)
  print_token (some token) = writeln to_stdout token

  -- The random bytes, if there are any.
  unfoldable pub run_generate_token : Option (List ℕ) → List Text → Run
  unfolding reject_positional_args TokenFormat.generate writeln fail
  run_generate_token raw args =
      reject_positional_args (bytes "generate-token") args >> print_token (TokenFormat.generate raw)

  unfoldable pub run_version : Info → List Text → Run
  unfolding reject_positional_args write_lines
  run_version info args = reject_positional_args (bytes "version") args >> write_lines (lines info)

  -- The action of a command.
  unfoldable pub run_command : World → Info → Option (List ℕ) → Command → Run
  unfolding run_root run_serve run_generate_token run_validate_config run_version on_usage_error
  run_command world info raw (root args) = run_root args
  run_command world info raw (serve config args) = λ c. (run_serve printer world config args c).0
  run_command world info raw (generate_token args) = run_generate_token raw args
  run_command world info raw (validate_config config args) = run_validate_config world config args
  run_command world info raw (version args) = run_version info args
  run_command world info raw (usage_error message help) = on_usage_error message help

  -- `Runner.Run`: the exit code and what was printed.
  unfoldable pub run :
      (List Text → Command) → World → Info → Option (List ℕ) → List Text → Console → ℕ × Console
  unfolding run_command command_exit_code
  run parse world info raw args c =
      let (e, c') = run_command world info raw (parse args) c in (command_exit_code e, c')
