-- ===== src/Cli/Completion.antt =====
-- internal/cli/cli.go: the completion command, whose own action is that of github.com/urfave/cli, and
-- the help that a command shows; and what internal/buildinfo tells of a build.
use microhook.Prelude.{Text, bytes, Bool, ◌++◌, Option, none, some, is_empty, if◌then◌else◌}
use microhook.Cli.{Info}
use microhook.Cli.Output.{Console, CliError, Run, ◌>>◌, done, to_stderr, writeln}

-- The error of the original action is printed, if it has a text, and returned.
unfoldable pub report_error : Option (Text × CliError) → Run
unfolding writeln
report_error none = done
report_error (some (message, e)) =
    (if is_empty message then done else writeln to_stderr message) >> λ c. (some e, c)

-- `configureCompletionCommand`: what the original action leaves, and then the report.
unfoldable pub completion_command : (Console → Option (Text × CliError) × Console) → Run
unfolding report_error
completion_command original c = let (e, c') = original c in report_error e c'

-- `showCommandHelp`: the help of the root, or that of the command.
unfoldable pub show_command_help : Bool → Run → Run → Run
show_command_help is_root root_help command_help = if is_root then root_help else command_help

-- `Current`
unfoldable pub current : Text → Text → Text → Text → Text → Text → Text → Info
current version commit build_time built_by go_version goos goarch = record {
  version = version;
  commit = commit;
  build_time = build_time;
  built_by = built_by;
  go_version = go_version;
  platform = goos ++ bytes "/" ++ goarch;
}
