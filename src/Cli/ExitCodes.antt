-- ===== src/Cli/ExitCodes.antt =====
-- Which exit code says what.
use microhook.Prelude.{
  ℕ, ◌≤◌, Text, bytes, Bool, true, false, List, [], ◌∷◌, ◌++◌, Option, none, some, arith, Result,
  ok, err,
}
use microhook.Config.Load.{Config, LoadResult, loaded}
use microhook.Auth.TokenFormat
use microhook.Auth.TokenFormat.{raw_token_bytes}
use microhook.Storage.Sqlite.{Driver, Handle}
use microhook.App.{Application, StartError, close_app, join_errors}
use microhook.Cli.Output.{
  Console, CliError, Run, ◌>>◌, then_run, done, exit, Writer, to_stdout, to_stderr, write, write_at,
  writeln,
}
use microhook.Cli.Serve.{
  World, Printer, run_serve, load_config, reject_positional_args, fail, fail_if, finish_serve,
  listen, serve_started, serve_loaded, serve_checked, Race, served, signalled,
}
use microhook.Cli.{
  Info, lines, command_exit_code, write_lines, Command, root, serve, generate_token,
  validate_config, version, usage_error, run_root, on_usage_error, validate_loaded,
  run_validate_config, print_token, run_generate_token, run_version, run_command,
}

-- Exit codes 0, 1 and 2 only.
abbrev pub IsKnown : Option CliError → Type 0
IsKnown e = command_exit_code e ≤ 2

-- A step ends with one of them, wherever it starts.
abbrev Ends : Run → Type 0
Ends m = (c : Console) → IsKnown (m c).0

then_run-IsKnown :
    (out : Option CliError × Console) (next : Run)
    → IsKnown out.0
    → Ends next
    → IsKnown (then_run out next).0
then_run-IsKnown (none, c) next h k = k c
then_run-IsKnown (some e, c) next h k = h

>>-Ends : (m next : Run) → Ends m → Ends next → Ends (m >> next)
>>-Ends m next h k c = then_run-IsKnown (m c) next (h c) k

exit-Ends : (code : ℕ) → code ≤ 2 → Ends (exit code)
unfolding command_exit_code
exit-Ends code h c = h

write_at-IsKnown :
    (faults : List Bool) (writer : Writer) (text : Text) (c : Console)
    → IsKnown (write_at faults writer text c).0
unfolding command_exit_code
write_at-IsKnown [] writer text c = omega arith
write_at-IsKnown (true ∷ faults) writer text c = omega arith
write_at-IsKnown (false ∷ faults) writer text c = omega arith

write-Ends : (writer : Writer) (text : Text) → Ends (write writer text)
unfolding write
write-Ends writer text c = write_at-IsKnown c.faults writer text c

writeln-Ends : (writer : Writer) (text : Text) → Ends (writeln writer text)
unfolding writeln
writeln-Ends writer text = write-Ends writer (text ++ bytes "\n")

done-Ends : Ends done
unfolding command_exit_code
done-Ends c = omega arith

fail-Ends : (text : Text) → Ends (fail text)
unfolding fail
fail-Ends text =
    >>-Ends (writeln to_stderr text) (exit 1) (writeln-Ends to_stderr text)
      (exit-Ends 1 (omega arith))

fail_if-Ends : (prefix : Text) (e : Option Text) → Ends (fail_if prefix e)
fail_if-Ends prefix none = done-Ends
fail_if-Ends prefix (some e) = fail-Ends (prefix ++ e)

-- What is printed before the exit code 2.
explain-Ends : (m : Run) → Ends m → Ends (m >> exit 2)
explain-Ends m h = >>-Ends m (exit 2) h (exit-Ends 2 (omega arith))

reject_positional_args-Ends :
    (command : Text) (args : List Text) → Ends (reject_positional_args command args)
unfolding reject_positional_args
reject_positional_args-Ends command [] = done-Ends
reject_positional_args-Ends command (arg ∷ args) =
    explain-Ends (writeln to_stderr _) (writeln-Ends to_stderr _)

write_lines-Ends : (texts : List Text) → Ends (write_lines texts)
unfolding write_lines
write_lines-Ends [] = done-Ends
write_lines-Ends (line ∷ rest) =
    >>-Ends (writeln to_stdout line) (write_lines rest) (writeln-Ends to_stdout line)
      (write_lines-Ends rest)

finish_serve-Ends :
    (driver : Driver) (race : Race) (h : Handle) (c : Console)
    → IsKnown (finish_serve driver race h c).0.0
unfolding finish_serve close_app
finish_serve-Ends driver (served none) h c =
    fail_if-Ends (bytes "close service: ") driver.close_error c
finish_serve-Ends driver (served (some e)) h c =
    fail_if-Ends (bytes "serve: ")
      (join_errors (some e) (bytes "close service after serve failure: ") driver.close_error) c
finish_serve-Ends driver (signalled http_error serve_error) h c =
    >>-Ends (fail_if (bytes "serve: ") serve_error) (fail_if (bytes "shutdown service: ") _)
      (fail_if-Ends (bytes "serve: ") serve_error) (fail_if-Ends (bytes "shutdown service: ") _) c

module _ (printer : Printer) (world : World) where
  listen-Ends :
      (address : Text) (e : Option Text) (h : Handle) (c : Console)
      → IsKnown (listen printer world address e h c).0.0
  unfolding listen close_app
  listen-Ends address none h c = finish_serve-Ends world.driver world.race h c
  listen-Ends address (some e) h c =
      fail_if-Ends (bytes "listen on " ++ printer.quote address ++ bytes ": ")
        (join_errors (some e) (bytes "close service after listen failure: ")
          world.driver.close_error)
        c

  serve_started-Ends :
      (cfg : Config) (h : Handle) (r : Result StartError Application) (c : Console)
      → IsKnown (serve_started printer world cfg h r c).0.0
  serve_started-Ends cfg h (err e) c =
      fail-Ends (bytes "bootstrap service: " ++ printer.start_message e) c
  serve_started-Ends cfg h (ok application) c = listen-Ends cfg.server.listen _ h c

  serve_loaded-Ends : (r : LoadResult) (c : Console) → IsKnown (serve_loaded printer world r c).0.0
  serve_loaded-Ends (loaded cfg) c = serve_started-Ends cfg _ _ c
  serve_loaded-Ends refused c = fail-Ends (printer.load_message refused) c

  serve_checked-Ends :
      (config : Text) (out : Option CliError × Console)
      → IsKnown out.0
      → IsKnown (serve_checked printer world config out).0.0
  serve_checked-Ends config (some e, c) h = h
  serve_checked-Ends config (none, c) h = serve_loaded-Ends (load_config world config) c

  validate_loaded-Ends : (path : Text) (r : LoadResult) → Ends (validate_loaded printer path r)
  unfolding validate_loaded
  validate_loaded-Ends path (loaded cfg) = write-Ends to_stdout _
  validate_loaded-Ends path refused = fail-Ends (printer.load_message refused)

  run_root-Ends : (args : List Text) → Ends (run_root printer args)
  unfolding run_root
  run_root-Ends [] =
      explain-Ends (write to_stderr printer.root_help) (write-Ends to_stderr printer.root_help)
  run_root-Ends (first ∷ rest) =
      explain-Ends (write to_stderr _ >> write to_stderr printer.root_help) (
        >>-Ends (write to_stderr _) (write to_stderr printer.root_help) (write-Ends to_stderr _)
          (write-Ends to_stderr printer.root_help))

  print_token-Ends : (token : Option Text) → Ends (print_token printer token)
  print_token-Ends none = fail-Ends _
  print_token-Ends (some token) = writeln-Ends to_stdout token

  -- Every command ends with the exit code 0, 1 or 2, whatever happens and whichever write fails.
  pub run_command-IsKnown :
      (info : Info) (raw : Option (List ℕ)) (command : Command) (c : Console)
      → IsKnown (run_command printer world info raw command c).0
  unfolding run_command run_serve run_generate_token run_validate_config run_version on_usage_error
  run_command-IsKnown info raw (root args) = run_root-Ends args
  run_command-IsKnown info raw (serve config args) =
      λ c. serve_checked-Ends config _ (reject_positional_args-Ends (bytes "serve") args c)
  run_command-IsKnown info raw (generate_token args) =
      >>-Ends (reject_positional_args (bytes "generate-token") args)
        (print_token printer (TokenFormat.generate raw))
        (reject_positional_args-Ends (bytes "generate-token") args)
        (print_token-Ends (TokenFormat.generate raw))
  run_command-IsKnown info raw (validate_config config args) =
      >>-Ends (reject_positional_args (bytes "validate-config") args)
        (validate_loaded printer _ (load_config world config))
        (reject_positional_args-Ends (bytes "validate-config") args)
        (validate_loaded-Ends _ (load_config world config))
  run_command-IsKnown info raw (version args) =
      >>-Ends (reject_positional_args (bytes "version") args) (write_lines (lines info))
        (reject_positional_args-Ends (bytes "version") args) (write_lines-Ends (lines info))
  run_command-IsKnown info raw (usage_error message help) =
      explain-Ends (write to_stderr _ >> write to_stderr help) (
        >>-Ends (write to_stderr _) (write to_stderr help) (write-Ends to_stderr _)
          (write-Ends to_stderr help))
