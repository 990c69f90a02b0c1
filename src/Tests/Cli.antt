-- ===== src/Tests/Cli.antt =====
-- Commands in a small world.
use microhook.Prelude.{◌≡◌, refl, Text, bytes, true, [], ◌++◌, none, some}
use microhook.Auth.TokenFormat
use microhook.Storage.Repository.Create.{quiet}
use microhook.Cli.{Info, command_exit_code, run_generate_token}
use microhook.Cli.Serve.{World, Printer, signalled, run_serve}
use microhook.Cli.Serve.Closes.{IsClosed, run_serve-IsClosed}
use microhook.Cli.Outcomes
use microhook.Cli.Outcomes.{
  is_loaded, serves_cleanly, code_of, run_serve-code, run_validate_config-code,
  run_generate_token-validate,
}
use microhook.Tests.Parameters.{json, digest, parse_duration, file_config}
use microhook.Tests.Auth.{raw, raw_bytes}
use microhook.Tests.Storage.{file_system, ready_driver, one_run}

abbrev world : World
world = record {
  env_path = [];
  parse_duration = parse_duration;
  read_file = λ path. some [];
  decode_yaml = λ text. some file_config;
  json = json;
  digest = digest;
  format_int = λ n. bytes "0";
  now = 1000;
  fs = file_system;
  driver = ready_driver;
  store = quiet one_run;
  listen_error = λ address. none;
  race = signalled none none;
}

abbrev printer : Printer
printer = record {
  quote = λ text. text;
  root_help = bytes "Usage: microhook <command> [flags]";
  load_message = λ refused. bytes "refused";
  start_message = λ e. bytes "not started";
  random_error = bytes "no random bytes";
}

abbrev info : Info
info = record {
  version = bytes "dev";
  commit = bytes "unknown";
  build_time = bytes "unknown";
  built_by = bytes "unknown";
  go_version = bytes "go1";
  platform = bytes "linux/amd64";
}

run_serve-IsClosed_example : IsClosed (run_serve printer world [] [] (Outcomes.quiet [] [])).1
run_serve-IsClosed_example = run_serve-IsClosed printer world [] [] (Outcomes.quiet [] [])

run_serve-code_example :
    command_exit_code (run_serve printer world [] [] (Outcomes.quiet [] [])).0.0
    ≡ code_of (serves_cleanly world [])
run_serve-code_example = run_serve-code printer world [] [] [] []

run_generate_token-validate_example :
    (token : Text) × (TokenFormat.validate token ≡ true)
    × (run_generate_token printer (some raw) [] (Outcomes.quiet [] [])
        ≡ (none, Outcomes.quiet (token ++ bytes "\n") []))
run_generate_token-validate_example =
    run_generate_token-validate printer world [] [] [] raw raw_bytes refl
