-- ===== src/Cli/Outcomes.antt =====
-- What the exit codes tell, and what is printed, where both writers work.
use microhook.Prelude.{
  ap, ◌∙◌, ◌++◌, ℕ, ◌≡◌, ◌<◌, refl, Text, bytes, Bool, true, false, ◌&&◌, List, [], ◌∷◌, ◌++◌,
  Option, none, some, is_empty, if◌then◌else◌, length, All, Result, ok, err,
}
use microhook.Config.Load.{Config, LoadResult, loaded, read_failed, parse_failed, invalid}
use microhook.Auth.TokenFormat
use microhook.Auth.TokenFormat.{raw_token_bytes}
use microhook.Auth.TokenFormat.Laws.{validate-generate}
use microhook.Storage.Sqlite.{Driver, Handle}
use microhook.App.{join_errors, Application, StartError, start, close_app, shutdown}
use microhook.Cli.Output.{Console, write, writeln}
use microhook.Cli.Serve.{
  fail_if, World, Printer, Race, served, signalled, load_config, reject_positional_args, fail,
  finish_serve, listen, serve_started, serve_loaded, run_serve,
}
use microhook.Cli.{command_exit_code, validate_loaded, run_validate_config, run_generate_token}

-- Writers that do not fail.
abbrev pub quiet : Text → Text → Console
quiet stdout stderr = record { stdout = stdout; stderr = stderr; faults = [] }

abbrev pub is_loaded : LoadResult → Bool
is_loaded (loaded cfg) = true
is_loaded refused = false

abbrev pub is_none : {A : Type 0} → Option A → Bool
is_none none = true
is_none (some a) = false

-- The end of a service that met no error.
abbrev pub ends_cleanly : Driver → Race → Bool
ends_cleanly driver (served e) = is_none e && is_none driver.close_error
ends_cleanly driver (signalled http_error serve_error) =
    is_none http_error && is_none serve_error && is_none driver.close_error

abbrev started_cleanly : World → Config → Result StartError Application → Bool
started_cleanly world cfg (err e) = false
started_cleanly world cfg (ok application) =
    is_none (world.listen_error cfg.server.listen) && ends_cleanly world.driver world.race

abbrev loaded_cleanly : World → LoadResult → Bool
loaded_cleanly world (loaded cfg) =
    started_cleanly world cfg
      (start world.json world.digest world.format_int world.now cfg world.fs world.driver
        world.store).result
loaded_cleanly world refused = false

-- A configuration that is loaded, a start and a listener that succeed, and such an end.
abbrev pub serves_cleanly : World → Text → Bool
serves_cleanly world config = loaded_cleanly world (load_config world config)

abbrev pub code_of : Bool → ℕ
code_of clean = if clean then 0 else 1

fail_if-code :
    (prefix : Text) (x : Option Text) (o e : Text)
    → command_exit_code (fail_if prefix x (quiet o e)).0 ≡ code_of (is_none x)
unfolding command_exit_code fail writeln write
fail_if-code prefix none o e = refl
fail_if-code prefix (some x) o e = refl

join_errors-is_none :
    (x : Option Text) (wrapped : Text) (y : Option Text)
    → is_none (join_errors x wrapped y) ≡ (is_none x && is_none y)
join_errors-is_none none wrapped none = refl
join_errors-is_none none wrapped (some y) = refl
join_errors-is_none (some x) wrapped none = refl
join_errors-is_none (some x) wrapped (some y) = refl

-- The exit code of two errors that were joined.
joined-code :
    (prefix : Text) (x : Option Text) (wrapped : Text) (y : Option Text) (o e : Text)
    → command_exit_code (fail_if prefix (join_errors x wrapped y) (quiet o e)).0
      ≡ code_of (is_none x && is_none y)
joined-code prefix x wrapped y o e =
    fail_if-code prefix (join_errors x wrapped y) o e ∙ ap code_of (join_errors-is_none x wrapped y)

module _ (driver : Driver) (h : Handle) (o e : Text) where
  finish_serve-code :
      (race : Race)
      → command_exit_code (finish_serve driver race h (quiet o e)).0.0
        ≡ code_of (ends_cleanly driver race)
  unfolding command_exit_code finish_serve close_app shutdown fail writeln write
  finish_serve-code (served none) = fail_if-code (bytes "close service: ") driver.close_error o e
  finish_serve-code (served (some x)) =
      joined-code (bytes "serve: ") (some x) _ driver.close_error o e
  finish_serve-code (signalled none none) =
      joined-code (bytes "shutdown service: ") none [] driver.close_error o e
  finish_serve-code (signalled (some x) none) =
      joined-code (bytes "shutdown service: ") (some _) [] driver.close_error o e
  finish_serve-code (signalled none (some x)) = refl
  finish_serve-code (signalled (some x) (some y)) = refl

module _ (printer : Printer) (world : World) (config : Text) (o e : Text) where
  validate_loaded-code :
      (path : Text) (r : LoadResult)
      → command_exit_code (validate_loaded printer path r (quiet o e)).0 ≡ code_of (is_loaded r)
  unfolding command_exit_code validate_loaded fail writeln write
  validate_loaded-code path (loaded cfg) = refl
  validate_loaded-code path read_failed = refl
  validate_loaded-code path parse_failed = refl
  validate_loaded-code path (invalid ms) = refl

  listen-code :
      (address : Text) (refused : Option Text) (h : Handle)
      → command_exit_code (listen printer world address refused h (quiet o e)).0.0
        ≡ code_of (is_none refused && ends_cleanly world.driver world.race)
  unfolding command_exit_code listen close_app fail writeln write
  listen-code address none h = finish_serve-code world.driver h o e world.race
  listen-code address (some x) h =
      joined-code (bytes "listen on " ++ printer.quote address ++ bytes ": ") (some x) _
        world.driver.close_error o e

  serve_started-code :
      (cfg : Config) (h : Handle) (r : Result StartError Application)
      → command_exit_code (serve_started printer world cfg h r (quiet o e)).0.0
        ≡ code_of (started_cleanly world cfg r)
  unfolding command_exit_code fail writeln write
  serve_started-code cfg h (err x) = refl
  serve_started-code cfg h (ok application) = listen-code cfg.server.listen _ h

  serve_loaded-code :
      (r : LoadResult)
      → command_exit_code (serve_loaded printer world r (quiet o e)).0.0
        ≡ code_of (loaded_cleanly world r)
  unfolding command_exit_code fail writeln write
  serve_loaded-code (loaded cfg) = serve_started-code cfg _ _
  serve_loaded-code read_failed = refl
  serve_loaded-code parse_failed = refl
  serve_loaded-code (invalid ms) = refl

  -- Where both writers work, `serve` exits with 2 if there are positional arguments; else with 0
  -- exactly if the configuration is loaded, the start and the listener succeed, the service ends by
  -- itself or after a signal without an error, and the database is closed without one; else with 1.
  pub run_serve-code :
      (args : List Text)
      → command_exit_code (run_serve printer world config args (quiet o e)).0.0
        ≡ (if is_empty args then code_of (serves_cleanly world config) else 2)
  unfolding command_exit_code run_serve reject_positional_args writeln write
  run_serve-code [] = serve_loaded-code (load_config world config)
  run_serve-code (arg ∷ args) = refl

  -- Where both writers work, `validate-config` exits with 0 exactly if there are no positional
  -- arguments and the configuration is loaded, with 2 if there are arguments, and else with 1.
  pub run_validate_config-code :
      (args : List Text)
      → command_exit_code (run_validate_config printer world config args (quiet o e)).0
        ≡ (if is_empty args then code_of (is_loaded (load_config world config)) else 2)
  unfolding command_exit_code run_validate_config reject_positional_args writeln write
  run_validate_config-code [] = validate_loaded-code _ (load_config world config)
  run_validate_config-code (arg ∷ args) = refl

  -- Where the random source gives 32 bytes and both writers work, `generate-token` prints a token that
  -- is accepted, on a line of its own, and nothing else, and exits with 0.
  pub run_generate_token-validate :
      (raw : List ℕ)
      → All (λ n. n < 256) raw
      → length raw ≡ raw_token_bytes
      → (token : Text) × (TokenFormat.validate token ≡ true)
        × (run_generate_token printer (some raw) [] (quiet o e)
            ≡ (none, quiet (o ++ (token ++ bytes "\n")) e))
  unfolding run_generate_token reject_positional_args TokenFormat.generate writeln write
  run_generate_token-validate raw h k = (_, validate-generate raw h k refl, refl)
