-- ===== src/Cli/Serve.antt =====
-- `runServe`: from the configuration to the end of the service.
pub mod Closes
use microhook.Prelude.{
  ℕ, Text, bytes, ℤ, Bool, true, false, not, List, [], ◌∷◌, ◌++◌, Option, none, some, is_empty,
  if◌then◌else◌, Result, ok, err,
}
use microhook.Config.Normalize.{FileConfig}
use microhook.Config.Load.{Config, LoadResult, loaded, resolve_path, load}
use microhook.Storage.Session.{Store}
use microhook.Storage.Rows.{Json}
use microhook.Storage.Sqlite.{FileSystem, Driver, Handle, no_handle}
use microhook.App.{Application, StartError, start, close_app, shutdown, join_errors}
use microhook.Cli.Output.{Console, CliError, Run, ◌>>◌, done, exit, to_stderr, write, writeln}

-- How the select of `runServe` comes out. `served`: the server ended, with its error, if that is
-- another than `http.ErrServerClosed`. `signalled`: a signal came first; then the error of the
-- server's `Shutdown`, and that of `Serve`, again other than `http.ErrServerClosed`.
pub data Race : Type 0 where
  served : Option Text → Race
  signalled : Option Text → Option Text → Race

-- The parts of the world: those of `Load`, those of `Bootstrap`, the error of `net.Listen` at an
-- address, and how serving ends.
pub record World : Type 0 where
  pub env_path : Text
  pub parse_duration : Text → Option ℤ
  pub read_file : Text → Option Text
  pub decode_yaml : Text → Option FileConfig
  pub json : Json
  pub digest : Text → Text
  pub format_int : ℕ → Text
  pub now : ℕ
  pub fs : FileSystem
  pub driver : Driver
  pub store : Store
  pub listen_error : Text → Option Text
  pub race : Race

-- The texts of errors and helps, and Go's `%q`.
pub record Printer : Type 0 where
  pub quote : Text → Text
  pub root_help : Text
  pub load_message : LoadResult → Text
  pub start_message : StartError → Text
  pub random_error : Text

unfoldable pub load_config : World → Text → LoadResult
unfolding load
load_config world config =
    load world.parse_duration world.read_file world.decode_yaml (resolve_path world.env_path config)

-- An error is printed, and the exit code is 1.
unfoldable pub fail : Text → Run
unfolding writeln
fail text = writeln to_stderr text >> exit 1

abbrev join_words : List Text → Text
join_words [] = []
join_words (word ∷ []) = word
join_words (word ∷ rest) = word ++ bytes " " ++ join_words rest

unfoldable pub reject_positional_args : Text → List Text → Run
unfolding writeln
reject_positional_args command [] = done
reject_positional_args command (arg ∷ args) =
    writeln to_stderr
      (command ++ bytes " does not accept positional arguments: " ++ join_words (arg ∷ args))
    >> exit 2

-- A failure that may have been joined to others.
abbrev pub fail_if : Text → Option Text → Run
fail_if prefix none = done
fail_if prefix (some e) = fail (prefix ++ e)

abbrev pub Served : Type 0
Served = (Option CliError × Console) × Handle

module _ (driver : Driver) where
  -- Behind the select.
  unfoldable pub finish_serve : Race → Handle → Console → Served
  unfolding close_app shutdown
  finish_serve (served (some e)) handle c =
      let (close_error, handle') = close_app driver handle in
      (
        fail_if (bytes "serve: ")
            (join_errors (some e) (bytes "close service after serve failure: ") close_error) c,
        handle',
      )
  finish_serve (served none) handle c =
      let (close_error, handle') = close_app driver handle in
      (fail_if (bytes "close service: ") close_error c, handle')
  finish_serve (signalled http_error serve_error) handle c =
      let (shutdown_error, handle') = shutdown driver http_error handle in
      (
        (fail_if (bytes "serve: ") serve_error
              >> fail_if (bytes "shutdown service: ") shutdown_error)
            c,
        handle',
      )

module _ (printer : Printer) where
  -- `net.Listen`, and what follows.
  unfoldable pub listen : World → Text → Option Text → Handle → Console → Served
  unfolding finish_serve close_app
  listen world address none handle c = finish_serve world.driver world.race handle c
  listen world address (some e) handle c =
      let (close_error, handle') = close_app world.driver handle in
      (
        fail_if (bytes "listen on " ++ printer.quote address ++ bytes ": ")
            (join_errors (some e) (bytes "close service after listen failure: ") close_error) c,
        handle',
      )

  abbrev pub serve_started :
      World → Config → Handle → Result StartError Application → Console → Served
  serve_started world cfg handle (err e) c =
      (fail (bytes "bootstrap service: " ++ printer.start_message e) c, handle)
  serve_started world cfg handle (ok application) c =
      listen world cfg.server.listen (world.listen_error cfg.server.listen) handle c

  abbrev pub serve_loaded : World → LoadResult → Console → Served
  serve_loaded world (loaded cfg) c =
      let started =
        start world.json world.digest world.format_int world.now cfg world.fs world.driver
          world.store in
      serve_started world cfg started.handle started.result c
  serve_loaded world refused c = (fail (printer.load_message refused) c, no_handle)

  abbrev pub serve_checked : World → Text → Option CliError × Console → Served
  serve_checked world config (some e, c) = ((some e, c), no_handle)
  serve_checked world config (none, c) = serve_loaded world (load_config world config) c

  unfoldable pub run_serve : World → Text → List Text → Console → Served
  unfolding reject_positional_args start listen
  run_serve world config args c =
      serve_checked world config (reject_positional_args (bytes "serve") args c)
