-- ===== src/Cli/Serve/Closes.antt =====
-- Whatever happens to the service, its database is closed.
use microhook.Prelude.{
  ◌≡◌, ◌≤◌, refl, Text, bytes, true, false, List, Option, none, some, Result, ok, err, arith,
}
use microhook.Config.Load.{Config, LoadResult, loaded}
use microhook.Storage.Sqlite.{Driver, Handle, close}
use microhook.Storage.Sqlite.Handles.{is_ok, is_open}
use microhook.App.{StartError, Application, close_app, shutdown}
use microhook.App.Handles.{start-IsStarted}
use microhook.Cli.Output.{Console, CliError}
use microhook.Cli.Serve.{
  Race, served, signalled, World, Printer, load_config, reject_positional_args, finish_serve,
  listen, serve_started, serve_loaded, serve_checked, run_serve,
}

-- The pool is not left open, and was closed once or never.
pub record IsClosed (h : Handle) : Type 0 where
  pub left_open : is_open h ≡ false
  pub closed_once : h.closes ≤ 1

-- A pool that is open was not closed before.
close-IsClosed : (h : Handle) → is_open h ≡ true → IsClosed (close h)
unfolding close
close-IsClosed h o = record { left_open = ground arith; closed_once = ground arith }

finish_serve-IsClosed :
    (driver : Driver) (race : Race) (h : Handle) (c : Console)
    → is_open h ≡ true
    → IsClosed (finish_serve driver race h c).1
unfolding finish_serve close_app shutdown
finish_serve-IsClosed driver (served none) h c o = close-IsClosed h o
finish_serve-IsClosed driver (served (some e)) h c o = close-IsClosed h o
finish_serve-IsClosed driver (signalled http_error serve_error) h c o = close-IsClosed h o

module _ (printer : Printer) where
  listen-IsClosed :
      (world : World) (address : Text) (e : Option Text) (h : Handle) (c : Console)
      → is_open h ≡ true
      → IsClosed (listen printer world address e h c).1
  unfolding listen close_app
  listen-IsClosed world address none h c o = finish_serve-IsClosed world.driver world.race h c o
  listen-IsClosed world address (some e) h c o = close-IsClosed h o

  serve_started-IsClosed :
      (world : World) (cfg : Config) (h : Handle) (r : Result StartError Application) (c : Console)
      → is_open h ≡ is_ok r
      → h.closes ≤ 1
      → IsClosed (serve_started printer world cfg h r c).1
  serve_started-IsClosed world cfg h (err e) c o k = record { left_open = o; closed_once = k }
  serve_started-IsClosed world cfg h (ok application) c o k =
      listen-IsClosed world cfg.server.listen _ h c o

  serve_loaded-IsClosed :
      (world : World) (r : LoadResult) (c : Console) → IsClosed (serve_loaded printer world r c).1
  serve_loaded-IsClosed world (loaded cfg) c =
      let started =
        start-IsStarted world.json world.digest world.format_int world.now cfg world.fs world.driver
          world.store in
      serve_started-IsClosed world cfg _ _ c started.left_open started.closed_once
  serve_loaded-IsClosed world refused c = record { left_open = refl; closed_once = omega arith }

  serve_checked-IsClosed :
      (world : World) (config : Text) (out : Option CliError × Console)
      → IsClosed (serve_checked printer world config out).1
  serve_checked-IsClosed world config (some e, c) = record {
    left_open = refl;
    closed_once = omega arith;
  }
  serve_checked-IsClosed world config (none, c) =
      serve_loaded-IsClosed world (load_config world config) c

  -- When `serve` returns, the database is not open: it was never opened, or was closed, once. So it is
  -- for bad arguments and configurations, wherever the start or the listener fails, whether the server
  -- or a signal ends first, and whichever write fails.
  pub run_serve-IsClosed :
      (world : World) (config : Text) (args : List Text) (c : Console)
      → IsClosed (run_serve printer world config args c).1
  unfolding run_serve
  run_serve-IsClosed world config args c =
      serve_checked-IsClosed world config (reject_positional_args (bytes "serve") args c)
