-- ===== src/App.antt =====
-- internal/app/app.go: the start of the service, its shutdown, and what becomes of the store. The log
-- is left out.
pub mod Bootstrap
pub mod Handles
pub mod Restarts
use mathlib.Core.Option
use microhook.Storage.Sqlite.{FileSystem, Driver, Handle, OpenError, close, open_store}
use microhook.Prelude.{
  ℕ, ◌==◌, if◌then◌else◌, ◌*◌, ℤ, pos, int64_of, bits64, Text, bytes, List, [], ◌++◌, Option, none,
  some, Result, ok, err,
}
use microhook.Config.Load.{Config}
use microhook.Auth.{TokenCredential, SetupError, new}
use microhook.Storage.{Time, unix, StorageError, RetentionResult}
use microhook.Storage.Session.{Store}
use microhook.Storage.Rows.{Json}
use microhook.Storage.Repository.{apply_retention}
use microhook.Execution.{ExecError}
use microhook.Execution.Service.{Service, new_service, recover}

-- A product of two int64 values.
unfoldable pub times : ℤ → ℤ → ℤ
unfolding int64_of
times a b = int64_of (bits64 a * bits64 b)

abbrev pub hour : ℕ
hour = 3600000000000

-- `time.Duration(cfg.Storage.RetentionDays) * 24 * time.Hour`
unfoldable pub max_age : ℤ → ℤ
max_age retention_days = times (times retention_days (pos 24)) (pos hour)

pub data BootstrapError : Type 0 where
  retention_failed : StorageError → BootstrapError
  auth_failed : SetupError → BootstrapError
  recovery_failed : ExecError → BootstrapError

abbrev pub Outcome : Type 0
Outcome = Result BootstrapError (List TokenCredential) × Service

module _ (json : Json) (digest : Text → Text) (format_int : ℕ → Text) (now : ℕ) (cfg : Config) where
  abbrev recovered : List TokenCredential → Result ExecError (Unit {0}) × Service → Outcome
  recovered credentials (err e, s) = (err (recovery_failed e), s)
  recovered credentials (ok u, s) = (ok credentials, s)

  abbrev pub after_auth : Result SetupError (List TokenCredential) → Store → Outcome
  after_auth (err e) store = (err (auth_failed e), new_service store)
  after_auth (ok credentials) store =
      recovered credentials (recover json (unix now) (new_service store))

  abbrev pub after_retention : Result StorageError RetentionResult × Store → Outcome
  after_retention (err e, store) = (err (retention_failed e), new_service store)
  after_retention (ok result, store) = after_auth (new digest cfg.tokens) store

  unfoldable pub bootstrap : Store → Outcome
  bootstrap store = after_retention (
      apply_retention format_int now
        (record { max_age = max_age cfg.storage.retention_days; max_runs = cfg.storage.max_runs })
        store)

-- The last error comes with that of `Close`.
pub data StartError : Type 0 where
  open_error : OpenError → StartError
  bootstrap_error : BootstrapError → Option Text → StartError

pub record Application : Type 0 where
  pub credentials : List TokenCredential
  pub service : Service
  pub path : Text

-- The outcome of a start, and what becomes of the pool and the rows.
pub record Started : Type 0 where
  pub result : Result StartError Application
  pub handle : Handle
  pub store : Store

-- The deferred function: a failure behind the opening closes the store.
abbrev pub close_on_error : Option Text → Text → Handle → Outcome → Started
close_on_error close_error path handle (err e, s) = record {
  result = err (bootstrap_error e close_error);
  handle = close handle;
  store = s.store;
}
close_on_error close_error path handle (ok credentials, s) = record {
  result = ok (record { credentials = credentials; service = s; path = path });
  handle = handle;
  store = s.store;
}

module _ (json : Json) (digest : Text → Text) (format_int : ℕ → Text) (now : ℕ) (cfg : Config) where
  abbrev pub after_open : Option Text → Result OpenError Text → Handle → Store → Started
  after_open close_error (err e) handle store = record {
    result = err (open_error e);
    handle = handle;
    store = store;
  }
  after_open close_error (ok path) handle store =
      close_on_error close_error path handle (bootstrap json digest format_int now cfg store)

  -- The whole of `Bootstrap`.
  unfoldable pub start : FileSystem → Driver → Store → Started
  start fs driver store =
      let opened = open_store fs driver cfg.storage.path store in
      after_open driver.close_error opened.result opened.handle opened.store

-- `errors.Join` of two errors that may be nil, the second with what it is wrapped in.
abbrev pub join_errors : Option Text → Text → Option Text → Option Text
join_errors e wrapped none = e
join_errors none wrapped (some f) = some (wrapped ++ f)
join_errors (some e) wrapped (some f) = some (e ++ bytes "\n" ++ wrapped ++ f)

-- The two handlers of `log/slog`.
pub data LogHandler : Type 0 where
  text_handler json_handler : LogHandler

-- `newLogger`, without the writer.
unfoldable pub new_logger : Text → LogHandler
unfolding ◌==◌
new_logger format = if format == bytes "text" then text_handler else json_handler

-- `App.Close`: the executor has nothing to close.
unfoldable pub close_app : Driver → Handle → Option Text × Handle
unfolding close
close_app driver handle = (driver.close_error, close handle)

-- `App.Shutdown`; the error of the server is none where it is `http.ErrServerClosed`.
unfoldable pub shutdown : Driver → Option Text → Handle → Option Text × Handle
unfolding close_app
shutdown driver http_error handle =
    let (close_error, handle') = close_app driver handle in
    (
      join_errors (Option.map (λ e. bytes "shutdown http server: " ++ e) http_error) [] close_error,
      handle',
    )
