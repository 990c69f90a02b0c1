-- ===== src/App/Handles.antt =====
-- Whether the database is left open by a start.
use microhook.Prelude.{ℕ, ◌≡◌, ◌≤◌, Text, true, Option, Result, ok, err, arith}
use microhook.Config.Load.{Config}
use microhook.Storage.Session.{Store}
use microhook.Storage.Rows.{Json}
use microhook.Storage.Sqlite.{FileSystem, Driver, Handle, OpenError, close}
use microhook.Storage.Sqlite.Handles.{is_ok, is_open, open_store-IsOpened}
use microhook.App.{Outcome, Started, close_on_error, after_open, start}

-- The pool is open exactly if the start succeeds, and is closed at most once.
pub record IsStarted (s : Started) : Type 0 where
  pub left_open : is_open s.handle ≡ is_ok s.result
  pub closed_once : s.handle.closes ≤ 1

close_on_error-IsStarted :
    (close_error : Option Text) (path : Text) (handle : Handle) (out : Outcome)
    → is_open handle ≡ true
    → IsStarted (close_on_error close_error path handle out)
unfolding close
close_on_error-IsStarted close_error path handle (ok c, s) h = record {
  left_open = h;
  closed_once = ground arith;
}
close_on_error-IsStarted close_error path handle (err e, s) h = record {
  left_open = ground arith;
  closed_once = ground arith;
}

module _ (json : Json) (digest : Text → Text) (format_int : ℕ → Text) (now : ℕ) (cfg : Config) where
  after_open-IsStarted :
      (close_error : Option Text) (r : Result OpenError Text) (handle : Handle) (store : Store)
      → is_open handle ≡ is_ok r
      → handle.closes ≤ 1
      → IsStarted (after_open json digest format_int now cfg close_error r handle store)
  after_open-IsStarted close_error (err e) handle store h k = record {
    left_open = h;
    closed_once = k;
  }
  after_open-IsStarted close_error (ok path) handle store h k =
      close_on_error-IsStarted close_error path handle _ h

  -- A start leaves the database open exactly if it succeeds, and closes it at most once, wherever it
  -- fails: in the opening, the retention, the credentials or the recovery.
  pub start-IsStarted :
      (fs : FileSystem) (driver : Driver) (store : Store)
      → IsStarted (start json digest format_int now cfg fs driver store)
  unfolding start
  start-IsStarted fs driver store =
      let opened = open_store-IsOpened fs driver cfg.storage.path store in
      after_open-IsStarted driver.close_error _ _ _ opened.left_open opened.closed_once
