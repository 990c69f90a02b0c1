-- ===== src/Storage/Repository/Reads.antt =====
-- `GetRun` and `ListRuns` leave the tables alone, wherever the driver fails.
use microhook.Prelude.{◌≡◌, refl, ◌∙◌, Text, not, is_blank, is_empty, trim_space, ok, if◌then◌else◌}
use microhook.Storage.{invalid_run_state, RunFilter}
use microhook.Storage.Session.{Store, lift, driver}
use microhook.Storage.Session.Laws.{>>=-db, driver-db}
use microhook.Storage.Rows.{Json, require, validate_run_status, run_from_record, runs_from_records}
use microhook.Storage.Repository.{get_run, select_run, select_statement, list_runs, list_statement}

pub get_run-db : (json : Json) (id : Text) (s : Store) → (get_run json id s).1.db ≡ s.db
unfolding get_run select_run
get_run-db json id s = >>=-db (lift (require (not (is_blank id)) invalid_run_state)) _ s λ _ t.
    >>=-db (select_run id) (λ r. lift (run_from_record json r)) t (λ r u. refl)
    ∙ driver-db (select_statement id) t refl

pub list_runs-db : (json : Json) (f : RunFilter) (s : Store) → (list_runs json f s).1.db ≡ s.db
unfolding list_runs
list_runs-db json f s =
    let status = trim_space f.status in
    >>=-db (lift (if is_empty status then ok tt else validate_run_status status)) _ s (λ _ t.
      >>=-db (driver (λ db. (ok (list_statement (trim_space f.action_name) status db), db)))
        (λ records. lift (runs_from_records json records)) t (λ r u. refl)
      ∙ driver-db (λ db. (ok (list_statement (trim_space f.action_name) status db), db)) t refl)
