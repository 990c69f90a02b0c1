-- ===== src/Tests/App.antt =====
-- Starts with a configuration of one token.
use microhook.Prelude.{
  Text, sym, some, none, inl, inr, Bool-cases, ◌*◌, ◌≡◌, refl, pos, bytes, List, [], ◌∷◌, ok, err,
  arith, ◌==◌,
}
use microhook.Config.Load.{Config}
use microhook.Config.Load.Loaded.{IsReadyToken}
use microhook.Execution.Service.{new_service}
use microhook.Config.Registry.{new_action_registry}
use microhook.Config.Registry.Lookups.{find_action, new_action_registry-Represents}
use microhook.Auth.{TokenCredential, new}
use microhook.Auth.TokenFormat
use microhook.Auth.Base64.{decode}
use microhook.Storage.{invalid_retention}
use microhook.Storage.Repository.Create.{quiet}
use microhook.App.{hour, max_age, retention_failed, bootstrap, start}
use microhook.App.Handles.{IsStarted, start-IsStarted}
use microhook.App.Bootstrap.{max_age-exact, bootstrap_overflow}
use microhook.App.Restarts.{IsKept, bootstrap-restarted}
use microhook.Config.Load.Loaded.{IsReady}
use microhook.Storage.Tables
use microhook.Storage.Tables.{Db, find_run, find_record, run_records, find_snapshot}
use microhook.Storage.Rows.{snapshot_row}
use microhook.Execution.Service.Tracking.Records.{AreDecoded}
use microhook.Tests.Execution
use microhook.Tests.Recovery.{stored_run, decoded}
use microhook.Tests.Parameters.{json, digest, deploy}
use microhook.Tests.Config.{registry}
use microhook.Tests.Auth.{ci}
use microhook.Tests.Storage.{file_system, ready_driver, one_run}

max_age-exact_example : max_age (pos 30) ≡ pos (30 * 24 * hour)
max_age-exact_example = max_age-exact 30 (omega arith)

ready : IsReadyToken (deploy ∷ []) ci
unfolding TokenFormat.validate decode find_action ◌==◌
ready = record { named = refl; value = refl; known = ((refl, λ e. cc), tt) }

abbrev config : Config
config = record {
  settings = record {
    server = record { listen = bytes "127.0.0.1:9464"; log_format = bytes "json" };
    tokens = ci ∷ [];
    storage = record { path = bytes "runs.db"; retention_days = pos 200000; max_runs = pos 100 };
    actions = deploy ∷ [];
  };
  action_registry = registry;
}

bootstrap_overflow_example :
    bootstrap json digest (λ n. bytes "0") 1000 config (quiet one_run)
    ≡ (err (retention_failed invalid_retention), new_service (quiet one_run))
bootstrap_overflow_example =
    bootstrap_overflow json digest (λ n. bytes "0") 1000 config 200000 (quiet one_run) refl
      (omega arith) (omega arith)

-- The age of the retention overflows, and the database is closed again.
start-IsStarted_example :
    IsStarted
      (start json digest (λ n. bytes "0") 1000 config file_system ready_driver (quiet one_run))
start-IsStarted_example =
    start-IsStarted json digest (λ n. bytes "0") 1000 config file_system ready_driver
      (quiet one_run)

readable : AreDecoded json one_run
unfolding Tables.get_run find_record run_records find_snapshot snapshot_row ◌==◌
readable id r found runs = elim (Bool-cases (bytes "r1" == id)) [
  | inl e ↦
      let there : some stored_run ≡ some r = rw e at found in
      let same : stored_run ≡ r = cc in rw (sym same) decoded
  | inr e ↦ let gone : none ≡ some r = rw e at found in cc
]

-- The limit of 30 days.
abbrev pub kept_config : Config
kept_config = record {
  settings = record {
    server = config.server;
    tokens = ci ∷ [];
    storage = record { path = bytes "runs.db"; retention_days = pos 30; max_runs = pos 100 };
    actions = deploy ∷ [];
  };
  action_registry = registry;
}

pub kept_config-IsReady : IsReady kept_config
unfolding new_action_registry
kept_config-IsReady = record {
  registry = new_action_registry-Represents (deploy ∷ []) registry refl;
  actions = (Execution.ready, tt);
  tokens = (ready, tt);
  retention_days = refl;
  max_runs = refl;
}

bootstrap-restarted_example :
    (credentials : List TokenCredential) × (db' : Db) × (new digest (ci ∷ []) ≡ ok credentials)
    × (bootstrap json digest (λ n. bytes "0") 1000 kept_config (quiet one_run)
        ≡ (ok credentials, new_service (quiet db')))
    × ((j : Text)
        → IsKept json digest
            (λ n. bytes "0")
            1000
            kept_config
            (Tables.get_run j one_run)
            (Tables.get_run j db'))
unfolding find_run
bootstrap-restarted_example =
    bootstrap-restarted json digest (λ n. bytes "0") 1000 kept_config one_run 30 kept_config-IsReady
      refl (omega arith) (refl, tt) readable
