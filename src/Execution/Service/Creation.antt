-- ===== src/Execution/Service/Creation.antt =====
-- A run of an action that is ready passes the checks of the store.
use microhook.Prelude.{
  ℕ, ◌≡◌, ◌≢◌, ◌⊎◌, [], refl, inl, inr, ◌||◌, ◌∷◌, Text, bytes, Bool, true, false, some, arith,
  is_blank, is_empty, trim_space, ok,
}
use microhook.Config.{Action}
use microhook.Config.Registry.{ActionRegistry}
use microhook.Config.Normalize.{mode_of}
use microhook.Config.Load.Loaded.{IsReadyAction}
use microhook.Storage.{unix, CreateRunParams, run_status_running}
use microhook.Storage.Tables.{RunRow}
use microhook.Storage.Rows.{
  Json, created_row, check_create, validate_run_status, is_run_status, validate_action_snapshot,
  normalize_time, nullable_unix_nano, normalize_raw_json,
}
use microhook.Execution.Runner.{action_snapshot_from_config}
use microhook.Execution.Service.{InvokeParams, check_invoke}

-- The parameters of the run of an action.
abbrev pub running_params : Text → ℕ → Action → Text → CreateRunParams
running_params id now action request_metadata = record {
  id = id;
  action_name = action.name;
  status = run_status_running;
  created_at = unix now;
  started_at = some (unix now);
  request_metadata = request_metadata;
  stdout_tail = [];
  stderr_tail = [];
  error_summary = [];
  action_snapshot = action_snapshot_from_config action;
}

-- The row of a run that starts now.
abbrev pub running_row : Text → ℕ → Action → Text → RunRow
running_row id now action request_metadata =
    created_row (running_params id now action request_metadata) now (some now) request_metadata

mode_of-named : (a b : Bool) → a ≢ b → is_blank (mode_of a b) ≡ false
unfolding mode_of trim_space
mode_of-named true true h = absurd (h refl)
mode_of-named false false h = absurd (h refl)
mode_of-named true false h = refl
mode_of-named false true h = refl

policy-named :
    (policy : Text) → (policy ≡ bytes "allow") ⊎ (policy ≡ bytes "reject") → is_blank policy ≡ false
unfolding trim_space
policy-named policy (inl e) = rw e
policy-named policy (inr e) = rw e

module _ (json : Json) where
  -- Whatever the store checks holds of an action that is ready.
  pub check_create-IsReadyAction :
      (id : Text) (now : ℕ) (a : Action) (request_metadata : Text)
      → IsReadyAction a
      → is_blank id ≡ false
      → normalize_raw_json json request_metadata ≡ ok request_metadata
      → check_create json (unix now) (running_params id now a request_metadata)
        ≡ ok (running_row id now a request_metadata)
  unfolding check_create validate_action_snapshot action_snapshot_from_config validate_run_status
      is_run_status normalize_time nullable_unix_nano
  check_create-IsReadyAction id now a request_metadata ready named valid =
      let name : is_blank a.name ≡ false = rw (ready.normal.trimmed) ready.named in
      let mode : is_blank a.mode ≡ false =
        rw (ready.normal.mode) (mode_of-named _ _ ready.valid.one_command) in
      rw (
        named,
        name,
        mode,
        policy-named a.concurrency_policy ready.valid.policy,
        ready.valid.limit,
        valid,
      )

  pub normalize_raw_json-valid :
      (data' : Text)
      → (is_empty data' || json.valid data') ≡ true
      → normalize_raw_json json data' ≡ ok data'
  unfolding normalize_raw_json
  normalize_raw_json-valid [] h = refl
  normalize_raw_json-valid (b ∷ data') h = rw h

  pub check_invoke-metadata :
      (registry : ActionRegistry) (p : InvokeParams) {a : Action} {mode : Text}
      → check_invoke json registry p ≡ ok (a, mode)
      → (is_empty p.request_metadata || json.valid p.request_metadata) ≡ true
  unfolding check_invoke
  check_invoke-metadata registry p h = ground arith
