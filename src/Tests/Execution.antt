-- ===== src/Tests/Execution.antt =====
-- One action that runs one at a time, invoked twice.
use microhook.Prelude.{
  arith, ◌≡◌, refl, bytes, [], ◌∷◌, none, some, true, ok, err, pos, negsuc, false, pos_part, lookup,
  take_right, if◌then◌else◌, inr, ◌==◌, trim_space,
}
use microhook.Config.Normalize.{has_command, has_shell_command, mode_of}
use microhook.Config.Registry.{get, new_action_registry}
use microhook.Config.Registry.Lookups.{new_action_registry-Represents}
use microhook.Config.Load.{Config}
use microhook.Config.Load.Loaded.{IsReady, IsReadyAction}
use microhook.Storage.{unix}
use microhook.Storage.Repository.Create.{created_run}
use microhook.Execution.{interrupted, Process, action_conflict, no_run_id}
use microhook.Execution.TailBuffer.{new, write_all, to_text}
use microhook.Execution.TailBuffer.Laws.{concat, write_all-take_right}
use microhook.Execution.Environment.{env_map, env_run_id, env_action, env_request_id}
use microhook.Execution.Environment.Precedence.{env_map-microhook}
use microhook.Execution.Runner.{judge}
use microhook.Execution.Runner.Verdicts.{IsVerdict, judge-IsVerdict, is_clean}
use microhook.Execution.Service.{
  begin_reject_action, finish_reject_action, Fresh, Pending, Service, check_invoke, accept_action,
  accept_reject, accept, is_running, create_run, normalize_invoke_mode,
}
use microhook.Execution.Service.Exclusion.{IsExclusive, Reach-IsExclusive, start, next, refused}
use microhook.Execution.Service.Exclusion.Counts.{holders}
use microhook.Execution.Service.Exclusion.Conflict.{is_conflict, accept_action-conflict}
use microhook.Execution.Service.Invocation.{IsInvocable, check_invoke-IsInvocable}
use microhook.Tests.Parameters.{json, messages, process, fresh, params, idle, deploy, create_params}
use microhook.Tests.Config.{registry}

write_all-take_right_example :
    to_text (write_all (new (pos 4)) (bytes "bui" ∷ bytes "lt" ∷ []))
    ≡ take_right (pos_part (pos 4)) (concat (bytes "bui" ∷ bytes "lt" ∷ []))
write_all-take_right_example = write_all-take_right (pos 4) (bytes "bui" ∷ bytes "lt" ∷ [])

env_map-microhook_example :
    let env =
      env_map none ((env_run_id, bytes "fake") ∷ []) (bytes "r1") (bytes "deploy") (bytes "q1") in
    (lookup env_run_id env ≡ some (bytes "r1"))
    × (lookup env_action env ≡ some (bytes "deploy"))
    × (lookup env_request_id env ≡ some (bytes "q1"))
env_map-microhook_example =
    env_map-microhook none ((env_run_id, bytes "fake") ∷ []) (bytes "r1") (bytes "deploy")
      (bytes "q1")

judge-IsVerdict_example :
    IsVerdict (is_clean deploy process) 4 process.finished_now (judge messages deploy process)
judge-IsVerdict_example = judge-IsVerdict messages deploy process

-- The deadline was exceeded, and the process killed.
abbrev late : Process
late = record process {
  ended =
      interrupted none (some (bytes "signal: killed")) (some (negsuc 0)) true false
        (bytes "context deadline exceeded");
}

pub ready : IsReadyAction deploy
unfolding trim_space has_command has_shell_command mode_of
ready = record {
  named = refl;
  valid = record {
    one_command = λ e. cc;
    arguments = (refl, (refl, tt));
    policy = inr refl;
    limit = refl;
    no_nul = refl;
  };
  normal = record { trimmed = refl; mode = refl };
}

abbrev config : Config
config = record {
  settings = record {
    server = record { listen = bytes "127.0.0.1:9464"; log_format = bytes "json" };
    tokens = [];
    storage = record { path = bytes "runs.db"; retention_days = pos 7; max_runs = pos 100 };
    actions = deploy ∷ [];
  };
  action_registry = registry;
}

config-IsReady : IsReady config
unfolding new_action_registry
config-IsReady = record {
  registry = new_action_registry-Represents (deploy ∷ []) registry refl;
  actions = (ready, tt);
  tokens = tt;
  retention_days = refl;
  max_runs = refl;
}

passes : check_invoke json registry params ≡ ok (deploy, bytes "async")
unfolding check_invoke trim_space get lookup normalize_invoke_mode ◌==◌
passes = refl

check_invoke-IsInvocable_example : IsInvocable config params deploy (bytes "async")
check_invoke-IsInvocable_example = check_invoke-IsInvocable json config params config-IsReady passes

-- No identifier is given: the name is taken and freed.
abbrev no_id : Fresh
no_id = record { run_id = none; now = unix 5 }

refused_once : accept_action json no_id deploy params idle ≡ (err no_run_id, idle)
unfolding accept_action accept_reject begin_reject_action is_running accept create_run
    finish_reject_action ◌==◌
refused_once = refl

Reach-IsExclusive_example : IsExclusive idle
Reach-IsExclusive_example =
    Reach-IsExclusive json messages idle idle refl refl
      (next start (refused no_id deploy params refused_once))

abbrev running : Pending
running = record {
  action = deploy;
  run = created_run (unix 5) create_params;
  input = [];
  request_id = bytes "q1";
  releases = some (bytes "deploy");
}

abbrev busy : Service
busy = record idle { reject_running = (bytes "deploy", true) ∷ []; pending = running ∷ [] }

busy-IsExclusive : IsExclusive busy
unfolding is_running lookup
busy-IsExclusive = record { counted = λ name. ground arith }

accept_action-conflict_example :
    let out = accept_action json fresh deploy params busy in
    (holders (bytes "deploy") busy.pending ≡ (if is_conflict out.0 then 1 else 0))
    × (out ≡ (err action_conflict, busy))
unfolding ◌==◌
accept_action-conflict_example =
    accept_action-conflict json fresh deploy params busy busy-IsExclusive refl
