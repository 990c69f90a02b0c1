-- ===== src/Tests/Sharing.antt =====
-- A registry of one action with its storage, an identifier of a run, and the text of an error.
use microhook.Prelude.{
  ℕ, ◌≡◌, ◌≤◌, refl, Text, bytes, pos, List, [], ◌∷◌, some, true, arith, length, lookup, map, All,
  ◌==◌,
}
use microhook.Auth.Base64.RoundTrip.{IsByte}
use microhook.Config.ErrorText.{bullet, error_text, split_lines, split_lines-error_text}
use microhook.Config.Registry.Shared.{
  Cell, slice_cell, map_cell, Heap, SharedAction, action_in, SharedRegistry, get_shared,
}
use microhook.Config.Registry.Private.{IsWithinAction, write_all, IsPrivate, get_shared-IsPrivate}
use microhook.Execution.RunId.{generate_run_id, IsRunId, generate_run_id-IsRunId}

abbrev heap : Heap
heap =
    slice_cell (bytes "make" ∷ bytes "deploy" ∷ [])
    ∷ map_cell ((bytes "STAGE", bytes "test") ∷ [])
    ∷ []

abbrev deploy_shared : SharedAction
deploy_shared = record {
  name = bytes "deploy";
  description = [];
  mode = bytes "command";
  command = some 0;
  shell_command = [];
  cwd = [];
  timeout = pos 0;
  env = some 1;
  concurrency_policy = bytes "allow";
  max_output_bytes = pos 10;
  enabled = true;
}

abbrev shared : SharedRegistry
shared = record {
  ordered = deploy_shared ∷ [];
  by_name = (bytes "deploy", deploy_shared) ∷ [];
  enabled_by_name = (bytes "deploy", deploy_shared) ∷ [];
}

get_shared-IsPrivate_example :
    let h' = (get_shared shared (bytes "deploy") heap).1 in
    (copy : SharedAction) × ((get_shared shared (bytes "deploy") heap).0 ≡ some copy)
    × IsPrivate deploy_shared heap copy h'
    × ((writes : List (ℕ × Cell)) (b : SharedAction)
        → All (λ w. length heap ≤ w.0) writes
        → IsWithinAction heap b
        → action_in (write_all writes h') b ≡ action_in heap b)
unfolding lookup ◌==◌
get_shared-IsPrivate_example =
    get_shared-IsPrivate shared (bytes "deploy") heap deploy_shared refl (omega arith, omega arith)

abbrev sixteen : List ℕ
sixteen = 0 ∷ 1 ∷ 2 ∷ 3 ∷ 4 ∷ 5 ∷ 6 ∷ 7 ∷ 8 ∷ 9 ∷ 10 ∷ 11 ∷ 12 ∷ 13 ∷ 14 ∷ 255 ∷ []

generate_run_id-IsRunId_example :
    (id : Text) × (generate_run_id (some sixteen) ≡ some id)
    × IsRunId id
    × ((other : List ℕ)
        → All IsByte other
        → generate_run_id (some other) ≡ some id
        → other ≡ sixteen)
generate_run_id-IsRunId_example = generate_run_id-IsRunId sixteen (omega arith) refl

split_lines-error_text_example :
    split_lines (error_text (bytes "storage.path is required" ∷ bytes "b" ∷ []))
    ≡ map bullet (bytes "storage.path is required" ∷ bytes "b" ∷ [])
split_lines-error_text_example =
    split_lines-error_text (bytes "storage.path is required") (bytes "b" ∷ []) (omega arith)
