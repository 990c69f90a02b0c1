-- ===== src/Execution/Interrupt.antt =====
-- internal/execution/runner.go: the context that an execution runs under, and how its process group is
-- killed. What the two system calls return is given.
use microhook.Prelude.{
  ℕ, ◌+◌, ◌++◌, bytes, Text, ℤ, is_pos, pos_part, Bool, true, false, Option, none, some, leb,
  if◌then◌else◌,
}

-- The earlier of the deadline of a parent and another.
abbrev earlier : Option ℕ → ℕ → ℕ
earlier none n = n
earlier (some m) n = if leb m n then m else n

-- `executionContext`: the deadline, if there is one; `context.WithTimeout` keeps an earlier one of the
-- parent.
unfoldable pub execution_deadline : Option ℕ → ℕ → ℤ → Option ℕ
execution_deadline parent now timeout =
    if is_pos timeout then some (earlier parent (now + pos_part timeout)) else parent

-- What `Kill` returns.
pub data KillResult : Type 0 where
  killed : KillResult
  already_gone : KillResult
  not_killed : Text → KillResult

-- `errors.Join` of two errors.
abbrev joined : Text → Text → Text
joined first second = first ++ bytes "\n" ++ second

abbrev group_error : Text → KillResult → Text
group_error first (not_killed second) = joined first second
group_error first _ = first

-- `terminateProcessGroup`, which is told whether there is a process: the signal to the group, and
-- where it fails, that to the process.
unfoldable pub terminate_process_group : Bool → KillResult → KillResult → Option Text
terminate_process_group false group process = none
terminate_process_group true (not_killed first) process = some (group_error first process)
terminate_process_group true _ process = none
