-- ===== src/Execution/Service/Tracking.antt =====
-- internal/execution: the executions under way and the stored runs, over any sequence of steps.
pub mod Records
pub mod Accepting
pub mod Invariant
pub mod Invocations
