-- ===== src/Tests.antt =====
-- The theorems at concrete inputs.
pub mod Parameters
pub mod Config
pub mod Auth
pub mod Storage
pub mod Execution
pub mod HttpApi
pub mod App
pub mod Cli
pub mod Recovery
pub mod Tracking
pub mod Sharing
pub mod EndToEnd
