-- ===== src/Runtime.antt =====
-- The runtime's components, src/runtime.
pub mod Errors
pub mod Utf8
pub mod OutputLog
pub mod LogQuery
pub mod RetryCache
pub mod PatchParser
pub mod HistoryStore
pub mod ExecManager
pub mod PatchEngine
