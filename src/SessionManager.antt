-- ===== src/SessionManager.antt =====
-- core/session.go, the type SessionManager: the sessions of every user, the active one of each,
-- and the snapshot on disk. `Types`, `Store`, `Create`, `Query` and `Delete` hold the model; the
-- other modules are named for what they prove of it.
pub mod Types
pub mod Store
pub mod Create
pub mod Query
pub mod Delete
pub mod Saved
pub mod Invariant
pub mod Preserved
pub mod Deletion
pub mod Calls
pub mod Known
pub mod AgentDelete
pub mod Active
pub mod Restart
pub mod Invalidation
pub mod Reachable
