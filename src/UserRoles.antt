-- ===== src/UserRoles.antt =====
-- core/user_roles.go: roles of users, with their disabled commands and rate limits.
pub mod Types
pub mod Configure
pub mod Validation
pub mod Members
pub mod Added
pub mod Resolve
pub mod Fallback
pub mod Snapshot
pub mod Policy
