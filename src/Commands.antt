-- ===== src/Commands.antt =====
-- core/engine.go: the names of the slash commands, how a typed name is matched, the disabled and the
-- privileged commands, and the gate at the head of `handleCommand`.
pub mod Table
pub mod Gate
pub mod Matching
pub mod Blocking
