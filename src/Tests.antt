-- ===== src/Tests.antt =====
-- Concrete inputs: tests of the models, and the theorems at inputs that meet their hypotheses.
mod Ascii
mod Sessions
mod Managers
mod Limits
mod Policies
mod Queues
mod Chats
mod Relays
mod Cards
mod Stores
mod Schedules
