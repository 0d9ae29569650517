-- ===== src/Lib.antt =====
-- A verification library for agentchat, the program that connects coding agents to Feishu chats. It
-- models the parts of the package `core` that keep the program's own state and make its decisions:
-- conversations and their owner, the keys of chats, rate limits, duplicate messages, directory
-- histories, slash commands, the roles of users, the bindings of channels to workspaces, run-time
-- directories, the pool of workspaces, scheduled jobs, the queue of a busy conversation, previews
-- of replies, progress messages, permission requests, messages between bots, periodic prompts, and
-- the rate of outgoing messages. Every definition is a translation of the Go code and can be
-- evaluated.
--
-- How the parts interact. A message arrives with a session key. MessageDedup drops the second copy
-- of a message; `checkRateLimit` asks the role's limiter and then the project's; a text that begins
-- with a slash goes through the gate of `handleCommand`, with the disabled commands of the user's
-- role or of the project; a reply to an open permission request goes to Permissions; everything
-- else goes to the active Session of the key, which SessionManager finds or creates, and which only
-- one worker holds at a time. A message that finds the session held is queued in Interactive, whose
-- worker hands it to the agent after the turn; StreamPreview shows the answer while it is written,
-- and Replies splits what is sent.
--
-- Files and code:
--
-- - Session (core/session.go, `Session`): the record of a conversation and its methods.
--   Session/Lock: who holds the busy flag, as a step relation. Session/Ids: the agent session IDs
--   that a session remembers. Session/History: the entries of the history.
-- - SessionKey (core/engine.go and core/workspace_binding.go): splitting and joining of keys such
--   as `feishu:chat:user`. SessionKey/Laws: splits of joined keys.
-- - SessionManager (core/session.go, `SessionManager`): Types and Store hold the state and its file
--   (`load`, `saveLocked`, `NewSessionManager`), Create and Query and Delete the methods. Calls is
--   a series of calls; Invariant, Preserved and Reachable are about any series of calls; Deletion,
--   AgentDelete, Invalidation, Known, Active and Restart about single methods.
-- - RateLimiter (core/ratelimit.go): Spec is a limiter that forgets nothing; Recent, Refines and
--   Window hold the theorems.
-- - MessageDedup (core/dedup.go) and DirHistory (core/dir_history.go), each with its specification.
-- - Commands (core/engine.go): Table has `builtinCommands`, `matchPrefix` and `matchSubCommand`;
--   Gate has `resolveDisabledCmds`, `isAdmin` and the tests of `handleCommand`; Matching and
--   Blocking hold their theorems.
-- - CommandRegistry (core/command.go): custom commands; CommandRegistry/Resolution.
-- - UserRoles (core/user_roles.go, and `checkRateLimit` of core/engine.go): Types, Configure,
--   Validation, Members, Added, Resolve, Fallback, Snapshot, and Policy, where roles and commands
--   meet.
-- - WorkspaceBindings (core/workspace_binding.go): the bindings of channels, and the file that
--   processes share. Lookups: what is found after a change. Worlds: several processes, whose
--   methods read the file again in one phase and act in the next, and one map for all; Processes:
--   their theorem, for methods that do not overlap, since the file has no lock.
-- - ProjectState (core/projectstate.go) with ProjectState/Laws, and Workspaces
--   (core/workspace_state.go) with Workspaces/Pool and Workspaces/Reaping. The pool's states are
--   shared objects, so a pointer is a number into a heap.
-- - Crons (core/cron.go, `CronStore`): the jobs and their file; Crons/Fields has `Update` and the
--   setting of fields by name, Crons/Jobs and Crons/ReadOnly the theorems.
-- - Interactive (core/engine.go): the state of a conversation's agent and its queue of messages.
--   Interactive/System: the goroutines as a step relation: `handleMessage` for a busy session and
--   `queueMessageForBusySession`, `processInteractiveMessageWith`,
--   `getOrCreateInteractiveStateWith`, `drainPendingMessages`, `drainOrphanedQueue`, `runCompress`
--   of a `/compress`, and `cleanupInteractiveState`. An automatic compress, after which the lock is
--   given back twice, is left out. Orphans, Bounds, Known, Conserved and Progress are about what is
--   reachable.
-- - StreamPreview (core/streaming.go): the preview of a reply; Covered, Degraded, Sent, Shown and
--   Quiet are about any series of calls.
-- - ProgressCard and Progress (core/progress_compact.go): the payload of a progress card, and the
--   message that shows the progress of a turn; ProgressCard/RoundTrip, Progress/Writer, Window,
--   Latest, Bounds and Shown.
-- - Permissions (core/engine.go): the replies to permission requests and to an agent's questions;
--   Words, Decisions, Questions.
-- - Replies and DeleteBatch (core/engine.go): `splitMessage` and `parseDeleteBatchIndices`, with
--   Replies/Chunks and DeleteBatch/Indices, Exact and Errors.
-- - Relay (core/relay.go): the bots of a group chat, and `Send`; Relay/Bindings, Restart and
--   Sending.
-- - Heartbeat (core/heartbeat.go): periodic prompts, their pauses and intervals; Heartbeat/Control
--   and Restart.
-- - OutgoingRateLimiter (core/outgoing_ratelimit.go): token buckets, in exact arithmetic;
--   OutgoingRateLimiter/Bucket, Attempts, Waited and Budget.
-- - Unicode: the functions of Go's `strings` that depend on the Unicode tables (`ToLower`,
--   `TrimSpace`, `EqualFold`) are a record that the models take. Of `TrimSpace`,
--   ProgressCard/RoundTrip assumes that a second pass changes nothing; nothing else is assumed of
--   them.
-- - Shared: Boolean tests, lists measured by native numbers, texts, and Go's maps as association
--   lists (Shared/Dict). Tests: concrete inputs.
--
-- Bounds and fuel. Session counters are int64; printing a counter uses the counter plus one as
-- fuel, which is enough since each step divides it by ten. The loop of `splitMessage` has as fuel
-- the number of runes plus one: with a limit of at least one, each round takes a rune or more. With
-- a limit of zero it does not end; the callers pass 4000. Theorems on new sessions state that the
-- counter stays below 2 ^ 63. Times are natural numbers in the unit that the code uses; Go's map
-- order is the order of the association list.
--
-- Parameters. The table functions of Unicode, the path normalization of a workspace, of which only
-- that a second pass changes nothing is assumed, the JSON of a progress card, of which only that
-- the card at hand can be read back is assumed, the registries of custom commands and skills, and
-- what platforms and agents answer are arguments.
--
-- Not modelled: log lines, the JSON text and the causes of a failed write (a write succeeds or
-- leaves the file as it was), entries of a loaded file that are null, the goroutines themselves,
-- except in Session/Lock and Interactive (elsewhere each method runs under its lock and is one
-- step), the events of an agent within a turn, and what the single commands do. Interactive has one
-- session and one conversation, and an engine that is not shutting down; what several sessions of
-- one conversation do to each other is left out. The rest of the program is input and output:
-- servers, drivers of agents, the chat client, and the configuration file.
pub mod Shared
pub mod StreamPreview
pub mod Unicode
pub mod Commands
pub mod Heartbeat
pub mod Interactive
pub mod MessageDedup
pub mod DeleteBatch
pub mod DirHistory
pub mod RateLimiter
pub mod Relay
pub mod CommandRegistry
pub mod Progress
pub mod ProgressCard
pub mod Replies
pub mod UserRoles
pub mod WorkspaceBindings
pub mod OutgoingRateLimiter
pub mod Permissions
pub mod ProjectState
pub mod Workspaces
pub mod Crons
pub mod SessionKey
pub mod Session
pub mod SessionManager
pub mod Tests
