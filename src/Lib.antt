-- ===== src/Lib.antt =====
-- A verification library for the bridge between Yunzhijia group chats and coding engines (bridge/, in
-- Go). It models the parts that decide what happens to a message, each as functions on an explicit
-- state, with the theorems that make them correct.
--
-- The parts. Messages come in by the webhook, by a socket or by polling with the command line tool
-- yzj-cli (internal/yzjcli). The dispatcher (internal/inbound) drops a message that was seen
-- (internal/dedupe), that is not for the bot or whose user the bot does not serve, answers the
-- commands in it (internal/commands), and has the others join the queue of their scope
-- (internal/jobs). A job asks the orchestrator (internal/orchestrator), which finds the bot that the
-- message names (internal/registry), takes the lock of the engine session (internal/runlock,
-- internal/sessions) and calls the engine; the answer goes out in messages of a bounded length
-- (internal/yzjout). Profiles of the users are made in the background (internal/memory). The desktop
-- program keeps test chats (internal/chatstore) and reads the log (internal/logbuf).
--
-- The files.
--   Prelude: the shared names; lists over the native numbers, association maps as functions, tests,
--     and the functions of Go's package strings that the program uses (Prelude/Text).
--   Jobs: internal/jobs/jobs.go. Jobs/Types has the records; Jobs has TryAccept (try_accept),
--     DrainExtra, Finish, Context, Cancel, Busy, Snapshot, UseChannelQueue and Scope (scope_key).
--   RunLock: internal/runlock/runlock.go, Acquire and its release function, NormalizeEngine and
--     SessionKey; Step is the relation of the interleavings of callers.
--   Dedupe: internal/dedupe/dedupe.go, AlreadySeen.
--   LogBuf: internal/logbuf/logbuf.go, Append with its daily file, Since, and in LogBuf/Bot the guess
--     of a line's bot.
--   YzjCli: internal/yzjcli. Errors has the tests of client.go, State the store of state.go, Message
--     message.go, Watcher and Poll watcher.go (pollOnce is poll_once).
--   Memory/Scheduler: internal/memory/scheduler.go; Step is the relation of its goroutines.
--   Memory/Eligible: internal/memory/eligible.go. Memory/Profiles: store.go, turns.go, path.go and
--     types.go of internal/memory. Memory/Appendix: appendix.go. Memory/Service: service.go, which
--     fills the record MemoryService that Inbound takes; its FormatShow is in Memory/Show.
--   Bots: internal/bot/bot.go, the settings of a bot. Json: values that encoding/json decodes.
--   Commands: internal/commands/commands.go, with its regular expressions in Commands/Patterns.
--   Inbound: internal/inbound/inbound.go. Start has the end of Handle (accept_job) and startJob, Handle
--     the rest of Handle, Run the loop of runJob (answer) and its deferred function (end_job),
--     Attachments prepareAttachments. Reach is the relation of the orders of messages and answers.
--   Orchestrator: internal/orchestrator/orchestrator.go; dispatch is begin, up to the call of the
--     engine, and complete, behind it. Locked is the relation of the orders of dispatches.
--   Sessions: internal/sessions. Keys has runlock_key.go and the keys of sessions.go, Entry its entries
--     and their form in the file, Store its operations.
--   ChatStore: internal/chatstore/store.go; ChatStore/File has the form of the sessions in the file.
--   YzjOut: internal/yzjout/yzjout.go. Send has sendOnce, Reflow reflowToMax, Collapse
--     collapseRepeatedReply, Replies the texts of the replies.
--   Registry: internal/registry/registry.go. Signature: internal/signature/signature.go.
-- The modules named Examples apply the theorems to concrete states.
--
-- Bounds and choices. A text is a list of Unicode scalar values; ToLower and EqualFold are exact where
-- the result is compared with an ASCII text, and keep the case of other letters. Counters of 64 bits
-- are unbounded. A map is a function, and the order in which Go ranges over one is an argument. A
-- method under a mutex is one step. Contexts are numbers. The clock, random ids, the file system and
-- the servers are arguments. The loop of gather runs on the page budget of the source, the tries of
-- sendOnce on its three tries, the loop of collapseRepeatedReply on the length of the text, which is
-- enough since each round shortens it.
--
-- A call of Handle, and what runJob does with one answer of the orchestrator, is one step of the
-- dispatcher, though the source holds no mutex around it; the order of the steps is any. The cooldown
-- that all watchers share stands in the state of a watcher. A range over a map has one order for all the
-- mentions in a message. Numbers in JSON are exact.
--
-- The loop of runJob has a turn for each answer, and the regular expressions are searches whose fuel is
-- the number of characters, each match being longer than nothing.
--
-- What is not modelled: the engines, the network front ends, the reading of YAML and JSON, the timers,
-- and the wiring in internal/runtime are input, output or calls of libraries. Nor are the decoding of
-- the messages of each channel (Normalize), the engine that makes profiles out of turns, the skills and
-- the splitting of long messages (SplitMessage).
mod Prelude
pub mod Jobs
pub mod RunLock
pub mod Dedupe
pub mod LogBuf
pub mod Signature
pub mod YzjCli
pub mod Memory
pub mod ChatStore
pub mod YzjOut
pub mod Registry
pub mod Sessions
pub mod Json
pub mod Bots
pub mod Commands
pub mod Orchestrator
pub mod Inbound
