-- ===== src/Lib.antt =====
-- agentcall: a relay that lets the agents of an organization call each other, end-to-end encrypted,
-- and the installations that answer and make the calls.
--
-- The relay (apps/relay/src) keeps one durable object for each handle, its mailbox. A caller's
-- socket sends one encrypted frame; the mailbox lets it ring at the connected listener or, for a
-- durable call, stores it, leases it to a listener when none is active, and ends it by an outcome, a
-- cancellation, a revocation, a lapse of leases or a deadline. Every end gives back the quota that
-- the admission took and leaves an audit event in an outbox that is drained to the database.
-- An installation (packages/cli/src) decides whom it answers, refuses replayed requests, executes a
-- durable call at most once, pins the keys of its peers and resumes conversations.
--
-- Relay/Lifecycle   call-lifecycle.ts: the reducer of a call's phases and ends.
-- Relay/Task        task-store.ts: the persisted record of a call.
-- Relay/Listing     task-store.ts: toA2ATask and the pages of listCallerTasks, with its cursors.
-- Relay/Store       do.ts: the storage of a mailbox, a field for each family of keys; an index key
--                   of padded time and id is the pair, listed in the order of the storage.
-- Relay/Audit       do.ts: callAuditIntent, auditOutboxKey, armAuditRetry.
-- Relay/Window      call-rate-limit.ts: the callers' windows and the bounded sweep.
-- Relay/Mailbox     do.ts, class HandleDO; the children model
--   Admit           admitDurableTask and persistTaskWithAudit,
--   Settle          the transactions of cancelTask and revokeDurableTask, recoverExpiredLease and
--                   expireTask,
--   Dispatch        dispatchNext, durableAuthorityIsCurrent and finishDurableTask,
--   Frames, Handler the listener's side of webSocketMessage, advanceCall, validDurableLease
--                   and alarm,
--   Flush           flushAuditOutbox and scheduleNextAlarm,
--   Caller          the caller's side of webSocketMessage,
--   and the others hold proofs, named for what they prove; Quota for the counters.
-- Cli/Journal, Cli/Replay, Cli/Access, Cli/Peers, Cli/Contexts, Cli/Outbound
--                   execution-journal.ts, replay-store.ts, access.ts with policy.ts, known-peers.ts,
--                   contexts.ts and outbound-jobs.ts: the stores as lists of parsed records, each
--                   operation as one function, since each runs under a lock of its file.
-- Cli/Guard         guard.ts, scope.ts and path-canon.ts: the decision on each tool call of the
--                   answering agent and the hook around it; Paths holds what they use of node:path,
--                   Scope, Decide and Run the code, and the others the proofs.
-- Cli/Sealing       e2ee.ts: sealing and opening with every check.
-- Cli/Listener      listener-stages.ts: the opening of an inbound envelope, which composes Peers,
--                   Sealing and Replay; Admission has the later stages and abuse-signals.ts, and
--                   Queue is queue.ts.
-- Shared            packages/shared/src: Canonical is canonical.ts, Envelope the payloads and the
--                   transcripts of e2ee.ts, Utf8 what TextEncoder does.
-- Base              names, Boolean tests, lists and key-value families that the parts share.
-- Examples          a concrete run for each result.
--
-- A time is a natural number of milliseconds; where the source subtracts times, a difference below
-- zero passes the same tests as zero. The clock, random ids, the rows of the database and whether it
-- takes a batch, digests, signature checks, HPKE and the length of an envelope's text are arguments, and
-- so are realpath, the lower case of a text and the logs of the tool guard. A path that was resolved is
-- the list of its segments; texts are sequences of Unicode scalar values
-- (a string with lone surrogates is a value of its own in Shared/Canonical).
-- A handler of the mailbox is one function of the storage; Quota/Steps also lets its transactions
-- run apart, between any other steps. What dispatchNext and a flush that runs
-- apart let happen while the database answers is an argument, any function of the storage; in Quota/Steps it makes any steps. dispatchNext calls itself
-- after a revocation, which is recursion on fuel, one more than the number of stored calls: enough
-- when no call is stored during the waits. The sweep's loop has four pages.
--
-- Not modelled: connection set-up and the credential floors of fetch, the live path of cancelTask,
-- the parse of a listing's query, HTTP routes over the database, the formats that zod checks field by field,
-- cryptography itself, the directories that scope.ts asks the file system for, the run of an agent, and
-- the command line.
pub mod Base
pub mod Relay
pub mod Cli
pub mod Shared
pub mod Examples
