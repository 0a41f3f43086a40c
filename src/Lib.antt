-- ===== src/Lib.antt =====
-- A verification library for LINK-SUFFIX: the Script Fleet that delivers final URL suffixes to Google Ads
-- campaigns.
--
-- The program. A capture run ends with a suffix. The Fleet store (web/lib/script-bridge-store.ts, on
-- PostgreSQL) saves it as a capture of a campaign target and queues a delivery job. Scripts that run in
-- Google Ads poll as the workers of a shard: they lease jobs, set the suffix, read it back and report; the
-- store settles each job by the evidence in the report. Shards are registered, bound to one manager account
-- (MCC), authenticated by a token and deleted. The gate of packages/contracts/src/captureSafety.ts decides
-- which suffixes may be delivered at all, and is asked by the store at each stage.
--
-- Captures run in browsers behind proxies. A proxy endpoint is leased to one campaign at a time under a fencing
-- token (web/server), local tunnels to proxies are started, shared and stopped under a limit (web/lib), and
-- journeys share browsers but never a proxy route (packages/tiers/human-sim). URLs that callers name are
-- checked before the server opens them, and work on shared files or rows is done under a lock.
--
-- The files.
--   Base          names passed on, Boolean tests, lists measured by native numbers, sorting, texts.
--   Capture.Suffix
--                 packages/contracts/src/captureSafety.ts: `deliverySuffixIssue`.
--   Capture.Outcome
--                 packages/proxy/src/transportFailure.ts, packages/orchestrator/src/attemptOutcome.ts and
--                 continuousCadence.ts.
--   Bridge        the rows of the tables, the settings, and the clauses that queries share; a Store is the
--                 whole database, and an operation is a function from a store and the instant `now()` to
--                 a new store and an answer, or to an error.
--   Bridge.Prepare, Bridge.Candidates, Bridge.Lease
--                 the three parts of `leaseBridgeJobs`.
--   Bridge.Ack, Bridge.Renew, Bridge.Enqueue
--                 `acknowledgeBridgeJob`, `renewBridgeLeases`, and the transactions of
--                 `enqueueBridgeCapture`, `queueLatestBridgeCapture` and of a pause.
--   Bridge.Names  web/lib/fleet-shard-config.ts.
--   Bridge.Shards, Bridge.Targets
--                 `registerBridgeShard`, `deleteBridgeShard`, `authenticateBridgeShard`,
--                 `completeBridgeInvocation`, and what resumes or deletes a target.
--   Bridge.Rooms, Bridge.Assign
--                 `upsertBridgeTarget`: the search for a shard with room, and the enrolment.
--   Bridge.Window, Bridge.Manifest
--                 `adaptiveExecutionWindow`; `bridgeShardManifest`, `bridgeActiveExecutionWindow`,
--                 `bridgeTargetReadiness`.
--   Bridge.Invariant, Bridge.History
--                 the invariant of the job table, and histories of transactions in any order.
--   Pacing.Backoff, Pacing.RedirectCache
--                 packages/orchestrator/src/captureBackoff.ts and redirectFallbackCache.ts.
--   Pacing.RateLimit
--                 web/lib/rate-limit.ts.
--   Verdict       packages/verdict/src/aggregate.ts.
--   Health        web/lib/fleet-health.ts.
--   Proxy.Leases, Proxy.Locks, Proxy.Coordinator
--                 web/server/proxy-lease-coordinator.mjs: `reserve`, `renew`, `release` and `reapExpired` of the
--                 repository in memory, the locks in memory, and the coordinator that takes both. Each call
--                 of a store is one step; a call of the coordinator runs to its end at one instant.
--   Proxy.Sessions
--                 web/lib/proxy-session-manager.ts: starts, stops, assignments and clean-ups of tunnels. A start is
--                 three steps (begin_start, place_start, tunnel_ready or tunnel_failed), as its awaits split it;
--                 the search for a port is one step, during which the system's answers do not change.
--   Proxy.BrowserPool
--                 packages/tiers/human-sim/src/browserPool.ts: acquireBrowserLease in two steps (begin_lease,
--                 finish_lease), the release of a lease, the loss of a browser, closeBrowserPool.
--   Proxy.Circuit, Proxy.Admission
--                 the circuits of web/server/proxy-runtime-service.mjs, and
--                 web/server/campaign-proxy-admission.mjs.
--   Proxy.Runtime, Proxy.Runtime.Keys, Proxy.Runtime.Reported
--                 web/server/proxy-runtime-service.mjs and proxy-setup-core.mjs: `resolve`, `renew`, `release`
--                 and `report` over the coordinator of Proxy.Coordinator and a list of circuits. A call runs to its
--                 end at one instant; whether the proxy of a lease can be built (its port, secret and URL) is
--                 the argument `built`.
--   Proxy.Selection
--                 web/server/campaign-proxy-selection.mjs: the settling is four steps (draft_done, assign_done,
--                 settled_done, failure_done), one for each of its waits.
--   Capture.Addresses, Capture.Origins, Capture.Policy
--                 packages/contracts/src/redirectCapture.ts.
--   Capture.Query, Capture.Landing, Capture.Edge, Capture.Closed, Capture.Confirmed, Capture.Evidence
--                 packages/contracts/src/captureSafety.ts: `evaluateCaptureResult` and its parts.
--   Network, Redirects
--                 packages/proxy/src/network.ts, packages/tiers/trivial-http/src/redirectResolver.ts.
--   Control.Workers
--                 web/server/orchestrator-worker-pool.mjs.
--   Alerts        web/lib/health-alert-store.ts.
--   CrossLock     web/lib/cross-process-lock.ts: the database lock, the loop on the lock file, and the call of both.
--   Outbound      web/lib/url-security.ts: Addresses has `isBlockedAddress`, the parent the policy on hosts and
--                 `assertSafeOutboundUrl`.
--   Examples      a small fleet, and each theorem applied to it.
--
-- How the code is modelled. A table is a list of rows, an UPDATE a map, an INSERT a new head of the list, a
-- foreign key with ON DELETE CASCADE a filter. Transactions are atomic and run one after the other, as their
-- row and advisory locks make them; no row is skipped by SKIP LOCKED. Instants and durations are
-- milliseconds as natural numbers. SHA-256, `URLSearchParams`, the database's text order and the numeric
-- settings are fields of the record Env; random identifiers and tokens are arguments. A unique constraint
-- that is violated is an error.
--
-- Settings and bounds. MAX_ATTEMPTS, LEASE_MS and MIN_INTERVAL_MS are read from Env with the source's
-- defaults and floors, SHARD_CAPACITY is 40, a lease call gives out at most 200 jobs. Loops are structural
-- recursion on lists; the eviction loop of the redirect cache and the digits of a number run on fuel, which
-- is the number of entries and the number itself; the search for a port makes one attempt for each port of the
-- range; the loop on a lock file runs over the answers that the file system is said to give; the loop of the redirect
-- resolver runs over the hops that are allowed and one, as its bound in the source says.
--
-- Objects that the server keeps in a `Map` are lists of entries, in the order of insertion, with one entry to a
-- key. Asynchronous calls are cut where they wait, and the pieces are steps that others may come between, but
-- for a call of the coordinator of leases or of the proxy runtime, which runs alone.
--
-- Not modelled: settings and limits that are not natural numbers, child processes and sockets, the stores of
-- leases in PostgreSQL and Redis, the queue of the calls of one process for a lock, the overflow of POWER(2, attempts)::int,
-- the normalisation of an egress identity (a text here), `updated_at` where nothing reads it, the health
-- tables that a deletion of a shard also clears, and the listings for the dashboard. The 35 percent of a
-- window are floating-point arithmetic, and a parameter. Characters are code points where the source counts
-- UTF-16 units.
pub mod Alerts
pub mod Base
pub mod Bridge
pub mod Capture
pub mod Control
pub mod CrossLock
pub mod Examples
pub mod Health
pub mod Network
pub mod Outbound
pub mod Pacing
pub mod Proxy
pub mod Redirects
pub mod Verdict
