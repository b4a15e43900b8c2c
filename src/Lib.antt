-- ===== src/Lib.antt =====
-- AgentPod: an agent server, the sandbox workers that run its commands, and a manager between them.
--
-- A request of a client comes to the server (src/http), which limits how often it may come, asks
-- whether the user has tokens left (src/telemetry), and starts a run of the agent (src/agent). What
-- the run says is kept in a registry, so that a client that lost its connection can take the stream
-- up again, and the session's file (src/sessions) gives it all anew. What an agent makes can be
-- shared by a link (src/artifacts). The commands of a run go to a sandbox: the
-- server takes a lease on a worker (sandbox-worker), which has a fixed pool of slots, and between
-- two turns of a session it parks the lease and keeps the handle (src/sandbox). The worker lets in
-- who has a ticket of the manager, and runs the commands of a lease as jobs that outlive a
-- connection. Jobs that come by the clock are planned by src/cron.
--
-- The modules and the code:
--   RateLimit          src/http/rate-limit.js: Limiter has consume, peek, reset and sweep
--   Agent.Budget       src/agent/run-service.js: acquire, release, abort, snapshot
--   Agent.Service      src/agent/run-service.js: execute, compact, attach, listRuns
--   Agent.Skills       src/agent/run-service.js and skills.js: mergeSkills, applyDisabled
--   Agent.Runs         src/agent/run-registry.js: open (`start`), append, subscribe, close, listFor
--   Sandbox.Sticky     src/sandbox/sticky.js: claim, keep, drop, forget
--   Worker.Slots       sandbox-worker/src/namespace/slot-pool.js: init, acquire, release, applyPolicy
--   Worker.Lease       sandbox-worker/src/leases.js, what is done to one lease
--   Worker.Leases      sandbox-worker/src/leases.js, what is done to the map and the pool
--   Worker.Execs       sandbox-worker/src/exec-jobs.js: start, subscribe, abort, the end of a command
--   Worker.Ticket      sandbox-worker/src/manager/ticket.js: verifyTicket, ticketScope, the guard
--   Worker.Authorize   sandbox-worker/src/server.js: authorizeLeaseCreate, authorizeAdmin
--   Worker.Egress      sandbox-worker/src/namespace/netns.js: the targets, screenEgressRequest; Chain
--                      has buildEgressPlan, Policy has sandbox-worker/src/egress-policy.js
--   Sessions.Page      src/persistence/page.js: normalizeLimit, finishPage
--   Sessions.Listing   src/sessions/store.js and cursor.js: list, cursorClause
--   Sessions.Transcript  src/sessions/transcript.js: parseTranscript, attachTurnStats; with
--                      describeStop of src/stop-reason.js
--   Agent.Preview      src/agent/events.js: toolResultPreview
--   Cron.Fields        src/cron/schedule.js: parseField, parseCron
--   Cron.Schedule      src/cron/schedule.js: utcFromWall, matchesDay, nextFireAfter
--   Cron.Plan          src/cron/schedule.js: normalizeSchedule, advanceNextFireAt, recoverNextFireAt
--   Cron.Store         src/cron/store.js: claimSlot, unclaimSlot, recordFire, due; Edits has create,
--                      list and update
--   Cron.Scheduler     src/cron/scheduler.js: tick, fire, disableIfHopeless, runNow
--   Artifacts.Shares   src/artifacts/shares.js: create, setMarket, revoke, resolve, countView,
--                      listMarket; with setShare and the removal of src/artifacts/store.js
--   Telemetry.Quota    src/telemetry/quota.js: check, assert
--   Base               what they share: tests, lists, the language's Map (Dict) and its stable sort
--
-- How the state corresponds: a closure's variables are a record or an association list, which each
-- operation takes as its last argument and gives back; an object that the code mutates through a
-- reference is changed under its key, or at its place, in the list that holds it. The clock, random
-- ids and what a boot of a slot answers are arguments of the operations, one for each time that the
-- code reads them. Times and sizes are natural numbers: the code adds and compares them, and where it
-- takes a difference the definition says so. The code runs in one thread, so an operation without a
-- wait is one function; where leases.js waits for a slot to be destroyed, Worker.Leases.Interleaving
-- cuts its operations at the waits and lets the pieces of several calls come in any order. The calls
-- of Artifacts.Shares wait for the database; each is one step there, and Artifacts.Shares.Revoked has
-- one case in which two of them overlap. A run of Agent.Service and a park of Worker.Leases are each
-- taken with no other call in between; the run of a job in Cron.Scheduler may change the jobs.
--
-- Bounds: most loops go over lists (trim, oldestParked, the sweeps). The search of nextFireAfter runs
-- over the 366 days of the code and over lists of hours and minutes; the loop over the values of a
-- cron field runs for one round more than the difference of its ends, and its step is at least one,
-- so it reaches the end. The decimal digits of a number have its successor as fuel, and their value
-- is proved to be the number. Reading a list to its end is given a number of pages.
--
-- A text is the language's String where it is only compared, and a list of UTF-16 code units
-- (Base.Text) where its characters count.
--
-- Parameters: HMAC, base64url, JSON and the shape of a token in Worker.Ticket; the comparison of
-- static tokens in Worker.Authorize; the time zone database in Cron and Telemetry.Quota; how the
-- database compares keys in Sessions.Listing; the stores that the quota gate reads; the
-- broker, the model and the turn in Agent.Service; the vault and the run of a job in Cron.Scheduler;
-- iptables and `Number` in Worker.Egress; the JSON of a line in Sessions.Transcript; the filter of the
-- market in Artifacts.Shares.
--
-- Not modelled: namespaces, cgroups, network interfaces, processes and files of a slot, HTTP and its
-- bodies, the database, the browser, the mail, the models' APIs, logging, the web pages and the manager's
-- service in TypeScript.
mod Base
pub mod Agent
pub mod Artifacts
pub mod Cron
pub mod RateLimit
pub mod Sandbox
pub mod Sessions
pub mod Telemetry
pub mod Worker
