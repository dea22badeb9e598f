-- ===== src/Lib.antt =====
-- Vahan360: the decisions of its Nest API, of its ingest worker and browser pool, and of its
-- scraper's selector registry.
--
-- The program reads transport data that workers scrape into PostgreSQL. A request passes three
-- guards (who is asking, for which tenant, with which role), then a service answers it from
-- Prisma tables, scoped to the tenant. The worker runs the jobs of the master, child and retry
-- queues, records their failures, and takes browsers from a pool within a quota for each
-- tenant. Failed jobs are listed by the API and put back on their queues. The scraper checks
-- the selectors of a portal's page before it uses them.
--
-- Where each part is:
-- - Prelude: shared names, Boolean tests on native numbers, lists, texts and integers.
-- - Js: what JavaScript gives the code: strings (trim, split), JSON values, String(v), the
--   length of JSON text in bytes, and the casing of Unicode, which is a parameter.
-- - Env, Prisma: `process.env` as a function, filters of queries with their reading.
-- - Contracts: packages/contracts/src (scrape-job.ts, ingest-child-job-type.ts,
--   ingest-bull-queues.ts).
-- - Tenant: apps/api-nest/src/ingest-tenant-scope.ts. The filters (`failedJobTenantWhere` and
--   the others) are trees of tests, run by `matches`.
-- - FailedJob: apps/api-nest/src/failed-job.service.ts (`list`, `getById`).
-- - Replay: apps/api-nest/src/failed-job-replay.service.ts. Redact has `stripSensitiveDeep`,
--   Accept the checks of a row, Job the data and the id of the job, Service the state of
--   `FailedJobReplayService` and `replay`, whose result has the jobs that BullMQ was asked for
--   and the audit entries.
-- - Auth: apps/api-nest/src/auth. Settings has auth-env.ts, jwt-secret.ts and
--   tenant.constants.ts, Roles rbac.permissions.ts, Token auth.utils.ts, Service
--   auth.service.ts, Guards the three guards in the order of app.module.ts and
--   tenant-id.decorator.ts.
-- - Vehicle: apps/api-nest/src/vehicle.service.ts and vehicle-cache.ts. Risk has the weighted
--   assessment, Cache and Summary the cached summary and the risk answer, Timeline the
--   timeline.
-- - Selector: packages/scraper-core/src/selectorRegistry.ts and types.ts. Registry has
--   `parseRegistry` and `getSelectorRegistry`, Validate has `validateRequiredSelectors`.
--
-- - BullMq: the requests to add a job, what they result in (the job is added, or ignored since
--   one with its id is there, or refused), and BullMQ's rule for ids.
-- - Worker: apps/worker-ingest/src/index.js. Settings has what it reads of the environment,
--   Data what it reads and writes in job data, Store the rows, events and queues with the monad
--   of its calls, Process `processMasterJob` and `processChildJob`, Retry `processRetryJob`,
--   Failure the `failed` handlers, the dead letter queue and `persistSystemFailedJob`.
--   Process/Runs walks once through each processor for every relation that its calls satisfy.
-- - Worker/Quota: apps/worker-ingest/src/lib/tenantQuota.js, `withQuota` as steps between
--   awaits; callers who were woken run in any order.
-- - Worker/Startup: how `main` of the worker sets its processors up.
-- - Worker/Health: apps/worker-ingest/src/lib/selectorHealthMonitor.js, for one portal.
-- - Pool: packages/browser-pool/src/index.js, one engine as steps between awaits.
--
-- The worker meets the API in two places: the rows of `system.failed_jobs` that Failure writes
-- are those that Replay reads (Failure/Replayed), and both add jobs to the same queues
-- (BullMq).
--
-- State is passed explicitly: the replay service, the Redis of the cache and the registry cache
-- are arguments and results. Exceptions are values of an error type for each component; an
-- action of the worker keeps the store that it had when it threw. What runs between two awaits
-- is one step of the quota and of the pool, and any order of steps is allowed.
--
-- Parameters: Prisma's tables, BullMQ, Redis, JSON's text in the cache, the verification of
-- tokens, `decodeURIComponent`, the reading of numbers (`Number(text)` by floor and fraction),
-- YAML, files, the clock, and the resolver that looks at a page, the run of the smoke test in a
-- browser, `persistIngestArtifacts`, and which call of the worker throws. What a theorem relies
-- on is a named hypothesis (IsSound, IsRedis, IsCodec, HasCase, RefusesColons).
--
-- Bounds: numbers of JSON are integers below 10 ^ 21 in size where they are printed, so 21
-- digits are enough fuel for their text. All other recursion is structural.
--
-- A number in a text that is no integer is known by its floor and as no integer: job data and
-- settings use its floor, as the code does, and the version of a token is then never that of a
-- row, whose `token_version` is an integer. No object of a payload has a key `__proto__`. Events
-- of the worker are known by job, level and type, without their payload for display.
--
-- How often a job comes back to the retry queue is counted from copy to copy on the dead letter
-- queue, which an operator puts on the retry queue. The replays by the APIs are other ways for a
-- job to run again; that of the Nest API starts the count at 0.
--
-- Not modelled: controllers and modules (glue), the browser, the web pages, the list and export
-- services, the Express API, and of the worker the artifacts that it persists, its metrics,
-- heartbeat, backoff sleep and tracing; of the pool its shutdown, its statistics and the map of
-- engines by key. A client that is made on first use is the table or the Redis that is given.
-- The time to live of a cached value is passed on, but values do not expire in the model: a
-- cached summary is as old as its entry.
pub mod Prelude
pub mod Js
pub mod Env
pub mod Prisma
pub mod BullMq
pub mod Contracts
pub mod Tenant
pub mod FailedJob
pub mod Auth
pub mod Replay
pub mod Vehicle
pub mod Worker
pub mod Pool
pub mod Selector
