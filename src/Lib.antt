-- ===== src/Lib.antt =====
-- Verification of the core logic of cryptotracker, a tracker of crypto assets: an API server with a job queue and
-- rate-limited providers (api/src), an MCP server (mcp/src) and a web interface (wui/src).
--
-- The parts and the files that model them, each with the functions of the source under their names in snake case:
--
-- - Jobs: api/src/jobs/queue.ts, and the statements of api/src/services/addresses.ts and market.ts that cancel jobs.
--   The jobs table is a list of rows in the order of insertion (Jobs/Record); `enqueue` (Jobs/Enqueue), `claim`
--   (Jobs/Claim), `execute`, `fail` and the recovery (Jobs/Outcome) map the table to the table that they leave.
--   Jobs/Worker adds the worker: its counter, its flag and the executions in flight. A history is a sequence of steps
--   (Jobs/History, Jobs/Capacity), so that the endings of jobs and the writes of others interleave freely.
-- - CostBasis: api/src/domain/cost-basis.ts. The lots of FIFO and LIFO are shared objects in the source: here a list,
--   into which the candidates of a disposal point by position (CostBasis/Lots). The three maps of the average cost are
--   one map of records (CostBasis/Acb).
-- - Transfers: api/src/domain/reconciliation.ts (Transfers/Match) and api/src/services/transfers.ts (Transfers/Service).
-- - Providers: api/src/providers/rate-limiter.ts, as a circuit (Providers/Circuit), slots with waiting calls
--   (Providers/Slots) and the attempts of one call (Providers/Attempts). Its error for an open circuit is the one by which
--   `fail` of the job queue tells that a job keeps its attempts.
-- - Balances: `reconstructBalance` and `valueHoldings` of api/src/domain/addresses.ts.
-- - Market: api/src/domain/market.ts. Graphs: api/src/domain/graphs.ts. Lifecycle: api/src/domain/lifecycle.ts.
-- - Mcp: mcp/src/rate-limit.ts and mcp/src/history.ts. Dashboard: wui/src/lib/dashboard-load-queue.ts.
-- - SingleFlight: api/src/utils/single-flight.ts.
-- - Auth: api/src/auth/cidr.ts (Auth/Cidr) and api/src/auth/service.ts: its rows and settings (Auth/Records), the login
--   with its throttle and the local user (Auth/Login), the three methods of authentication in their order
--   (Auth/Authenticate) and the tests of CSRF (Auth/Csrf). An operation maps the users, sessions, audit log and login
--   failures to those that it leaves; a history of them is a sequence of steps (Auth/History), of which a login is two,
--   before and after its awaits.
-- - Retention: api/src/services/retention.ts, whose deletion of failed jobs is a step of the jobs table (Jobs/Purge).
-- - Scheduler: api/src/scheduler.ts. A cycle is the list of the calls that it makes of the services (Scheduler/Cycle).
-- - ChartValues: `chartDenominationsAt` and the lookup of a price of api/src/services/chart-values.ts, which combines
--   observations by the function of Market.
-- - SummaryCache: api/src/services/summary-cache.ts. A fill of `runFill` is cut at its awaits (SummaryCache/Fills), so that
--   the fills of all replicas, errors of Redis, changes and the expiry of keys interleave (SummaryCache/History). Two
--   fields are ghosts: `seen` of an entry and of a load, and the list of all generations that were announced.
-- - Base: shared lists, maps, sorting and the interface of decimal.js.
--
-- Conventions. Times and counts are native natural numbers. An operation takes the time that `Date.now` gives as an
-- argument, once for each operation. Random ids, jitters, locale order and `toLowerCase` are arguments too. `none` is
-- where the source throws, or null where the type says so. A statement of SQL has its documented effect; rows that an
-- ORDER BY leaves equal come in the order of the table.
--
-- Texts that are taken apart, as in Auth, are lists of the code units of the source's strings, and letters change case
-- among ASCII only; elsewhere a text is compared as a whole. In Auth the password hash, the signature of a token, the
-- verification of a JWT and node's `isIP` are parameters; a theorem on tokens names what it takes of them.
--
-- decimal.js is the record `Decimals` of its operations (Base/Decimals). The theorems on amounts take `Exact`: on the
-- non-negative multiples of one step within its precision, comparison, minimum, maximum, sum and difference are exact.
-- Nothing is assumed of quotients. Base/Whole is an instance, on which the tests run.
--
-- Loops are structural recursion, but for two on fuel. Each round of the queue's tick takes a free slot, and a theorem
-- shows that fuel for each slot is enough. Each round of the binary search for a price leaves fewer candidates, and
-- fuel for each candidate is enough.
--
-- Not modelled: the token bucket of the limiter and the promises that equal requests share; validation of addresses; the
-- cookies and the logging of the login; the timer of the scheduler; the cache of looked-up prices; the services around
-- the database, the HTTP adapters, configuration, the views.
pub mod Base
pub mod Jobs
pub mod CostBasis
pub mod Transfers
pub mod Providers
pub mod Balances
pub mod Market
pub mod Graphs
pub mod Lifecycle
pub mod Mcp
pub mod Dashboard
pub mod SingleFlight
pub mod Auth
pub mod Retention
pub mod Scheduler
pub mod ChartValues
pub mod SummaryCache
