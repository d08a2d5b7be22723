-- ===== src/Lib.antt =====
-- A model of the turnstile-appcheck-gateway service, a gateway in Go that exchanges a Cloudflare
-- Turnstile token for a Firebase App Check token, answers Traefik's forwardAuth with the check of such
-- a token, and keeps an audit trail of both, which administrators read.
--
-- A request passes the middleware and then a handler. Both are functions from a request and the calls
-- made so far to the calls made when they return, the latest first: calls of gin's context, of the
-- recorder and of the upstream services. Handlers give their events to a recorder; the recorder asks
-- the policy what to store and what to count, and writes batches to a repository; the admin API reads
-- the repository page by page.
--
-- Prelude, Dict, Float: numbers, lists, association lists for Go's maps, and the values of float64
--   as integers over 2 ^ 1074, with their comparisons.
-- Prelude.Results: results of functions that return an error, and postconditions on them.
-- GoStrings: Go's package `strings`, on texts whose characters are bytes. ToLower, ToUpper and
--   EqualFold are those of ASCII: other bytes are left alone.
-- Http: requests, headers, the calls of a handler, and what is relied on of gin, as a record of
--   operations and laws.
-- Audit.Event (internal/audit/event.go): PrepareEvent, SafeMetadata, NewMetricRollup. Times are
--   nanoseconds since Go's zero time; the clock and the random id are arguments.
-- Audit.Policy (internal/audit/policy.go): Decide and the configuration; the number that the random
--   source would return next is an argument.
-- Audit.Recorder (internal/audit/recorder.go): the flush of a batch with its retries; Sync is the
--   synchronous recorder; Async is the asynchronous one, with its channel, the producers on their way
--   into it, the writer's batch and the store, changed by one action at a time. A producer's test of
--   `closed` and its two selects are actions of their own, and any producer may take the next one.
--   Every order of the actions is allowed, so a theorem on all lists of actions is one on all
--   schedules. The attempts of a flush are counted down from RetryMaxAttempts, which the normalised
--   configuration makes positive. Async.Log puts a log of the batches for which it returned nil
--   beside any repository; Stored is the repository of Store.Tables, where each transaction has
--   the outcome that a function of its number gives, and the clock is read anew for each attempt.
-- Handlers (internal/handlers, internal/errors): the exchange and verify endpoints. The JSON decoder,
--   the parsers of addresses, Turnstile, Firebase and the verifier of tokens are parameters.
-- Middleware (internal/middleware): the rate limiter, whose state is threaded through its calls, and
--   CORS for the exchange endpoint.
-- Admin (internal/admin): who may use the admin API (Auth), the handlers of the audit trail (Api),
--   the filters they read (Query), the links to the build (Links), the identity (Me), and the metrics
--   with what becomes of a panic (Metrics; internal/middleware/recovery.go). Through the handlers of
--   the audit trail the store is threaded. How a time is displayed is left out.
-- Store (internal/audit/storage/bunrepo/repository.go, internal/audit/cursor.go): List with its
--   filter and cursors. The database is a parameter that answers queries by its rows, in the order
--   that the query asks for. The traversal of the pages has fuel: more than the rows it is to read.
--   Rollups are the counts of a batch, merged before they are written; the format of their times is a
--   parameter.
-- Store.Metrics (the same file, and TimeBucketExpr of dialect.go): Summary and Metrics. The loop over
--   the buckets has fuel, the end of the window and one step more: each bucket is at least a second.
--   Times before 1970 are outside the model.
-- Store.Tables (the same file): the two tables, what the statements of SQL write into them, and the
--   transactions, which commit, fail, or commit without an acknowledgement, as the database chooses.
--   A statement of PostgreSQL that would update a rollup twice fails; the other dialects take it.
-- Clients (internal/turnstile/client.go, internal/firebaseappcheck): the clients of Siteverify and of
--   Firebase. The HTTP client, the signer, the source of access tokens and the readers of JSON and of
--   tokens are parameters; milliseconds are taken to fit in 64 bits.
-- Config (internal/config/config.go): loadFromMap, from the environment to the configuration, with its
--   parsers, defaults and checks; Config.Paths has path.Clean. Go's parsers of durations, floats, URLs
--   and base64 are parameters.
-- Main (cmd/turnstile-appcheck-gateway/main.go): what the configuration is made into, the loop of the
--   pruner, and the calls at the end of the process.
-- E2e (internal/e2e/mock.go): the upstream services of the end-to-end tests.
-- Httpserver(/Rooted) (internal/httpserver/path.go): the paths of the routes. Router
--   (internal/httpserver/server.go, Register of internal/admin and internal/adminui): the routes, each
--   with its middleware; how gin joins paths is a parameter. Served: a request passes the middleware of
--   the route that gin chose for it, one after the other, until one of them does not call Next.
-- Tests: the theorems at concrete requests, events and schedules.
--
-- Not modelled: SQL texts, migrations and connections, logging, contexts that only bound how long a
-- caller waits, the keys of the service account, which libraries read, and the front end.
pub mod Prelude
pub mod GoStrings
pub mod Clients
pub mod Config
pub mod Dict
pub mod Float
pub mod Http
pub mod Admin
pub mod Audit
pub mod Handlers
pub mod E2e
pub mod Httpserver
pub mod Main
pub mod Middleware
pub mod Store
pub mod Tests
