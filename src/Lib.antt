-- ===== src/Lib.antt =====
-- NimbusRun: a self-hosted platform that runs functions in containers.
--
-- An API server takes invocations. `internal/invocation` looks up the function and its active version
-- in the database, writes a row for the invocation and puts a job on a Redis stream; idempotency keys
-- and their locks live in Redis (`internal/idempotency`). The scheduler (`internal/scheduler`) takes in
-- the workers' heartbeats, takes jobs from the stream and hands each to the healthy worker of least load,
-- on a stream of that worker. A worker (`internal/worker`) reads jobs, runs each in a Docker container
-- and publishes the result, which `ProcessResult` settles: success, a retry after a backoff
-- (`internal/retry`), or the dead-letter queue.
--
-- Files. Prelude holds what all share: tests, Go's (value, error) actions on a state (Exec), the
-- integers with int64, association lists for Go maps, membership. Platform holds what is not in the
-- repository, as records of operations with records of laws: Redis, Postgres (statements and queries
-- are data), Docker, float64, JSON codecs, UUIDs, gin, Prometheus. Viper, zap, bcrypt and the file
-- system stand beside the modules that use them. Then, for each part of the program:
--   Models        internal/models
--   Queue         internal/queue: Types and Heartbeat (types.go), Stream (redis.go)
--   Scheduler     internal/scheduler: Store (heartbeat_store.go), Scheduler itself (scheduler.go)
--   Isolation     internal/isolation/limits.go
--   Idempotency   internal/idempotency
--   Retry         internal/retry: Backoff, and Dlq (retrier.go)
--   Repository    internal/repository: Functions, Versions, Invocations, and Rows for what they share
--   Env           the libraries and the state that one server process uses
--   Invocation    internal/invocation: Invoke is `invoke`, cut into `submit_locked`, `submit`, `resolve`
--                 and `send`; ProcessResult is `process_result`, cut into its three outcomes
--   Worker        internal/worker: Runner (container.go), Service (service.go)
--   Auth          internal/auth/auth.go: the tokens, and Keys for passwords and API keys
--   Http          internal/http: Middleware, Functions, Invocations and Accounts (the handlers), Routes
--                 (server.go): `serve` is the answer to one request
--   Observability internal/observability: the metrics, and Log (logger.go)
--   Build         internal/build/docker.go
--   Config        internal/config/config.go
--   Database      internal/db
--   Programs      cmd/api-gateway, cmd/scheduler and cmd/worker, up to where each waits
--   System        the scheduler and the workers after that, with the invocation service: a relation `Step`
--                 whose steps are the rounds of their loops, its calls and its timers, in any order, over one
--                 Redis
--   Cli           cmd/cli/main.go: the commands, and Commands for their table
-- The other modules under each of these hold proofs, and are named for what they prove. Examples has
-- servers in memory that keep the laws, and each property at a concrete input.
--
-- A Go method is a function of the same name, from its arguments and the state to a result and the
-- state. A Redis or database call may fail at any time, and nothing is assumed of the state that it
-- leaves then, except where a law says so. Loops are recursion on the list they walk; nothing needs
-- fuel. The order in which Go walks a map is a parameter, as are the time, the random draw of the jitter
-- and the time a container takes. A polling loop is recursion on the
-- events that its select yields, each with what others have done to the shared state meanwhile; System
-- leaves the loops away and lets their rounds alternate in any order. Each call that holds a mutex is one
-- step.
--
-- The gateway (`internal/http`) has handlers of its own for the same tables, and works without Redis;
-- no program of cmd builds the invocation service, whose calls stand in System as those of a client. A
-- handler replies on every branch; a panic is an error that `serve` turns into gin's reply.
--
-- Not modelled: the signals that end the programs, the goroutine in which the gateway listens, the
-- endpoint of the metrics (input and output only), cobra's reading of a command line, and what runs inside
-- a container. Keys do not expire by themselves, save the lock in
-- Idempotency/Exclusion.antt; the idle time of pending messages and the trimming of
-- streams, which no program does, are left out. Messages of formatted errors leave out the numbers they
-- show.
pub mod Prelude
pub mod Platform
pub mod Models
pub mod Queue
pub mod Retry
pub mod Isolation
pub mod Idempotency
pub mod Scheduler
pub mod Repository
pub mod Env
pub mod Invocation
pub mod Worker
pub mod Examples
pub mod Auth
pub mod Build
pub mod Config
pub mod Programs
pub mod System
pub mod Database
pub mod Http
pub mod Cli
pub mod Observability
