-- ===== src/Lib.antt =====
-- mcpdrill: a load tester for MCP servers, with a control plane that runs tests and workers that
-- drive virtual users. This development models the core of the control plane, with the stop
-- conditions, the rate limiter and the store of telemetry of its API and the checks of targets, and of
-- the workers the queue and the shipping of the telemetry, the sessions, the limits of the virtual
-- users, the retries, the decoder of event streams and the choice of operations, and proves what makes
-- them correct.
--
-- The parts and how they interact. The checks of a configuration decide which targets a run may have.
-- The registry keeps the workers; the allocator splits the virtual users of a stage among them; the
-- lease manager grants each worker its range for a term; the heartbeat monitor drops the workers that
-- fall silent, ends their leases, and tells the run manager, which keeps the state of each run, logs
-- its events, and takes it through its stages to a report. An evaluator reads the telemetry of a
-- stage, and its trigger stops the run. The workers learn from the queries of the run manager which
-- runs to stop. They draw sessions with the server in one of four modes, bound the rate and the
-- number of their calls, queue the records of what they did, drop the less important ones when the
-- queue is full, and ship the records of each run in batches. They reach the control plane through a
-- client that retries; its API bounds the rate of each client, and stores the telemetry of each run,
-- up to a limit of runs and of records.
--
-- Which file models which part:
--   Prelude            shared names, lists, strings (lists of bytes), Go maps (association lists),
--                      signed integers, hexadecimal printing
--   Scheduler/Types, Leases, Registry, Allocator, Heartbeat
--                      internal/controlplane/scheduler: types.go, lease_manager.go, registry.go,
--                      allocator.go, heartbeat_detector.go and heartbeat_monitor.go
--   StopConditions     internal/controlplane/stopconditions/evaluator.go
--   Api/RateLimit      internal/controlplane/api/ratelimit.go
--   Api/Store          internal/controlplane/api/telemetry_store.go: the store of telemetry
--   Telemetry/Queue    internal/telemetry/queue.go and its types in types.go
--   Session/Types      internal/session/types.go and evictSession of eviction.go
--   Session/Pool       internal/session/pool.go
--   Session/Modes      internal/session/modes.go, manager.go and the timers of eviction.go, with the
--                      negotiation of versions of internal/mcp/protocol.go
--   Transport/Sse      internal/transport/sse_decoder.go: ReadEvent
--   Worker/Retry       internal/worker/retry_client.go: Do
--   Worker/Shipper     internal/worker/telemetry_shipper.go
--   Vu/Limits          internal/vu/rate_limiter.go
--   Vu/Sampler         internal/vu/operation_sampler.go: the sampler of operations
--   Validation/Ssrf    internal/validation/ssrf_validator.go: the targets that a run may have
--   Validation/Policy  internal/validation/policy_merge.go: the intersection of allowlists
--   Runs/States        internal/controlplane/runmanager/types.go and state_machine.go
--   Runs/EventLog      internal/controlplane/runmanager/event_log.go
--   Runs/Manager, Stop, Progress, Loss
--                      internal/controlplane/runmanager: manager.go, stages.go, analysis.go and
--                      worker_failure.go, each method under the name it has there, in snake_case
--   Runs/Queries       queries.go of the run manager
--   Runs/Ramp          startAutoRamp of stages.go
--   Runs/History       calls of the run manager in any order, and where they lead a run
-- The children of a module prove things of it. The modules named Examples run them at concrete inputs.
--
-- How the code is modelled. A struct is a record, a method is a function from the state to the
-- state and the result, and an error is a constructor. What a method does while it holds its lock
-- is one function; a method that takes the lock several times is several, so a history of calls
-- stands for an interleaving of such holds. A round of the heartbeat monitor is one function with
-- pauses, in which the calls of other goroutines, and those of its own callback, are arguments. The
-- eviction of a session of the pool, with its callback, is one step; a method that swaps the flag
-- `closed` before it takes its lock, such as Close of a mode, is one step too. The sessions that several maps of a mode refer to stand
-- on a heap. Clock readings are arguments, and so is what a caller hears from the other side: the
-- answers of the HTTP client, of the timers and of the connection. Go's int and int64 are
-- unbounded numbers: counts and times do not come near 2 ^ 63, and the sum of a cursor and a limit
-- of a page is assumed not to either. Where the code may see a negative number the argument is an
-- integer. A float is a scaled number, or a fraction with its denominator, and is exact: the rounding
-- of floats is not modelled. Nothing needs fuel: each loop is a recursion on a list, or on the rounds
-- that are left, and so every function is total.
--
-- What is not modelled. JSON, hashes, the parsing of addresses, the validator and the sort of the
-- logs, which leaves the order of equal times open, are arguments of the functions that use them.
-- Timers, contexts and channels are flags that say whether they are there; the analysis of a run, the
-- HTTP and MCP clients and servers, authentication, metrics and plugins are left out, and so are the
-- rest of the transports and of the validation and the engine of the virtual users. The state of a
-- lock, and the reads of the flag `closed` that the scheduler makes before it takes one, are not
-- modelled.
pub mod Api
pub mod Prelude
pub mod Runs
pub mod Scheduler
pub mod Session
pub mod StopConditions
pub mod Telemetry
pub mod Transport
pub mod Validation
pub mod Vu
pub mod Worker
