-- ===== src/Lib.antt =====
-- FreeLlama: a verification library of the gateway that schedules local
-- inference over Ollama.
--
-- The program. The managed plane of the gateway
-- (packages/rust-core/src/platform) routes a task to a model and a backend,
-- admits it to the pool of its backend, waits for host resources, calls the
-- backend behind a circuit breaker and watches its output for repetition; a
-- deferred task lives in a registry of jobs, a session keeps the affinity of
-- a conversation to a model, a scope keeps the messages of one, and an adaptive
-- limiter moves the limit of a pool with the rates that its completions report. What a
-- model needs in memory is learned from measurements, a plan of unloads makes room
-- for it, and a ledger keeps what each task used. The raw proxy
-- (packages/rust-core/src/proxy) forwards Ollama requests behind a smaller
-- admission state and a retry loop. Both quote the same Retry-After estimate.
--
-- Files and the code they model, from the repository's root; src/ is short for
-- packages/rust-core/src/:
--   Task             src/platform/routing.rs: TaskKind, TaskPriority
--   Capability, Routing
--                    src/capability.rs and src/platform/routing.rs: Names the lookup of a
--                    model by name, Compare the comparison of candidates, Profile the
--                    settings and the context of a route, Grade its confidence, Select the
--                    choice (select_route)
--   Context          src/platform/context.rs: the size of the context (size_context), Steps
--                    what src/platform/execution/pipeline.rs does with it, Covers and Sent
--                    what the sent window covers
--   Admission        src/platform/admission.rs: State the record and its settings
--                    (AdmissionState, set_ceiling, set_limit), Select the choice of a
--                    waiter (selected_waiter), Queue the queue and its guards (acquire,
--                    acquire_registered, AdmissionWaitGuard, AdmissionPermit), Pool the
--                    histories
--   Jobs             src/platform/jobs.rs: Jobs the record of a deferred task (Job,
--                    JobProgress, cancel_job), Limit the retention limit, History and
--                    Outcome its life, Registry the registry and its handlers
--                    (JobRegistry, submit, lookup, remove); ApiError is that of
--                    src/platform/error.rs
--   Resources        src/platform/resources: Resources and Reserve the policy and its
--                    reserves (mod.rs), Pressure the signals (pressure.rs), Demand the
--                    assessment of a request (mod.rs) and Granted the reservation that follows it,
--                    Holds the holds between samples,
--                    Reservations the accounting of memory and Wait the wait of a
--                    request (governor.rs)
--   Readiness        src/platform/readiness.rs: the preview of a task (assess), Capacity and
--                    Runnable what its plan promises
--   Sessions         src/platform/routing.rs: SessionAffinity, and the handlers of
--                    src/platform/sessions.rs; Channels their invariant, Histories the
--                    handlers in any order
--   Telemetry        src/platform/telemetry: Days the arithmetic of days (mod.rs), Ledger
--                    the queue of records, its worker and its counters (ledger.rs and
--                    mod.rs)
--   Residency        src/platform/residency.rs: the runners that may go, Victims the plan
--                    of unloads (plan), Exact its search for a cheapest set, Safety and
--                    Covers what it keeps and frees
--   Footprint        src/platform/footprint.rs: FootprintHistory with its measurements,
--                    Estimate the requirement of a load, Saves the order of its writes
--   Scopes           src/platform/scopes.rs: Store the histories and their handlers
--                    (ScopeStore), Lease and Commit the append of a task (prepare,
--                    ScopeLease), Histories both in any order, Append and Bounds their
--                    invariants
--   Runtime/Breaker  src/platform/runtime/breaker.rs
--   Runtime/Profile, Runtime/Adaptive, Runtime/RetryAfter
--                    src/platform/runtime/adaptive.rs: the state of the limiter, its
--                    observe, and retry_after_seconds
--   Proxy/Raw        src/proxy/admission.rs
--   Proxy/Retry      src/proxy/retry.rs
--   Proxy/Forward    src/proxy/mod.rs: the sends of a request (forward_inner)
--   Repetition       src/platform/repetition.rs: Window the scan of a window, Tail the
--                    whole text and the streaming stop, Check the receipt of a response
--   Base             the parts of Rust's standard library that the code uses: vectors,
--                    maps, results and machine words
--   Examples         concrete inputs at which the theorems apply, and tests
--
-- Concurrency. State is changed in critical sections of a mutex, and the
-- reserved memory by compare-and-exchange, so an operation is a pure function
-- of the state for each time that it takes the mutex, the loop of exchanges
-- is written out, and a history is a list of events in the order in which the mutex is taken;
-- the awaits between two critical sections are where other events of a
-- history come in. A dropped future is the event of its guard's drop.
--
-- Numbers. Counters and sizes are the native ℕ; saturating_add, checked_add
-- and wrapping_add are written out in Base/Words.antt at the width of the
-- source's type. Durations and instants are counts of one unit that each
-- module names; they are not bounded. f64 is an interface of the operations
-- that a component uses (Floats in Resources.antt, Rates in
-- Runtime/Profile.antt, the costs of Residency.antt); a score in a catalog is its bit
-- pattern, on which the total order of f64 is written out.
--
-- Recursion. Loops are structural recursion on the list, the range or the
-- number of attempts that the source walks; no function of the library
-- recurses on fuel that can run out (the search over masks walks their range). The wait for host capacity walks the
-- turns of its loop, given as a list, and is still waiting where they end.
--
-- Not modelled: eviction for a load, the totals of days in the ledger, the decay
-- of a model's use, warming, the catalog and feedback; JSON rendering of receipts (the
-- length of the JSON of messages is a parameter of Scopes and Context), HTTP and process I/O, sampling of
-- the operating system, the asynchronous runtime, and the command line, the
-- MCP server and the Node binding, which call the parts above.
pub mod Base
pub mod Task
pub mod Capability
pub mod Routing
pub mod Context
pub mod Admission
pub mod Runtime
pub mod Proxy
pub mod Repetition
pub mod Jobs
pub mod Resources
pub mod Readiness
pub mod Sessions
pub mod Telemetry
pub mod Residency
pub mod Footprint
pub mod Scopes
mod Examples
