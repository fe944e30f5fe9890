-- ===== src/Lib.antt =====
-- Verification library of the AtomBPM engine, a BPMN workflow engine written in Go.
--
-- The engine moves tokens through a parsed process. Where a token reaches a task, a job is created
-- that a worker takes and completes; where it reaches a timer event, a timer is put on a timing
-- wheel; gateways split a token into several, choose its way, or wait for several to come together.
-- Every request from outside is authenticated first. The library models these parts:
--
--   Token      `src/core/models/token.go`: the record of a token and all its methods. `Variables`
--              is about the variables, the execution context and the lists of ids, `Lifecycle`
--              about the states and the time stamps, over any sequence of calls.
--   Gateway    `src/process/parallel_gateway.go` (Execute, handleJoinGateway), with the state of
--              `src/core/models/gateway.go` and its storage in `src/storage/storage_gateway.go`.
--              `Join` is about one arrival at a join, `Rounds` about a run of arrivals, `Forks`
--              about Execute.
--   Jobs       `src/core/models/job.go` and `src/storage/storage_job.go` (Jobs.antt),
--              `src/jobs/manager.go`: `Manager` has the operations on one job and the table of the
--              workers, `Activation` ActivateJobs, `Cleanup` performCleanup and checkWorkerHealth,
--              `Calls` all of these as one step function. `Activation/Rounds`, `Bounds` and
--              `Leases` are about activation, `Workers` about the counters of the workers,
--              `Errors` about the calls that fail, `Reports` about the messages to the process
--              component, `Cleanup/Expiry` about the jobs whose lease is over, and `Transitions`
--              about the status of a job under every call and over runs of calls: `moves` is the
--              table of what each call may do, and `Single`, `Batches` and `Steps` compare the
--              calls with it.
--   Timewheel  `src/timewheel/level.go` (Timewheel.antt), `wheel_core.go` and
--              `wheel_operations.go` (`Wheel`), `wheel_execution.go` (`Cascade`), with the types of
--              `src/timewheel/types.go` and `src/core/models/timer.go`. `Slots` and `Ticks` are
--              about one level, `Horizons` about the choice of the level, `Wheel/Setup` about the
--              wheel of a configuration, `Wheel/Index`, `Wheel/Stale` and
--              `Wheel/Counts` about the index and the number of the timers.
--   Engine     `src/core/models/process_instance.go`, the tokens and instances of
--              `src/storage/storage_process.go` and the result of an executor (Engine.antt);
--              `src/process/execution_processor.go` (`Elements`, `Processor`), ExecuteToken of
--              `src/process/engine.go` (`Execution`), the callback of a message for a token of
--              `src/process/unified_message_manager.go` with `callback_helper.go`,
--              `token_movement.go` and `bpmn_helper.go` (`Callbacks`), the callbacks of jobs of
--              `src/process/job_callbacks.go` (`JobCallbacks`) with the boundary events of
--              `src/process/error_boundary_registry.go` (`Boundaries`), those of timers of
--              `src/process/timer_callbacks.go` (`TimerCallbacks`), CancelProcessInstance
--              of `src/process/process_instance_manager.go` (`Manager`),
--              `src/process/exclusive_gateway.go` (`Exclusive`) and
--              `src/process/inclusive_gateway.go` (`Inclusive`). `Completion`, `LastToken` and
--              `Forks` are about the processor, `Steps` about ExecuteToken, `Awaits`,
--              `Outcomes`, `Executions`, `Settled` and `Resumed` about the waits of a token over
--              the calls of ExecuteToken with which a callback ends (`Chain`), `Once` about the
--              callback of a message, `JobErrors`, `CaughtErrors` and `JobOnce` about those of
--              jobs,
--              `TimerSteps` about that of a timer, `Cancellation` about the instance manager,
--              `Choice` and `Branches` about the gateways.
--   Messages   `src/core/models/message.go` and `src/storage/storage_message.go` (Messages.antt),
--              `src/messages/correlation_manager.go` (`Targets`, `Correlation`),
--              `buffer_manager.go` (`Buffer`) and `subscription_manager.go` (`Subscriptions`).
--              `Delivery`, `Expiry` and `Uniqueness` are about these in turn.
--   Auth       `src/core/auth`: the data and the masks (Auth.antt), `rate_limiter.go` (`Limiter`),
--              `api_key_manager.go` (`Keys`), `ip_validator.go` (`Addresses`), `audit_logger.go`
--              (`Audit`) and `component.go` (`Component`). `Admission`, `Windows` and `Expiry` are
--              about the limiter, `Decisions` about Authenticate.
--   Expressions  `src/expression/variable_evaluator.go`: the tokenizer of the logical expressions
--              (Expressions.antt), their postfix notation (`Rpn`) and its evaluation (`Logic`).
--              `Grammar` and `Text` say what an expression is, what it means and how it is written;
--              `Postfix`, `ShuntingYard` and `Meaning` are about the way from the tokens to the
--              value, `Termination`, `Rounds`, `Words` and `Reading` about that from the text.
--   Incidents  `src/incidents/models.go` and `src/storage/storage_incident.go` (Incidents.antt),
--              `src/incidents/manager.go` with `manager_creation.go`, `manager_resolution.go` and
--              `manager_helpers.go`: `Requests` and `Creation` have the creation of incidents,
--              `Manager` their resolution, `Stats` the statistics, `Recovery` the handler of the
--              jobs component that takes the manager's message. `Filing` is about one creation,
--              `Reports` about the incidents that the process component reports, `Resolution`
--              about one resolution, `Entries` and `Batches` about many, `Stats/Counts` about the
--              statistics, `History` about any calls.
--   Base       Lists and maps over native numbers and texts, and tests on them.
--
-- How the code is modelled:
--   - A method that writes to its receiver returns the new record. What `time.Now` and
--     `GenerateID` return are arguments; a call reads the clock once, but for the tick of the wheel,
--     where the readings after the first are one value. Times and durations are nanoseconds, as
--     natural numbers. A delay below 0 has a constructor of its own.
--   - A Go map is an association list; a nil map reads as an empty one. The store lists its records
--     in the order of the association list, which no theorem fixes.
--   - A call to the database may fail; flags of the store say which calls do. A record that is
--     written to the database is read back as it was: encoding/json is trusted.
--   - The operations on one manager, gateway or wheel run one after the other, as under its lock or
--     in the loop of its component. A goroutine that fires a timer is recorded where it is started.
--     The tickers are calls from outside.
--   - A panic (a division by 0, an index below 0, a nil pointer) is a value: `none` for the wheel,
--     `crash` and `panicked` for activation.
--   - A limit (maxJobs) is a natural number; one below 0 acts as 0 does. Lengths and counters are
--     natural numbers without a bound, since none comes near 2 ^ 63. Retries may be negative.
--   - The call of ExecuteToken with which another call ends is the answer of that call, and
--     `Chain` makes these calls one after the other, up to any number, since a process may have a
--     loop. Those for the parents of a called process, which end before it goes on, those in
--     goroutines, the boundary timers and the creation of timers are recorded in the list of the
--     calls of the engine, in the order in which they start. The cancellation of the boundary
--     timers of a token is such a call; that it also clears the ids of these timers in the saved
--     token is left out. The registry of the executors is an argument of ExecuteToken. The
--     evaluator of conditions and the package `net` are parameters: an argument of the gateways,
--     and a record of its operations. So is the search for an error code in the message of a
--     failed job.
--   - The length of a text is its number of characters, and a cut is at a character: for texts of
--     ASCII these are those of the bytes. The format of a time is a parameter.
--   - Every loop is structural recursion over the list that the source walks, but for the tokenizer:
--     its fuel is the number of the characters and one more, which is shown to be enough.
--
-- Not modelled: ListJobs, GetJobStatistics and the JSON layer of the jobs component;
-- GetRemainingTime, GetStats, the parser of durations and the components around the wheel; the
-- creation of timers for events and the callback of a message which starts an instance; the start
-- and the list of instances, the event based gateway and the other executors; the statistics and
-- the JSON layer of the messages; the JSON layer of the incidents; the operands of expressions (a
-- parameter of their evaluation) and the BPMN parser; how a request of gRPC or HTTP becomes a
-- context of authentication; the REST and gRPC services, the command line, the configuration and
-- the logs. These either come later or are input and output around the parts above.
pub mod Base
pub mod Token
pub mod Gateway
pub mod Jobs
pub mod Timewheel
pub mod Auth
pub mod Engine
pub mod Messages
pub mod Expressions
pub mod Incidents
