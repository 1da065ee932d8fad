-- ===== src/Lib.antt =====
-- A model of temporal-cpp, a C++ SDK for Temporal workflows, and what is proved of it.
--
-- A worker polls workflow tasks. A task carries the history of a run; the SDK runs the
-- application's workflow function, collects the commands that it sends, and answers with them. The
-- server records each command as an event. Later the function is run again from the history: its
-- calls must find there what they did the first time, and send nothing twice. The model follows
-- that path.
--
-- - Determinism: src/internal/determinism.h. CommandEvent, CommandMatchesEvent and
--   MatchReplayCommands are command_matches_event and match_replay_commands. The message of a
--   divergence is given by the constructors of a data type.
-- - History: the structures of src/internal/workflow_task_handler.cpp that a scan fills in, from
--   ActivityOutcome to Prescan. History.Scan is ScanHistory (scan_history), with one function per
--   group of its cases, and IsDeferredOnReplay.
-- - Proto: ToProtoDuration and ToProtoRetryPolicy of src/internal/proto_util.cpp, and the options
--   of include/temporal/common/options.h.
-- - Runner: the state of WorkflowRunner (src/internal/workflow_task_handler.cpp). Runner.Emit has
--   its Emit methods, Runner.Calls the calls of a workflow function (ScheduleActivity, StartTimer,
--   Cancel and so on), Runner.Markers SideEffect, GetVersion and MutableSideEffect,
--   Runner.LocalActivity ExecuteLocalActivity, Runner.Events ApplyEvents and ApplyEventToState. A
--   std::shared_ptr<FutureState> is a handle into one table of futures, so that the runner and the
--   workflow share the state.
-- - Workflow: RunBody, Run, ApplyAndResume and ReapplyHistoricalUpdates. The workflow function is
--   a tree whose nodes are the calls of include/temporal/workflow/{context,future,channel,selector}.h;
--   the coroutine that parks is the rest of the tree. The cases of a Selector are a data type beside
--   the tree, as their handlers are trees.
-- - Tasks: WorkflowTaskHandler::Handle: which runner serves a task, the answer, and the cache.
--   Tasks.Messages answers update messages (with ValidateUpdate and RunUpdate), Tasks.Paging puts the
--   pages of a history together and has Paginate of src/client/client.cpp.
--   Tasks.Restarted composes Tasks with Workflow, for a worker that takes over a run. Tasks.Offline is
--   ReplayHistory, with ReplayWorkflowHistory of src/internal/worker_impl.cpp.
-- - Cache: src/internal/lru_cache.h, the sticky cache of runs.
-- - Worker: ConcurrencyGate, RateLimiter and PollerScaler of src/internal/worker_impl.h. Their
--   critical sections are the steps of a relation. Worker.Sessions has the session slots of
--   RegisterSessionActivities, Worker.Start the pools of Start (src/internal/worker_impl.cpp).
--   Worker.Polling has the poll loops (WorkflowPollLoop, ActivityPollLoop, NexusPollLoop) and Stop as
--   steps of one relation, for the tasks of one kind: the wait for a slot of the scaler tests, falls
--   asleep and is woken in steps of its own, and Wake reaches the threads asleep by then; the wait for
--   a permit ends when its predicate holds. Worker.Wakeups looks into both waits: the mutex, the test,
--   the falling asleep and the notification are steps of their own.
--   Worker.Metrics is the counting of EmitStickyCacheMetrics.
-- - Coroutine: src/internal/coroutine.cpp. Controller and body take turns; the critical sections and
--   the waits of both are the actions of a state machine, in any order. A body may catch
--   CoroutineAbort, as CompleteSession of include/temporal/workflow/context.h does, and go on.
-- - Activity: Handle of src/internal/activity_task_handler.cpp, with the Context of
--   include/temporal/activity/activity.h. The activity function is a tree of calls as well.
-- - Interceptors: the chain builders of include/temporal/interceptor/interceptor.h.
--   Interceptors.Tracing is src/interceptor/tracing.cpp with its InMemoryTracer.
-- - Data: src/converter/data_converter.cpp. Data.Base64 is Base64Encode and Base64Decode,
--   Data.Codecs the two bundled codecs, Data the converters and codec chains, Data.Storage
--   InMemoryPayloadStorage, Data.Files FilePayloadStorage.
-- - Failures: src/converter/failure_converter.cpp, with MakeApplicationFailure of
--   src/internal/proto_util.cpp and the failure that RunBody makes. Failures.Reported follows it to
--   the caller of ResultPayloads.
-- - Nexus: src/internal/nexus_task_handler.cpp.
-- - Rpc: UnaryCall of src/internal/grpc_client.cpp and how the calls behind it end.
-- - Client: ResultPayloads of src/client/client.cpp. Client.Starts has StartWorkflowPayloads and
--   SignalWithStartWorkflowPayloads, Client.Attributes the types of search attributes.
-- - Prelude: shared names, lists over the native numbers, maps, decimal texts, integers.
-- - Tests: runs at concrete inputs.
--
-- Maps are functions from keys, since no operation that is modelled reads their order. Counters
-- and event ids are natural numbers without an upper bound: signed overflow is undefined in the
-- source, and an int counts calls of one run. Durations are integers in nanoseconds. The loop of
-- EvictToCapacity runs on fuel, the size of the cache: each round removes one entry. The draining
-- and padding loops of Base64 run on fuel as well, as many rounds as there are bits and three. The
-- loops over RPCs (pages and long polls) take a number of rounds, and a theorem each says how many
-- are enough. All other loops are structural.
--
-- Parameters of the model: the data converter (Converter, with IsLawful where markers must be read
-- back), the interceptors of an activity's header (OutboundChain), the registered activities
-- (LocalActivityResolver, ActivityFn), and the workflow function itself; nlohmann::json
-- (JsonLibrary, with IsFaithful), zlib (Zlib, with IsLossless), std::hash, uuids, clocks, what the
-- file system refuses, and the server's answers to RPCs.
--
-- Not modelled: the deadlock timeout in Handle, as every body of the model parks or ends; the
-- registration of query handlers and validators (what they do is a parameter of Tasks); gauges and
-- timers; protobuf messages as JSON; the other calls of the client, which fill in requests; the
-- generated stubs of gRPC, and logging. A handler of an update reads and writes shared variables and
-- makes no calls of its own, and a validator only reads them.
pub mod Prelude
pub mod Determinism
pub mod History
pub mod Proto
pub mod Failures
pub mod Nexus
pub mod Rpc
pub mod Runner
pub mod Client
pub mod Coroutine
pub mod Data
pub mod Interceptors
pub mod Activity
pub mod Cache
pub mod Worker
pub mod Workflow
pub mod Tasks
pub mod Tests
