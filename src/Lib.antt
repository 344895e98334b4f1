-- ===== src/Lib.antt =====
-- Verification of roadrunner-temporal, the plugin that runs Temporal workflows and activities in
-- PHP workers.
--
-- A Temporal SDK worker in this program holds, for each workflow execution, one object
-- (aggregatedpool/workflow.go). The SDK calls it when a workflow starts (`Execute`), when a task is
-- to be worked on (`OnWorkflowTaskStarted`), and with results, signals, queries and updates. It
-- queues messages for the PHP worker (queue/queue.go), which the codec (internal/codec/proto) turns
-- into bytes, sends them in an exchange with the pool (`flushQueue`, `runCommand`), and works through
-- the commands that come back (`handleMessage`), each of which becomes a call of the SDK. Results
-- come back through callbacks, pending commands can be cancelled (canceller/canceller.go), and the
-- executions of child workflows are handed to those who wait for them (registry/registry.go).
--
-- Base: numbers, strings, Boolean tests, maps, lists, Go's signed integers.
-- Vendor: what the program takes from the Temporal SDK and API without looking inside, a parameter.
-- Errors, Exec: Go's errors as values, results, and methods that change an object and may end early,
--   with an error or a panic. Exec.Steps has one rule for each way to build a method, for any
--   relation from before to after, and Exec.Triple for conditions before and after.
-- Protocol (internal/protocol.go): Context, Message, the command structs, of which `Command` is the
--   sum. Protocol.Names: `CommandName`, `InitCommand`. Protocol.Params: the SDK's parameters.
-- Codec (internal/codec/proto/proto.go, internal/worker_info.go): `Encode`, `Decode`,
--   `DecodeWorkerInfo`. JSON, protobuf and the data converter are the record `Wire`, a parameter.
-- Queue (queue/queue.go), Canceller (canceller/canceller.go), Registry (registry/registry.go).
-- Workflow (aggregatedpool/workflow.go, aggregatedpool/handler.go): the object's record, and what it
--   works with. The environment and the pool are parameters: functions of the calls made so far,
--   which are logged. Handlers that the environment runs during a call are its `events`, and the
--   closures of updates that it runs are its `updates`.
--   Workflow.Frame: relations that say what a method leaves alone.
--   Workflow.Exchange: `getContext`, `getPld`, `putPld`, `flushQueue`, `runCommand`.
--   Workflow.Callbacks: `createCallback`, `createLocalActivityCallback`, `createContinuableCallback`.
--   Workflow.Handle: `handleMessage`. Workflow.Update: `handleUpdate`.
--   Workflow.Task: `OnWorkflowTaskStarted`. Workflow.Lifecycle: `NewWorkflowDefinition`, `Execute`,
--   `StackTrace`, `Close`, `handleCancel`, `handleSignal`, `handleQuery`; Workflow.Update has the run of
--   the updates that `HandleQueuedUpdates` and `DrainUnhandledUpdates` make.
-- Activity (aggregatedpool/activity.go): `execute`, `GetActivityContext`, and the map of the running
--   activities.
-- LocalActivity (aggregatedpool/local_activity.go): `execute`.
-- Tls (tls.go): `initTLS`. Config (config.go): the configuration and `InitDefault`.
-- Metrics (metrics.go): `initMetrics`.
-- Info (info.go): `WorkerInfo`, one exchange that asks the worker process what it offers, with the
--   codec of Codec, and the maps `WorkflowsInfo` and `ActivitiesInfo`.
-- Workers (aggregatedpool/workers.go): `TemporalWorkers`, with an SDK worker as the calls that make it.
-- Plugin (plugin.go, internal.go): `Serve` with `initPool` and `initTemporalClient`, `Reset`,
--   `ResetAP` and `Stop`, each one step, since each holds the plugin's lock from beginning to end.
--   The world around the plugin answers as a function of the calls made so far, which are logged.
--   Plugin.Init: `Init`, with `InitDefault`, `initTLS` and `initMetrics`.
--   Plugin.States: `Workers`, the states of the processes of both pools.
--   Plugin.Loop: the loop that `Serve` starts, over the list of what its `select` takes.
-- Rpc (rpc.go): the heartbeat, and the calls that replay a workflow or download its history.
-- DataConverter (data_converter/converter.go): whole payloads pass, other values go to the fallback.
-- Tests: a small environment, on which the theorems are applied.
--
-- Identifiers are native numbers; the counters of the package and of a workflow wrap around at 64
-- bits, and so does a timer's duration. The loop of `OnWorkflowTaskStarted` takes fuel, since the
-- worker may answer with ever more commands; Workflow.Task.Finite says how much is enough.
--
-- Not modelled: debug logs and gauges; the goroutines of the pool; the plugin's `Collects`, `AddWorker`
-- and `RemoveWorker` and the gRPC headers (plugin.go, internal.go, workers_manager.go); the
-- exporter of statistics (metrics.go); the two calls of rpc.go that list the names in a map, whose
-- order is not fixed.
pub mod Base
pub mod Vendor
pub mod Errors
pub mod Protocol
pub mod Payload
pub mod Codec
pub mod Queue
pub mod Canceller
pub mod Registry
pub mod Exec
pub mod Workflow
pub mod Activity
pub mod Tls
pub mod Config
pub mod DataConverter
pub mod Metrics
pub mod Info
pub mod Workers
pub mod Plugin
pub mod LocalActivity
pub mod Rpc
mod Tests
