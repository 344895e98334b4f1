-- ===== src/Workers.antt =====
-- aggregatedpool/workers.go: one SDK worker for each worker info, with its options, workflows and
-- activities. The SDK's worker is a parameter.
pub mod Prepared
use roadrunner_temporal.Base.{
  ℕ, suc, String, str_eq, str_append, Bool, true, Option, none, some, List, [], ◌∷◌, ◌++◌,
  if◌then◌else◌,
}
use roadrunner_temporal.Base.Int.{ℤ, pos}
use roadrunner_temporal.Vendor.{Vendor}
use roadrunner_temporal.Codec.{WorkerInfo, WorkflowEntry, ActivityEntry}
use roadrunner_temporal.Exec.{Exit, returns, stops, panics, PanicValue}

-- The fields of `worker.Options` that `TemporalWorkers` reads or writes, and the others.
pub record WorkerOptions (Rest Interceptor : Type 0) : Type 0 where
  pub worker_stop_timeout : ℤ
  pub build_id : String
  pub use_build_id_for_versioning : Bool
  pub identity : String
  pub interceptors : List Interceptor
  pub rest : Rest

-- An SDK worker, as the calls that made it: the task queue and the options given to `worker.New`, and
-- the names registered, in order.
pub record Worker (Rest Interceptor : Type 0) : Type 0 where
  pub task_queue : String
  pub options : WorkerOptions Rest Interceptor
  pub workflows : List String
  pub activities : List String

-- `DefaultNamespace`, `NewWorkerInterceptor`, the UUID that `uuid.NewString` gives for the worker of a
-- number, the interceptors of the plugin in the order in which the map is walked for it, and the panic
-- of the SDK, if it has one, when a workflow or an activity is registered under a name.
pub record WorkerLib (v : Vendor) : Type 1 where
  pub Rest : Type 0
  pub Interceptor : Type 0
  pub default_namespace : String
  pub header_interceptor : Interceptor
  pub uuid : ℕ → String
  pub walked : ℕ → List Interceptor
  pub workflow_panic : Worker Rest Interceptor → String → Option (PanicValue v)
  pub activity_panic : Worker Rest Interceptor → String → Option (PanicValue v)

module _ {v : Vendor} (lib : WorkerLib v) where
  abbrev pub Options : Type 0
  Options = WorkerOptions lib.Rest lib.Interceptor

  abbrev pub SdkWorker : Type 0
  SdkWorker = Worker lib.Rest lib.Interceptor

  abbrev pub queue_of : String → String
  queue_of queue = if str_eq queue "" then lib.default_namespace else queue

  abbrev pub identity_of : ℕ → String → String → String
  identity_of i queue identity =
      if str_eq identity "" then str_append queue (str_append ":" (lib.uuid i)) else identity

  abbrev pub versioning_of : String → Bool → Bool
  versioning_of build_id asked = if str_eq build_id "" then asked else true

  -- The options that `worker.New` is given.
  abbrev pub prepared_options : ℕ → String → Options → Options
  prepared_options i queue o = record o {
    worker_stop_timeout = pos 0;
    use_build_id_for_versioning = versioning_of o.build_id o.use_build_id_for_versioning;
    identity = identity_of i queue o.identity;
    interceptors = (o.interceptors ++ lib.header_interceptor ∷ []) ++ lib.walked i;
  }

  abbrev pub new_worker : ℕ → WorkerInfo Options → SdkWorker
  new_worker i info = record {
    task_queue = queue_of info.task_queue;
    options = prepared_options i (queue_of info.task_queue) info.options;
    workflows = [];
    activities = [];
  }

  abbrev pub register_workflows : List WorkflowEntry → SdkWorker → Exit v SdkWorker
  register_workflows [] w = returns w
  register_workflows (e ∷ es) w = elim (lib.workflow_panic w e.name) [
    | some p ↦ stops (panics p)
    | none ↦ register_workflows es (record w { workflows = w.workflows ++ e.name ∷ [] })
  ]

  abbrev pub register_activities : List ActivityEntry → SdkWorker → Exit v SdkWorker
  register_activities [] w = returns w
  register_activities (e ∷ es) w = elim (lib.activity_panic w e.name) [
    | some p ↦ stops (panics p)
    | none ↦ register_activities es (record w { activities = w.activities ++ e.name ∷ [] })
  ]

  abbrev pub then_activities : List ActivityEntry → Exit v SdkWorker → Exit v SdkWorker
  then_activities es (returns w) = register_activities es w
  then_activities es (stops x) = stops x

  abbrev pub temporal_worker : ℕ → WorkerInfo Options → Exit v SdkWorker
  temporal_worker i info =
      then_activities info.activities (register_workflows info.workflows (new_worker i info))

  abbrev pub and_worker : SdkWorker → Exit v (List SdkWorker) → Exit v (List SdkWorker)
  and_worker w (returns ws) = returns (w ∷ ws)
  and_worker w (stops x) = stops x

  abbrev pub and_workers : Exit v (List SdkWorker) → Exit v SdkWorker → Exit v (List SdkWorker)
  and_workers rest (returns w) = and_worker w rest
  and_workers rest (stops x) = stops x

  -- From the worker info of a number on. It returns no error.
  abbrev pub workers_from : ℕ → List (WorkerInfo Options) → Exit v (List SdkWorker)
  workers_from i [] = returns []
  workers_from i (info ∷ infos) = and_workers (workers_from (suc i) infos) (temporal_worker i info)

  unfoldable pub temporal_workers : List (WorkerInfo Options) → Exit v (List SdkWorker)
  temporal_workers infos = workers_from 0 infos
