-- ===== src/Plugin.antt =====
-- plugin.go and internal.go: the plugin's start, its stop, and its resets. Each operation holds the
-- plugin's lock from beginning to end, and is one step here. Logs, time limits and the events bus's
-- insides are left out.
pub mod Loop
pub mod Runs
pub mod Init
pub mod Restart
pub mod States
use roadrunner_temporal.Base.{
  ℕ, String, str_eq, Bool, true, false, Option, none, some, List, [], ◌∷◌, ◌++◌, if◌then◌else◌,
}
use roadrunner_temporal.Base.Int.{ℤ}
use roadrunner_temporal.Vendor.{Vendor}
use roadrunner_temporal.Errors.{GoError, Result, ok, err, fault, str, wrap}
use roadrunner_temporal.Codec.{WorkerInfo, WorkflowEntry, ActivityEntry}
use roadrunner_temporal.Exec.{
  Exit, returns, stops, Stop, error, panics, PanicValue, of_text, Exec, pure, fail, stop, lift,
  gets, modify, ◌>>=◌, ◌>>◌, wrapping,
}
use roadrunner_temporal.Workflow.{PoolCall}
use roadrunner_temporal.Config.{ConfigLib, Config}
use roadrunner_temporal.Info.{
  InfoServices, worker_info, Named, no_names, workflows_info, activities_info,
}
use roadrunner_temporal.Workers.{WorkerLib, Options, SdkWorker, temporal_workers}

pub data PoolKind : Type 0 where
  activity_pool : PoolKind
  workflow_pool : PoolKind

-- What `tclient.Dial` is given, as far as it comes from the configuration and the worker.
pub record DialOptions : Type 0 where
  pub host_port : String
  pub namespace : String
  pub php_sdk_version : String

-- What the plugin asks of the server, the SDK, its pools and the events bus.
pub data PluginCall {v : Vendor} (lib : WorkerLib v) : Type 0 where
  new_pool : PoolKind → PluginCall lib
  reset_pool : PoolKind → PluginCall lib
  set_cache_size : ℤ → PluginCall lib
  dial : DialOptions → PluginCall lib
  start : SdkWorker lib → PluginCall lib
  stop_worker : SdkWorker lib → PluginCall lib
  purge_cache : PluginCall lib
  subscribe : PluginCall lib
  unsubscribe : PluginCall lib
  send_stop : PluginCall lib
  close_metrics : PluginCall lib
  close_client : PluginCall lib

-- What the plugin runs in. An answer is a function of the calls made so far, the newest last. A pool
-- that is reset may be nil. `pids` are the process ids of a pool's workers, `contains` is
-- `strings.Contains`, and `itoa` is `strconv.Itoa`.
pub record World (v : Vendor) : Type 1 where
  pub Pool : Type 0
  pub Client : Type 0
  pub config_lib : ConfigLib v
  pub worker_lib : WorkerLib v
  pub created : List (PluginCall worker_lib) → Result v Pool
  pub was_reset : List (PluginCall worker_lib) → Option Pool → Option (Stop v)
  pub connected : List (PluginCall worker_lib) → Result v Client
  pub was_started : List (PluginCall worker_lib) → Option v.Fault
  pub subscribed : List (PluginCall worker_lib) → Option v.Fault
  pub metrics_closed : List (PluginCall worker_lib) → Option v.Fault
  pub pids : List (PluginCall worker_lib) → Pool → List ℕ
  pub info_services : Option Pool → InfoServices v (Options worker_lib)
  pub contains : String → String → Bool
  pub itoa : ℕ → String

module _ {v : Vendor} (w : World v) where
  abbrev pub Sdk : Type 0
  Sdk = SdkWorker w.worker_lib

  abbrev pub Call : Type 0
  Call = PluginCall w.worker_lib

  -- `Plugin` with its `temporal`. `has_bus` says that `eventBus` is not nil, and `has_metrics` that
  -- `tallyCloser` is not. The workflow and the activity definition stand for the pool that each holds.
  pub record Plugin : Type 0 where
    pub config : Config w.config_lib
    pub rr_version : String
    pub ww_pid : ℕ
    pub act_p : Option w.Pool
    pub wf_p : Option w.Pool
    pub rr_workflow_def : Option w.Pool
    pub rr_activity_def : Option w.Pool
    pub workflows : Named WorkflowEntry
    pub activities : Named ActivityEntry
    pub client : Option w.Client
    pub workers : List Sdk
    pub has_bus : Bool
    pub has_metrics : Bool
    pub calls : List Call
    pub info_calls : List PoolCall

  abbrev pub Method : Type 0 → Type 0
  Method A = Exec v Plugin A

  abbrev pub made_call : Call → Plugin → Plugin
  made_call c p = record p { calls = p.calls ++ c ∷ [] }

  abbrev pub or_fault : Option v.Fault → Method (Unit {0})
  or_fault none = pure tt
  or_fault (some f) = fail (fault f)

  abbrev pub or_stops : Option (Stop v) → Method (Unit {0})
  or_stops none = pure tt
  or_stops (some x) = stop x

  abbrev pub create_pool : PoolKind → Method w.Pool
  create_pool kind = do modify (made_call (new_pool kind)); λ p. lift (w.created p.calls) p

  -- `Reset` of one of the two pools.
  abbrev pub reset_wf_p : Method (Unit {0})
  reset_wf_p = do
    modify (made_call (reset_pool workflow_pool))
    λ p. or_stops (w.was_reset p.calls p.wf_p) p

  abbrev pub reset_act_p : Method (Unit {0})
  reset_act_p = do
    modify (made_call (reset_pool activity_pool))
    λ p. or_stops (w.was_reset p.calls p.act_p) p

  abbrev pub with_log : {A : Type 0} → Plugin → Exit v A × List PoolCall → Exit v A × Plugin
  with_log p (r, log) = (r, record p { info_calls = log })

  -- `WorkerInfo` of info.go, asked of a pool.
  abbrev pub ask_worker_info : Option w.Pool → Method (List (WorkerInfo (Options w.worker_lib)))
  ask_worker_info pool p = with_log p (worker_info (w.info_services pool) p.rr_version p.info_calls)

  abbrev pub make_workers : List (WorkerInfo (Options w.worker_lib)) → Method (List Sdk)
  make_workers infos p = (temporal_workers w.worker_lib infos, p)

  unfoldable pub start_workers : List Sdk → Method (Unit {0})
  start_workers [] = pure tt
  start_workers (x ∷ xs) =
      let rest = start_workers xs in
      modify (made_call (start x)) >> (λ p. or_fault (w.was_started p.calls) p) >> rest

  unfoldable pub stop_workers : List Sdk → Plugin → Plugin
  stop_workers [] p = p
  stop_workers (x ∷ xs) p = stop_workers xs (made_call (stop_worker x) p)

  abbrev pub version_or_baseline : String → String
  version_or_baseline version = if str_eq version "" then "2.5.0" else version

  abbrev pub dialled : String → Plugin → Plugin
  dialled version p =
      made_call
        (dial (record {
          host_port = p.config.address;
          namespace = p.config.namespace;
          php_sdk_version = version_or_baseline version;
        }))
        p

  -- The field is set to what `Dial` returned, which is nil with an error.
  abbrev pub keep_client : Result v w.Client → Method (Unit {0})
  keep_client (ok c) = modify (λ p. record p { client = some c })
  keep_client (err e) = modify (λ p. record p { client = none }) >> fail e

  unfoldable pub init_temporal_client : String → Method (Unit {0})
  init_temporal_client version = do
    modify (λ p. made_call (set_cache_size p.config.cache_size) p)
    modify (dialled version)
    λ p. keep_client (w.connected p.calls) p

  -- `wi[0].PhpSdkVersion`, if there is a worker info.
  abbrev pub first_version : List (WorkerInfo (Options w.worker_lib)) → Method String
  first_version [] = fail (str "worker info should contain at least 1 worker")
  first_version (info ∷ infos) = pure info.php_sdk_version

  abbrev pub first_pid : List ℕ → Method ℕ
  first_pid [] = fail (str "failed to allocate a workflow worker")
  first_pid (pid ∷ rest) = pure pid

  -- The end of `initPool`.
  abbrev pub take_over :
      w.Pool → w.Pool → List (WorkerInfo (Options w.worker_lib)) → List Sdk → ℕ → Plugin → Plugin
  take_over ap wp infos workers pid p = record p {
    ww_pid = pid;
    rr_workflow_def = some wp;
    rr_activity_def = some ap;
    workers = workers;
    activities = activities_info infos;
    workflows = workflows_info infos;
    act_p = some ap;
    wf_p = some wp;
  }

  unfoldable pub init_pool : Method (Unit {0})
  unfolding start_workers init_temporal_client
  init_pool = do
    ap ← create_pool activity_pool
    wp ← create_pool workflow_pool
    infos ← ask_worker_info (some wp)
    version ← first_version infos
    init_temporal_client version
    workers ← make_workers infos
    start_workers workers
    pid ← λ p. first_pid (w.pids p.calls wp) p
    modify (take_over ap wp infos workers pid)

  -- `Serve`, up to the start of its loop; its error goes to the channel that it returns.
  unfoldable pub serve : Method (Unit {0})
  unfolding init_pool
  serve = do
    wrapping "temporal_plugin_serve" init_pool
    modify (made_call subscribe)
    wrapping "temporal_plugin_serve" (λ p. or_fault (w.subscribed p.calls) p)

  unfoldable pub reset_ap : Method (Unit {0})
  reset_ap = wrapping "temporal_plugin_reset" reset_act_p

  unfoldable pub stop_old_workers : Plugin → Plugin
  unfolding stop_workers
  stop_old_workers p = made_call purge_cache (record (stop_workers p.workers p) { workers = [] })

  abbrev pub renew : List (WorkerInfo (Options w.worker_lib)) → List Sdk → Plugin → Plugin
  renew infos workers p = record p {
    activities = activities_info infos;
    workflows = workflows_info infos;
    workers = workers;
  }

  unfoldable pub reset : Method (Unit {0})
  unfolding stop_old_workers start_workers
  reset = do
    modify stop_old_workers
    wrapping "temporal_reset" reset_wf_p
    wrapping "temporal_reset" reset_act_p
    infos ← λ p. ask_worker_info p.wf_p p
    workers ← make_workers infos
    start_workers workers
    modify (renew infos workers)

  -- `Stop` unlocks the mutex before it returns the error of the metrics, and so does its deferred call.
  abbrev pub closed_metrics : Option v.Fault → Method (Unit {0})
  closed_metrics none = pure tt
  closed_metrics (some f) = stop (panics (of_text "sync: Unlock of unlocked RWMutex" ""))

  abbrev pub close_scope : Bool → Method (Unit {0})
  close_scope false = pure tt
  close_scope true =
      modify (made_call close_metrics) >> (λ p. closed_metrics (w.metrics_closed p.calls) p)

  abbrev pub close_connection : Option w.Client → Plugin → Plugin
  close_connection none p = p
  close_connection (some c) p = made_call close_client p

  -- With no events bus, a nil interface is called.
  abbrev pub unsubscribe_bus : Bool → Method (Unit {0})
  unsubscribe_bus false =
      stop (panics (of_text "invalid memory address or nil pointer dereference" ""))
  unsubscribe_bus true =
      modify (λ p. record (made_call send_stop (made_call unsubscribe p)) { has_bus = false })

  unfoldable pub stop_plugin : Method (Unit {0})
  unfolding stop_workers
  stop_plugin = do
    λ p. unsubscribe_bus p.has_bus p
    modify (λ p. stop_workers p.workers p)
    λ p. close_scope p.has_metrics p
    modify (λ p. close_connection p.client p)
