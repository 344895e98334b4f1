-- ===== src/Plugin/Restart.antt =====
-- The plugin (plugin.go, internal.go) and the SDK workers that run, over `Serve`, `Reset`, `ResetAP`
-- and `Stop`.
use roadrunner_temporal.Base.{
  ℕ, String, ◌≡◌, refl, sym, subst, Bool, true, false, Option, none, some, List, [], ◌∷◌, ◌++◌,
  append-nil, append_assoc,
}
use roadrunner_temporal.Vendor.{Vendor}
use roadrunner_temporal.Errors.{Result, ok, err}
use roadrunner_temporal.Codec.{WorkerInfo}
use roadrunner_temporal.Exec.{Exit, returns, stops, Stop, modify, ◌>>◌, wrapping}
use roadrunner_temporal.Exec.Triple.{
  After, Triple, Triple-modify, Triple-pure, Triple-lift, Triple-wrapping, Triple-bind,
}
use roadrunner_temporal.Workflow.{PoolCall}
use roadrunner_temporal.Workers.{Options, temporal_workers}
use roadrunner_temporal.Info.{worker_info}
use roadrunner_temporal.Plugin.{
  start, new_pool, purge_cache, subscribe, set_cache_size, dial, unsubscribe, send_stop,
  close_metrics, close_client, PoolKind, activity_pool, workflow_pool, World, Sdk, Plugin,
  made_call, or_fault, or_stops, with_log, ask_worker_info, make_workers, create_pool,
  first_version, first_pid, keep_client, dialled, init_temporal_client, take_over, start_workers,
  stop_workers, stop_old_workers, renew, reset_wf_p, reset_act_p, reset, reset_ap, init_pool, serve,
  closed_metrics, close_scope, close_connection, unsubscribe_bus, stop_plugin,
}
use roadrunner_temporal.Plugin.Runs.{
  Runs, started, not_started, besides, Known, Lost, Fresh, Fresh-Lost, Known-Lost, all_stopped,
  called, reset_wf_p-Fresh, reset_act_p-Fresh,
}

module _ {v : Vendor} (w : World v) where
  module _ (xs : List (Sdk w)) where
    logged-Fresh :
        {A : Type 0} (p : Plugin w)
        → Fresh w xs p
        → (r : Exit v A × List PoolCall) → After (λ _. Fresh w xs) (Lost w) (with_log w p r)
    logged-Fresh p f (returns a, log) = record { runs = f.runs; none_known = f.none_known }
    logged-Fresh p f (stops x, log) = Fresh-Lost w xs p f

    ask-Fresh :
        (pool : Option w.Pool)
        → Triple (Fresh w xs) (ask_worker_info w pool) (λ _. Fresh w xs) (Lost w)
    ask-Fresh pool = record {
      at = λ p f. logged-Fresh p f (worker_info (w.info_services pool) p.rr_version p.info_calls);
    }

    made-Fresh :
        (p : Plugin w)
        → Fresh w xs p
        → (r : Exit v (List (Sdk w))) → After (λ _. Fresh w xs) (Lost w) (r, p)
    made-Fresh p f (returns ys) = f
    made-Fresh p f (stops x) = Fresh-Lost w xs p f

    make-Fresh :
        (infos : List (WorkerInfo (Options w.worker_lib)))
        → Triple (Fresh w xs) (make_workers w infos) (λ _. Fresh w xs) (Lost w)
    make-Fresh infos = record { at = λ p f. made-Fresh p f (temporal_workers w.worker_lib infos) }

    start_one-Fresh :
        (x : Sdk w)
        → Triple
            (Fresh w xs)
            (modify (made_call w (start x)) >> (λ p. or_fault w (w.was_started p.calls) p))
            (λ _. Fresh w (xs ++ x ∷ []))
            (Lost w)
    start_one-Fresh x = record {
      at = λ p f. tried p f (w.was_started (p.calls ++ start x ∷ [])) refl;
    }
      where
        tried :
            (p : Plugin w)
            → Fresh w xs p
            → (o : Option v.Fault) → w.was_started (p.calls ++ start x ∷ []) ≡ o
            → After (λ _. Fresh w (xs ++ x ∷ [])) (Lost w) (or_fault w o (made_call w (start x) p))
        tried p f none e = record {
          runs = started p.calls xs x e f.runs;
          none_known = f.none_known;
        }
        tried p f (some y) e =
            Fresh-Lost w xs (made_call w (start x) p)
              (record { runs = not_started p.calls xs x y e f.runs; none_known = f.none_known })

  all_started :
      (ys xs : List (Sdk w))
      → Triple (Fresh w xs) (start_workers w ys) (λ _. Fresh w (xs ++ ys)) (Lost w)
  unfolding start_workers
  all_started [] xs = record {
    at = λ p f. record {
      runs = subst (Runs w p.calls) (sym (append-nil xs)) f.runs;
      none_known = f.none_known;
    };
  }
  all_started (y ∷ ys) xs =
      Triple-bind (modify (made_call w (start y)) >> (λ p. or_fault w (w.was_started p.calls) p))
        (λ _. start_workers w ys) (start_one-Fresh xs y)
        (λ _.
          subst
            (λ zs. Triple (Fresh w (xs ++ y ∷ [])) (start_workers w ys) (λ _. Fresh w zs) (Lost w))
            (append_assoc xs (y ∷ []) ys) (all_started ys (xs ++ y ∷ [])))

  old_stopped : (p : Plugin w) → Known w p → Fresh w [] (stop_old_workers w p)
  unfolding stop_old_workers
  old_stopped p k = record {
    runs = besides _ [] purge_cache tt (all_stopped w p.workers p k);
    none_known = refl;
  }

  reset-Known : Triple (Known w) (reset w) (λ _. Known w) (Lost w)
  unfolding reset
  reset-Known =
      Triple-bind (modify (stop_old_workers w)) _ (Triple-modify (stop_old_workers w) old_stopped)
        λ _.
          Triple-bind (wrapping "temporal_reset" (reset_wf_p w)) _
            (Triple-wrapping "temporal_reset" (reset_wf_p w) (reset_wf_p-Fresh w []))
            λ _.
              Triple-bind (wrapping "temporal_reset" (reset_act_p w)) _
                (Triple-wrapping "temporal_reset" (reset_act_p w) (reset_act_p-Fresh w []))
                λ _.
                  Triple-bind (λ p. ask_worker_info w p.wf_p p) _
                    (record { at = λ p f. (ask-Fresh [] p.wf_p).at p f })
                    λ infos. Triple-bind (make_workers w infos) _ (make-Fresh [] infos) λ ys.
                      Triple-bind (start_workers w ys) _ (all_started ys [])
                        (λ _. Triple-modify (renew w infos ys) (λ p f. f.runs))

  or_stops-Known : (o : Option (Stop v)) → Triple (Known w) (or_stops w o) (λ _. Known w) (Known w)
  or_stops-Known none = Triple-pure tt
  or_stops-Known (some x) = record { at = λ p k. k }

  reset_ap-Known : Triple (Known w) (reset_ap w) (λ _. Known w) (Known w)
  unfolding reset_ap
  reset_ap-Known = Triple-wrapping "temporal_plugin_reset" (reset_act_p w) (
      Triple-bind (modify _) _ (Triple-modify _ (λ p k. besides p.calls p.workers _ tt k))
        (λ _. record { at = λ p k. (or_stops-Known (w.was_reset p.calls p.act_p)).at p k }))

  create-Fresh :
      (kind : PoolKind) → Triple (Fresh w []) (create_pool w kind) (λ _. Fresh w []) (Lost w)
  create-Fresh kind =
      Triple-bind (modify _) _ (Triple-modify _ (called w [] (new_pool kind) tt))
        (λ _. record { at = λ p f. (Triple-lift (w.created p.calls) (Fresh-Lost w [])).at p f })

  version-Fresh :
      (infos : List (WorkerInfo (Options w.worker_lib)))
      → Triple (Fresh w []) (first_version w infos) (λ _. Fresh w []) (Lost w)
  version-Fresh [] = record { at = Fresh-Lost w [] }
  version-Fresh (info ∷ infos) = Triple-pure info.php_sdk_version

  pid-Fresh :
      (xs : List (Sdk w)) (pids : List ℕ)
      → Triple (Fresh w xs) (first_pid w pids) (λ _. Fresh w xs) (Lost w)
  pid-Fresh xs [] = record { at = Fresh-Lost w xs }
  pid-Fresh xs (pid ∷ rest) = Triple-pure pid

  keep-Fresh :
      (r : Result v w.Client) → Triple (Fresh w []) (keep_client w r) (λ _. Fresh w []) (Lost w)
  keep-Fresh (ok c) = record { at = λ p f. record { runs = f.runs; none_known = f.none_known } }
  keep-Fresh (err e) = record {
    at = λ p f.
        Fresh-Lost w [] (record p { client = none })
          (record { runs = f.runs; none_known = f.none_known });
  }

  client-Fresh :
      (version : String)
      → Triple (Fresh w []) (init_temporal_client w version) (λ _. Fresh w []) (Lost w)
  unfolding init_temporal_client
  client-Fresh version =
      Triple-bind (modify _) _
        (Triple-modify _ (λ p. called w [] (set_cache_size p.config.cache_size) tt p))
        λ _.
          Triple-bind (modify (dialled w version)) _
            (Triple-modify (dialled w version) (λ p. called w [] (dial _) tt p))
            λ _. record { at = λ p f. (keep-Fresh (w.connected p.calls)).at p f }

  init_pool-Known : Triple (Fresh w []) (init_pool w) (λ _. Known w) (Lost w)
  unfolding init_pool
  init_pool-Known = Triple-bind (create_pool w activity_pool) _ (create-Fresh activity_pool) λ ap.
      Triple-bind (create_pool w workflow_pool) _ (create-Fresh workflow_pool) λ wp.
        Triple-bind (ask_worker_info w (some wp)) _ (ask-Fresh [] (some wp)) λ infos.
          Triple-bind (first_version w infos) _ (version-Fresh infos) λ version.
            Triple-bind (init_temporal_client w version) _ (client-Fresh version) λ _.
              Triple-bind (make_workers w infos) _ (make-Fresh [] infos) λ ys.
                Triple-bind (start_workers w ys) _ (all_started ys []) λ _.
                  Triple-bind (λ p. first_pid w (w.pids p.calls wp) p) _
                    (record { at = λ p f. (pid-Fresh ys (w.pids p.calls wp)).at p f })
                    (λ pid. Triple-modify (take_over w ap wp infos ys pid) (λ p f. f.runs))

  or_fault-Known : (o : Option v.Fault) → Triple (Known w) (or_fault w o) (λ _. Known w) (Lost w)
  or_fault-Known none = Triple-pure tt
  or_fault-Known (some f) = record { at = Known-Lost w }

  serve-Known : Triple (Fresh w []) (serve w) (λ _. Known w) (Lost w)
  unfolding serve
  serve-Known =
      Triple-bind (wrapping "temporal_plugin_serve" (init_pool w)) _
        (Triple-wrapping "temporal_plugin_serve" (init_pool w) init_pool-Known)
        λ _.
          Triple-bind (modify (made_call w subscribe)) _
            (Triple-modify (made_call w subscribe)
              (λ p k. besides p.calls p.workers subscribe tt k))
            (λ _.
              Triple-wrapping "temporal_plugin_serve" (λ p. or_fault w (w.subscribed p.calls) p)
                (record { at = λ p k. (or_fault-Known (w.subscribed p.calls)).at p k }))

  abbrev pub Busy : Plugin w → Type 0
  Busy p = Known w p × (p.has_bus ≡ true)

  abbrev pub Stopped : Plugin w → Type 0
  Stopped p = Runs w p.calls []

  bus-Known :
      (b : Bool) (p : Plugin w)
      → p.has_bus ≡ b
      → Busy p
      → After (λ _. Known w) Stopped (unsubscribe_bus w b p)
  bus-Known true p e (k, b) =
      besides _ p.workers send_stop tt (besides p.calls p.workers unsubscribe tt k)
  bus-Known false p e (k, b) = absurd cc

  metrics-Stopped :
      (o : Option v.Fault) → Triple Stopped (closed_metrics w o) (λ _. Stopped) Stopped
  metrics-Stopped none = Triple-pure tt
  metrics-Stopped (some f) = record { at = λ p k. k }

  scope-Stopped : (b : Bool) → Triple Stopped (close_scope w b) (λ _. Stopped) Stopped
  scope-Stopped false = Triple-pure tt
  scope-Stopped true =
      Triple-bind (modify _) _ (Triple-modify _ (λ p k. besides p.calls [] close_metrics tt k))
        (λ _. record { at = λ p k. (metrics-Stopped (w.metrics_closed p.calls)).at p k })

  connection-Stopped :
      (o : Option w.Client) (p : Plugin w) → Stopped p → Stopped (close_connection w o p)
  connection-Stopped none p k = k
  connection-Stopped (some c) p k = besides p.calls [] close_client tt k

  stop-Stopped : Triple Busy (stop_plugin w) (λ _. Stopped) Stopped
  unfolding stop_plugin
  stop-Stopped =
      Triple-bind (λ p. unsubscribe_bus w p.has_bus p) _
        (record { at = λ p k. bus-Known p.has_bus p refl k })
        λ _.
          Triple-bind (modify (λ p. stop_workers w p.workers p)) _
            (Triple-modify (λ p. stop_workers w p.workers p) (λ p k. all_stopped w p.workers p k))
            λ _.
              Triple-bind (λ p. close_scope w p.has_metrics p) _
                (record { at = λ p k. (scope-Stopped p.has_metrics).at p k })
                (λ _.
                  Triple-modify (λ p. close_connection w p.client p)
                    (λ p k. connection-Stopped p.client p k))

  -- The plugin's list of workers is the list of the SDK workers that run. `Serve`, from when none runs,
  -- and `Reset` make it so if they return no error; if they fail, others may run that the plugin has
  -- lost. `ResetAP` keeps it so, with an error or without one. `Stop`, if there is an events bus,
  -- leaves no worker running that the plugin knows of, however it ends.
  pub operations-Refine :
      Triple (Fresh w []) (serve w) (λ _. Known w) (Lost w)
      × Triple (Known w) (reset w) (λ _. Known w) (Lost w)
      × Triple (Known w) (reset_ap w) (λ _. Known w) (Known w)
      × Triple Busy (stop_plugin w) (λ _. Stopped) Stopped
  operations-Refine = (serve-Known, reset-Known, reset_ap-Known, stop-Stopped)
