-- ===== src/Workflow/Task.antt =====
-- `OnWorkflowTaskStarted` of aggregatedpool/workflow.go: one task of a workflow. The loop over the
-- pipeline has no bound of its own, since the worker may answer with ever more commands: it takes
-- fuel here, and `none` means that the fuel ran out.
pub mod Frame
pub mod Ends
pub mod Fuel
pub mod Finite
pub mod Budget
pub mod Deferred
use roadrunner_temporal.Base.{
  ℕ, zero, suc, String, Bool, true, false, Option, none, some, List, [], ◌∷◌, ◌++◌, if◌then◌else◌,
}
use roadrunner_temporal.Vendor.{Vendor}
use roadrunner_temporal.Errors.{GoError}
use roadrunner_temporal.Protocol.{
  Message, Dynamic, pointer, undefined_response, is_command, undefined_response?,
}
use roadrunner_temporal.Exec.{
  Exit, returns, stops, Stop, error, panics, PanicValue, of_error, of_text, Exec, pure, gets,
  modify, ◌>>=◌, ◌>>◌, or_panic,
}
use roadrunner_temporal.Workflow.{Workflow, Services, Environment, Outcome, handle_queued_updates}
use roadrunner_temporal.Workflow.Exchange.{Method, flush_queue}
use roadrunner_temporal.Workflow.Callbacks.{run_callback}
use roadrunner_temporal.Workflow.Handle.{handle_message}
use roadrunner_temporal.Workflow.Update.{updating}

module _ {v : Vendor} where
  -- The waiting callbacks, in order; inside the loop none of them adds another.
  unfoldable pub run_callbacks : List (ℕ × Outcome v) → Workflow v → Workflow v
  run_callbacks [] w = w
  run_callbacks ((id, o) ∷ cs) w = run_callbacks cs (run_callback id o w)

  abbrev pub undefined_text : Option (Dynamic v) → String
  undefined_text (some (pointer (undefined_response m))) = m
  undefined_text _ = ""

module _ {v : Vendor} (s : Services v) where
  -- `HandleQueuedUpdates`: the environment runs the closures that it has queued under the name.
  unfoldable pub queued_updates : String → Method v (Unit {0})
  queued_updates name = updating s (handle_queued_updates name)

  unfoldable pub all_updates : List String → Method v (Unit {0})
  unfolding queued_updates
  all_updates [] = pure tt
  all_updates (n ∷ ns) = let rest = all_updates ns in queued_updates n >> rest

  -- An error of the handler empties the pipeline and becomes a panic.
  abbrev pub on_error : Exit v (Unit {0}) × Workflow v → Exit v (Unit {0}) × Workflow v
  on_error (stops (error e), w) = (stops (panics (of_error e)), record w { pipeline = [] })
  on_error r = r

  -- The body of the loop, for the message that was taken off the pipeline.
  unfoldable pub process : Message v → Method v (Unit {0})
  process msg w =
      if is_command msg
      then (if undefined_response? msg
          then (
            stops (panics (of_text "undefined response: %s" (undefined_text msg.command))),
            record w { pipeline = [] },
          )
          else on_error (handle_message s msg w))
      else (returns tt, w)

  abbrev pub go_on :
      (Workflow v → Option (Exit v (Unit {0}) × Workflow v))
      → Exit v (Unit {0}) × Workflow v
      → Option (Exit v (Unit {0}) × Workflow v)
  go_on rest (returns u, w) = rest w
  go_on rest (stops x, w) = some (stops x, w)

  abbrev pub take_message :
      (Workflow v → Option (Exit v (Unit {0}) × Workflow v))
      → List (Message v)
      → Workflow v
      → Option (Exit v (Unit {0}) × Workflow v)
  take_message rest [] w = some (returns tt, w)
  take_message rest (msg ∷ msgs) w = go_on rest (process msg (record w { pipeline = msgs }))

  unfoldable pub pipeline_loop : ℕ → Workflow v → Option (Exit v (Unit {0}) × Workflow v)
  unfolding process
  pipeline_loop zero w = none
  pipeline_loop (suc n) w = take_message (pipeline_loop n) w.pipeline w

  -- Everything before the loop.
  unfoldable pub start_task : Method v (Unit {0})
  unfolding run_callbacks all_updates
  start_task = do
    modify
        (λ w. record (run_callbacks w.callbacks (record w { in_loop = true })) { callbacks = [] })
    or_panic (flush_queue s)
    names ← gets (λ w. w.updates_queue)
    all_updates names
    modify (λ w. record w { updates_queue = [] })

  abbrev pub leave_loop : Workflow v → Workflow v
  leave_loop w = record w { in_loop = false }

  abbrev pub left : Exit v (Unit {0}) × Workflow v → Exit v (Unit {0}) × Workflow v
  left (r, w) = (r, leave_loop w)

  abbrev pub left? :
      Option (Exit v (Unit {0}) × Workflow v) → Option (Exit v (Unit {0}) × Workflow v)
  left? none = none
  left? (some r) = some (left r)

  unfoldable pub on_workflow_task_started : ℕ → Workflow v → Option (Exit v (Unit {0}) × Workflow v)
  unfolding start_task pipeline_loop
  on_workflow_task_started fuel w = left? (go_on (pipeline_loop fuel) (start_task w))
