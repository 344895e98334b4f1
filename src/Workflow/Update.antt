-- ===== src/Workflow/Update.antt =====
-- `handleUpdate` of aggregatedpool/handler.go, and the closure that it queues.
pub mod Order
use roadrunner_temporal.Base.{
  String, Bool, true, false, Option, none, some, List, [], ◌∷◌, ◌++◌, if◌then◌else◌, not,
}
use roadrunner_temporal.Vendor.{Vendor}
use roadrunner_temporal.Errors.{GoError, fault}
use roadrunner_temporal.Protocol.{Payloads, Message, invoke_update, InvokeUpdate, value}
use roadrunner_temporal.Exec.{Exec, pure, gets, modify, ◌>>=◌, ◌>>◌, catch}
use roadrunner_temporal.Workflow.{
  Workflow, Services, Environment, UpdateRequest, EnvCall, queue_update, reject_update,
  accept_update, complete_update,
}
use roadrunner_temporal.Workflow.Exchange.{Method, run_command}
use roadrunner_temporal.Workflow.Callbacks.{call}

module _ {v : Vendor} (s : Services v) where
  -- An update arrives: its name waits for the next task, and its closure goes to the environment.
  unfoldable pub handle_update :
      String → String → Option (Payloads v) → Option v.Header → Method v (Unit {0})
  handle_update name id input header w =
      let rid = (s.env.info w.env_log).run_id in
      let request : UpdateRequest v = record {
        run_id = rid;
        update_id = id;
        name = name;
        input = input;
        header = header;
      } in
      call s (queue_update name request) (record w { updates_queue = w.updates_queue ++ name ∷ [] })

  unfoldable pub invoke : String → UpdateRequest v → Method v (Message v)
  invoke type u =
      run_command s
        (value (
          invoke_update
            (record { update_id = u.update_id; run_id = u.run_id; name = u.name; type = type })))
        u.input u.header

  abbrev pub settle : UpdateRequest v → Option v.Failure → Option (Payloads v) → Method v (Unit {0})
  settle u (some f) payloads =
      call s (complete_update u.update_id none (some (fault (v.failure_to_error f))))
  settle u none payloads = call s (complete_update u.update_id payloads none)

  -- From `callbacks.Accept()` on.
  unfoldable pub accepted : UpdateRequest v → Method v (Unit {0})
  accepted u = do
    call s (accept_update u.update_id)
    catch (invoke "execute" u) (λ result. settle u result.failure result.payloads)
        (λ e. call s (complete_update u.update_id none (some e)))

  abbrev pub judge : UpdateRequest v → Option v.Failure → Method v (Unit {0})
  judge u (some f) = call s (reject_update u.update_id (fault (v.failure_to_error f)))
  judge u none = accepted u

  unfoldable pub validated : UpdateRequest v → Method v (Unit {0})
  validated u =
      catch (invoke "validate" u) (λ result. judge u result.failure)
        (λ e. call s (reject_update u.update_id e))

  -- The closure; an update is not validated during a replay.
  unfoldable pub run_update : UpdateRequest v → Method v (Unit {0})
  unfolding invoke accepted validated
  run_update u = do
    replaying ← gets (λ w. s.env.is_replaying w.env_log)
    if replaying then accepted u else validated u

  unfoldable pub run_updates : List (UpdateRequest v) → Method v (Unit {0})
  run_updates [] = pure tt
  run_updates (u ∷ us) = let rest = run_updates us in run_update u >> rest

  -- `HandleQueuedUpdates` and `DrainUnhandledUpdates`: the environment runs, in order, closures that
  -- `handleUpdate` queued. The environment says which ones.
  abbrev pub updating : EnvCall v → Method v (Unit {0})
  updating c = do call s c; us ← gets (λ w. s.env.updates w.env_log); run_updates us
