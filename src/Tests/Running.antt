-- ===== src/Tests/Running.antt =====
-- Runs of the workflow of aggregatedpool on the demo environment.
use roadrunner_temporal.Base.{
  ℕ, zero, suc, Option, ◌+◌, ◌≤◌, ◌≡◌, refl, sym, ap, ◌∙◌, false, none, some, List, [], ◌∷◌, ◌++◌,
  All, arith, length, map,
}
use roadrunner_temporal.Base.Int.{pos}
use roadrunner_temporal.Protocol.{
  Message, value, cancel, new_timer, complete_workflow, invoke_query,
}
use roadrunner_temporal.Canceller.{cancel as cancel_ids, cancel_one, register as canceller_register}
use roadrunner_temporal.Queue.{push_response, messages}
use roadrunner_temporal.Exec.{Exit, returns}
use roadrunner_temporal.Exec.Steps.{Steps}
use roadrunner_temporal.Errors.{GoError}
use roadrunner_temporal.Payload.{Payload}
use roadrunner_temporal.Workflow.{
  Workflow, Services, Reply, replied, PoolCall, sent, Outcome, of_timer,
}
use roadrunner_temporal.Workflow.Frame.{Grows}
use roadrunner_temporal.Workflow.Exchange.{flush_queue, run_command}
use roadrunner_temporal.Workflow.Exchange.Laws.{Flush, flush_queue-Flush}
use roadrunner_temporal.Workflow.Exchange.Command.{Run, leak, allocated, run_command-Run}
use roadrunner_temporal.Workflow.Handle.{register, run_cancellable, handle_message}
use roadrunner_temporal.Workflow.Handle.Logging.{Logs}
use roadrunner_temporal.Workflow.Handle.Cancelled.{handle_message-cancels}
use roadrunner_temporal.Workflow.Handle.Calls.{calls_of, handle_message-Grows, handle_message-Logs}
use roadrunner_temporal.Workflow.Update.{run_update}
use roadrunner_temporal.Workflow.Update.Order.{Verdict, run_update-Verdict}
use roadrunner_temporal.Workflow.Task.{on_workflow_task_started, run_callbacks}
use roadrunner_temporal.Workflow.Task.Ends.{Ended}
use roadrunner_temporal.Workflow.Task.Budget.{IsFinite}
use roadrunner_temporal.Workflow.Task.Finite.{on_workflow_task_started-terminates}
use roadrunner_temporal.Workflow.Task.Deferred.{answer_to, arrive, arrive-answers}
use roadrunner_temporal.Workflow.Lifecycle.{new_workflow_definition, execute}
use roadrunner_temporal.Workflow.Lifecycle.Laws.{Starts, execute-Starts}
use roadrunner_temporal.Tests.{
  demo_vendor, demo_services, command_message, idle_workflow, queued_workflow, demo_update,
}

flush_queue-Flush_example :
    Flush demo_services queued_workflow queued_workflow.mq.queue
      (flush_queue demo_services queued_workflow)
flush_queue-Flush_example = flush_queue-Flush demo_services queued_workflow

run_command-Run_example :
    let (m, w) =
      allocated demo_services (value (invoke_query "run" "state")) none none queued_workflow in
    Run demo_services w
      (m ∷ [])
      (leak demo_services w (m ∷ []))
      (run_command demo_services (value (invoke_query "run" "state")) none none queued_workflow)
run_command-Run_example =
    run_command-Run demo_services (value (invoke_query "run" "state")) none none queued_workflow

abbrev timer_message : Message demo_vendor
timer_message = command_message 7 (new_timer (pos 250))

abbrev last_message : Message demo_vendor
last_message = command_message 8 complete_workflow

handle_message-Grows_example : Steps Grows (handle_message demo_services timer_message)
handle_message-Grows_example = handle_message-Grows demo_services timer_message

handle_message-Logs_example :
    Logs
      (calls_of demo_services (new_timer (pos 250)) timer_message queued_workflow)
      queued_workflow
      (handle_message demo_services timer_message queued_workflow).1
handle_message-Logs_example =
    handle_message-Logs demo_services timer_message (new_timer (pos 250)) refl tt queued_workflow

abbrev waiting_workflow : Workflow demo_vendor
waiting_workflow = register 7 (of_timer none) queued_workflow

abbrev cancel_message : Message demo_vendor
cancel_message = command_message 9 (cancel (7 ∷ 6 ∷ []))

cancelled : (handle_message demo_services cancel_message waiting_workflow).0 ≡ returns tt
unfolding handle_message cancel_ids cancel_one canceller_register run_cancellable
    new_workflow_definition flush_queue messages push_response
cancelled = refl

handle_message-cancels_example :
    All
      (λ id. (handle_message demo_services cancel_message waiting_workflow).1.canceller id ≡ none)
      (7 ∷ 6 ∷ [])
handle_message-cancels_example =
    handle_message-cancels demo_services cancel_message (7 ∷ 6 ∷ []) refl waiting_workflow cancelled

-- A worker that answers the first exchange with two commands, and each later one with nothing.
abbrev two_then_none : List PoolCall → Reply demo_vendor
two_then_none (c ∷ []) = replied (record { codec = 1; context = []; body = []; flags = 0 })
two_then_none l = replied (record { codec = 2; context = []; body = []; flags = 0 })

abbrev read_reply : ℕ → List (Message demo_vendor)
read_reply (suc zero) = timer_message ∷ last_message ∷ []
read_reply _ = []

abbrev finite_services : Services demo_vendor
finite_services = record demo_services {
  codec = record demo_services.codec { decode = λ p acc. (read_reply p.codec, none) };
  exec = two_then_none;
}

abbrev still_to_come : List PoolCall → ℕ
still_to_come [] = 2
still_to_come l = 0

abbrev codec_of : Reply demo_vendor → ℕ
codec_of (replied p) = p.codec
codec_of _ = 0

got_length :
    (n : ℕ) (r : Payload) (got : List (Message demo_vendor))
    → ◌≡◌ {A = Reply demo_vendor}
        (replied (record { codec = n; context = []; body = []; flags = 0 }))
        (replied r)
    → ◌≡◌ {A = List (Message demo_vendor) × Option (GoError demo_vendor)}
        (read_reply r.codec, none)
        (got, none)
    → length got ≡ length (read_reply n)
got_length n r got e d =
    sym (ap (λ q. length q.0) d) ∙ ap (λ q. length (read_reply (codec_of q))) (sym e)

finite_answers :
    (log : List PoolCall) (p r : Payload) (got : List (Message demo_vendor))
    → two_then_none (log ++ sent p ∷ []) ≡ replied r
    → ◌≡◌ {A = List (Message demo_vendor) × Option (GoError demo_vendor)}
        (read_reply r.codec, none)
        (got, none)
    → length got + still_to_come (log ++ sent p ∷ []) ≤ still_to_come log
finite_answers [] p r got e d = omega (arith, got_length 1 r got e d)
finite_answers (c ∷ []) p r got e d = omega (arith, got_length 2 r got e d)
finite_answers (c ∷ c' ∷ l) p r got e d = omega (arith, got_length 2 r got e d)

finite_calls :
    (log : List PoolCall) (c : PoolCall) → still_to_come (log ++ c ∷ []) ≤ still_to_come log
finite_calls [] c = omega arith
finite_calls (c' ∷ l) c = omega arith

finite-IsFinite : IsFinite finite_services still_to_come
finite-IsFinite = record { answers = finite_answers; calls = finite_calls }

on_workflow_task_started-terminates_example :
    (q : Exit demo_vendor (Unit {0}) × Workflow demo_vendor) × (on_workflow_task_started
        finite_services 3 queued_workflow
      ≡ some q)
    × Ended finite_services queued_workflow (some q)
unfolding new_workflow_definition
on_workflow_task_started-terminates_example =
    on_workflow_task_started-terminates finite_services still_to_come finite-IsFinite 3
      queued_workflow (omega arith)

abbrev demo_results : List (ℕ × Outcome demo_vendor)
demo_results =
    (7, record { result = some (1 ∷ []); err = none })
    ∷ (8, record { result = none; err = some 4 })
    ∷ []

arrive-answers_example :
    (arrive demo_results idle_workflow ≡ record idle_workflow { callbacks = demo_results })
    × ((run_callbacks demo_results (arrive demo_results idle_workflow)).mq.queue
        ≡ idle_workflow.mq.queue ++ map answer_to demo_results)
    × All
        (λ p. (run_callbacks demo_results (arrive demo_results idle_workflow)).canceller p.0 ≡ none)
        demo_results
unfolding new_workflow_definition
arrive-answers_example = arrive-answers demo_results idle_workflow refl refl

run_update-Verdict_example :
    Verdict demo_services demo_update false queued_workflow.env_log
      (run_update demo_services demo_update queued_workflow)
run_update-Verdict_example = run_update-Verdict demo_services demo_update queued_workflow

execute-Starts_example :
    ((execute demo_services (some 2) (some (1 ∷ [])) queued_workflow).0 ≡ returns tt)
    × Starts demo_services
        (some 2)
        (some (1 ∷ []))
        (execute demo_services (some 2) (some (1 ∷ [])) queued_workflow).1
    × ((id : ℕ)
        → (execute demo_services (some 2) (some (1 ∷ [])) queued_workflow).1.canceller id ≡ none)
    × ((execute demo_services (some 2) (some (1 ∷ [])) queued_workflow).1.updates_queue ≡ [])
execute-Starts_example = execute-Starts demo_services (some 2) (some (1 ∷ [])) queued_workflow refl
