-- ===== src/Tests/Bus.antt =====
-- Runs of the names and parameters of the protocol, the queue, the canceller and the registry.
use roadrunner_temporal.Base.{
  ℕ, ◌≤◌, String, ◌≡◌, refl, false, none, some, List, [], ◌∷◌, All, ◌⊎◌, arith, length,
}
use roadrunner_temporal.Base.Int.{pos, negsuc}
use roadrunner_temporal.Errors.{ok}
use roadrunner_temporal.Protocol.{
  new_timer, undefined_response, Dynamic, value, pointer, WorkflowInfo, ActivityOptions,
  LocalActivityOptions, ChildOptions,
}
use roadrunner_temporal.Protocol.Names.{command_name, init_command, zero_commands}
use roadrunner_temporal.Protocol.Names.Laws.{command_name-init_command}
use roadrunner_temporal.Protocol.Params.{
  to_duration, activity_params, local_activity_params, workflow_params,
}
use roadrunner_temporal.Protocol.Params.Laws.{exact, Chosen, to_duration-exact, params_complete}
use roadrunner_temporal.Base.Int.{is_zero}
use roadrunner_temporal.Queue.{new_message_queue}
use roadrunner_temporal.Queue.Order.{Op, responds, commands, run, Ordered, run-Ordered}
use roadrunner_temporal.Registry.{IdRegistry, new_registry, listen, push}
use roadrunner_temporal.Registry.Delivery.{
  Race, listens, pushes, before, finished, at_phases, race, advance, race-delivers, listen-push,
}
use roadrunner_temporal.Tests.{demo_vendor}

abbrev zero_timer : Dynamic demo_vendor
zero_timer = pointer (new_timer (pos 0))

abbrev undefined : Dynamic demo_vendor
undefined = pointer (undefined_response "")

abbrev timer_name : String
timer_name = "NewTimer"

command_name-init_command_example :
    (command_name {v = demo_vendor} (λ d. "?") zero_timer ≡ ok timer_name)
    ⊎ ((timer_name ≡ "UndefinedResponse") × (zero_timer ≡ undefined))
unfolding init_command zero_commands
command_name-init_command_example = command_name-init_command (λ d. "?") timer_name refl

to_duration-exact_example : to_duration (negsuc 4999) ≡ exact (negsuc 4999)
to_duration-exact_example = to_duration-exact (negsuc 4999) (omega arith)

abbrev demo_ops : List (Op demo_vendor)
demo_ops =
    commands (value (new_timer (pos 1))) none none
    ∷ responds 3 none
    ∷ commands (value (new_timer (pos 2))) none none
    ∷ []

run-Ordered_example : let mq = run demo_ops (new_message_queue 40) in Ordered 40 mq.queue mq.counter
run-Ordered_example = run-Ordered 40 demo_ops (omega arith)

abbrev raced : Race String ℕ
raced =
    race 6 50 "child" (listens ∷ pushes ∷ pushes ∷ listens ∷ [])
      (at_phases before before new_registry [])

listen_finishes : raced.listen_phase ≡ finished
unfolding race advance
listen_finishes = refl

push_finishes : raced.push_phase ≡ finished
unfolding race advance
push_finishes = refl

race-delivers_example :
    (1 ≤ length raced.notices)
    × (length raced.notices ≤ 2)
    × All (λ n. n ≡ (50, "child")) raced.notices
race-delivers_example =
    race-delivers 6 50 "child" (listens ∷ pushes ∷ pushes ∷ listens ∷ []) new_registry raced refl
      refl refl listen_finishes push_finishes

abbrev child_registry : IdRegistry String ℕ
child_registry = new_registry

listen-push_example :
    ((listen 6 50 child_registry).0 ≡ none)
    × ((push 6 "child" (listen 6 50 child_registry).1).0 ≡ some (50, "child"))
    × ((push 6 "child" child_registry).0 ≡ none)
    × ((listen 6 50 (push 6 "child" child_registry).1).0 ≡ some (50, "child"))
    × ((push 6 "child" (listen 6 50 child_registry).1).1
        ≡ (listen 6 50 (push 6 "child" child_registry).1).1)
listen-push_example = listen-push 6 50 "child" child_registry refl refl

abbrev demo_workflow_info : WorkflowInfo demo_vendor
demo_workflow_info = record {
  task_queue_name = "default";
  run_id = "run";
  history_length = 3;
  rest = tt;
}

abbrev demo_activity : ActivityOptions demo_vendor
demo_activity = record { task_queue_name = ""; rest = tt }

abbrev demo_local : LocalActivityOptions demo_vendor
demo_local = record {
  schedule_to_close_timeout = pos 0;
  start_to_close_timeout = pos 5;
  retry_policy = none;
}

abbrev demo_child : ChildOptions demo_vendor
demo_child = record { task_queue_name = "other"; workflow_id = ""; namespace = ""; rest = tt }

abbrev greet : String
greet = "greet"

params_complete_example :
    let a = activity_params demo_workflow_info greet demo_activity (some (1 ∷ [])) none in
    let b = local_activity_params demo_workflow_info greet demo_local (some (1 ∷ [])) none in
    let d = workflow_params demo_workflow_info greet demo_child (some (1 ∷ [])) none in
    Chosen "" "default" a.options.task_queue_name
    × Chosen "other" "default" d.options.task_queue_name
    × (is_zero b.start_to_close_timeout ≡ false)
    × (is_zero b.schedule_to_close_timeout ≡ false)
    × (a.input ≡ some (1 ∷ []))
    × (b.input ≡ some (1 ∷ []))
    × (d.input ≡ some (1 ∷ []))
    × (a.header ≡ none)
    × (b.header ≡ none)
    × (d.header ≡ none)
    × (a.activity_type ≡ greet)
    × (b.activity_type ≡ greet)
    × (d.workflow_type ≡ greet)
params_complete_example =
    params_complete demo_workflow_info greet (some (1 ∷ [])) none demo_activity demo_local
      demo_child
