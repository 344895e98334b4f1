-- ===== src/Tests/Activities.antt =====
-- A run of an activity of aggregatedpool whose worker answers with a payload.
use roadrunner_temporal.Base.{◌≡◌, ◌↔◌, false, none, some, [], ◌∷◌, ◌++◌, length}
use roadrunner_temporal.Errors.{ok}
use roadrunner_temporal.Protocol.{empty_message}
use roadrunner_temporal.Workflow.{replied}
use roadrunner_temporal.Activity.{Activity, ActivityContext, ActivityServices, heartbeat, execute}
use roadrunner_temporal.Exec.{returns}
use roadrunner_temporal.Activity.Answer.{Invoked, execute-Invoked}
use roadrunner_temporal.Activity.Running.{left_running, execute-Settled}
use roadrunner_temporal.LocalActivity.{
  LocalActivityFn, new_local_activity_fn, local_invocation, execute_local,
}
use roadrunner_temporal.LocalActivity.Served.{Served, Kept, execute_local-Served}
use roadrunner_temporal.Tests.{demo_vendor}

abbrev demo_activities : ActivityServices demo_vendor
demo_activities = record {
  codec = record {
    encode = λ ctx p ms. (record p { codec = 1 }, none);
    decode = λ p acc. (acc ++ empty_message demo_vendor ∷ [], none);
  };
  exec = λ l. replied (record { codec = length l; context = []; body = []; flags = 0 });
  is_stream = λ f. false;
  result_pending = 0;
}

abbrev demo_activity : ActivityContext demo_vendor
demo_activity = record {
  heartbeat_details = some (ok (3 ∷ []));
  info = record { activity_type = "greet"; task_queue = "default"; task_token = "a"; rest = tt };
  header = none;
}

abbrev idle_activities : Activity demo_vendor
idle_activities = record { seq_id = 0; running = λ t. none; lent = 0; pool_log = [] }

execute-Settled_example :
    ((execute demo_activities demo_activity (some (1 ∷ [])) idle_activities).1.running
      ≡ left_running demo_activities demo_activity
          (some (1 ∷ []))
          idle_activities
          (heartbeat demo_activity.heartbeat_details idle_activities))
    × ((execute demo_activities demo_activity (some (1 ∷ [])) idle_activities).1.lent
        ≡ idle_activities.lent)
execute-Settled_example =
    execute-Settled demo_activities demo_activity (some (1 ∷ [])) idle_activities

execute-Invoked_example :
    Invoked demo_activities demo_activity
      (some (1 ∷ []))
      idle_activities
      (heartbeat demo_activity.heartbeat_details idle_activities).0
      (execute demo_activities demo_activity (some (1 ∷ [])) idle_activities).0
execute-Invoked_example =
    execute-Invoked demo_activities demo_activity (some (1 ∷ [])) idle_activities

abbrev idle_local : LocalActivityFn demo_vendor
idle_local = new_local_activity_fn (some 2)

execute_local-Served_example :
    (((execute_local demo_activities demo_activity.info "uuid" (some (1 ∷ [])) idle_local).0
        ≡ returns none)
      ↔ Served demo_activities "default"
          (local_invocation demo_activity.info "uuid" (some (1 ∷ [])) idle_local)
          idle_local.pool_log
          none)
    × Kept demo_activities demo_activity.info "uuid"
        (some (1 ∷ []))
        idle_local
        (execute_local demo_activities demo_activity.info "uuid" (some (1 ∷ [])) idle_local).1
execute_local-Served_example =
    execute_local-Served demo_activities demo_activity.info "uuid" (some (1 ∷ [])) idle_local none
