-- ===== src/Tests/Calls.antt =====
-- A run of the calls of rpc.go on a history of two events.
use roadrunner_temporal.Base.{ℕ, ◌≡◌, ◌↔◌, none, some, [], ◌∷◌, false}
use roadrunner_temporal.Base.Int.{pos}
use roadrunner_temporal.Errors.{ok}
use roadrunner_temporal.Rpc.{
  ReplayRequest, RpcServices, pass, replay_workflow, download_workflow_history,
}
use roadrunner_temporal.Rpc.Answers.{Replayed, Downloaded, replay_workflow-Replayed}
use roadrunner_temporal.Tests.{demo_vendor}

abbrev demo_rpc : RpcServices demo_vendor
demo_rpc = record {
  Client = ℕ;
  Definition = ℕ;
  Event = ℕ;
  history = λ client x. ok 1 ∷ ok 2 ∷ [];
  replay = λ d name events. none;
  replay_file = λ d name path. none;
  replay_partial_file = λ d name path last. none;
  create = λ path. none;
  marshal = λ events. ok events;
  write = λ path bytes. none;
  show = λ e. "error";
  unmarshal_payloads = λ bytes. ok bytes;
  is_done = λ ctx. false;
}

abbrev demo_request : ReplayRequest
demo_request = record {
  workflow_execution = some (record { workflow_id = "order-1"; run_id = "run" });
  workflow_type = some "order";
  save_path = "history.json";
  last_event_id = pos 0;
}

replay_workflow-Replayed_example :
    ((replay_workflow demo_rpc demo_request (some 4) (some 3) ≡ pass tt)
      ↔ Replayed demo_rpc demo_request (some 4) (some 3))
    × ((download_workflow_history demo_rpc demo_request (some 4) ≡ pass tt)
        ↔ Downloaded demo_rpc demo_request (some 4))
replay_workflow-Replayed_example = replay_workflow-Replayed demo_rpc demo_request (some 4) (some 3)
