-- ===== src/Workflow/Handle/Cancelling.antt =====
-- Cancelling the pending commands of a workflow (aggregatedpool/handler.go with
-- canceller/canceller.go), and what a handler leaves alone.
use roadrunner_temporal.Base.{ℕ, refl, sym, [], ◌∷◌, ◌++◌, delete, arith, append-nil}
use roadrunner_temporal.Vendor.{Vendor}
use roadrunner_temporal.Canceller.Laws.{IsQuiet}
use roadrunner_temporal.Workflow.{Workflow, Services, EnvCall}
use roadrunner_temporal.Workflow.Frame.{Grows, Grows-preorder, Loses, Loses-preorder}
use roadrunner_temporal.Workflow.Callbacks.Moves.{Answering_map}
use roadrunner_temporal.Workflow.Callbacks.Laws.{Keeps-Answering}
use roadrunner_temporal.Workflow.Handle.{host}
use roadrunner_temporal.Workflow.Handle.Logging.{registered, responded, numbered}
use roadrunner_temporal.Workflow.Handle.Moves.{
  Cancelling, Cancelling_map, Handling, run_cancellable_moves,
}

module _ {v : Vendor} (s : Services v) where
  logged-Loses :
      (c : EnvCall v) (w : Workflow v) → Loses w (record w { env_log = w.env_log ++ c ∷ [] })
  logged-Loses c w = record {
    grows = record {
      in_loop = refl;
      updates = refl;
      header = refl;
      rr_id = refl;
      callbacks = λ l. refl;
      pipeline = ([], sym (append-nil w.pipeline));
    };
    canceller = λ j e. e;
  }

  discarded-Loses :
      (id : ℕ) (w : Workflow v) → Loses w (record w { canceller = delete id w.canceller })
  discarded-Loses id w = record {
    grows = record {
      in_loop = refl;
      updates = refl;
      header = refl;
      rr_id = refl;
      callbacks = λ l. refl;
      pipeline = ([], sym (append-nil w.pipeline));
    };
    canceller = λ j e. ground arith;
  }

  Loses-Cancelling : Cancelling s Loses
  Loses-Cancelling = record {
    answering = Answering_map s Loses-preorder (λ w w' k. k.loses) (Keeps-Answering s);
    logs = logged-Loses;
    discards = discarded-Loses;
  }

  -- Running a cancellable of a workflow registers nothing, whatever callbacks the environment runs
  -- meanwhile.
  pub host-IsQuiet : IsQuiet (host s)
  unfolding host
  host-IsQuiet = record {
    ids_with = λ m w. refl;
    call_removes = λ c w id e. ((run_cancellable_moves s Loses-Cancelling c).at w).canceller id e;
  }

  pub Grows-Handling : Handling s Grows
  Grows-Handling = record {
    cancelling = Cancelling_map s Grows-preorder (λ w w' k. k.grows) Loses-Cancelling;
    registers = λ id c w. (registered id c w).grows;
    responds = λ id p w. (responded id p w).grows;
    numbers = λ p w. (numbered p s w).grows;
  }
