-- ===== src/Workflow/Frame.antt =====
-- What the methods of aggregatedpool leave alone, as relations from before a call to after it.
use roadrunner_temporal.Base.{
  ℕ, ◌≡◌, refl, sym, ap, ◌∙◌, true, none, List, [], ◌++◌, append-nil, append_assoc,
}
use roadrunner_temporal.Vendor.{Vendor}
use roadrunner_temporal.Protocol.{Message}
use roadrunner_temporal.Exec.Steps.{IsPreorder}
use roadrunner_temporal.Workflow.{Workflow}

-- The pipeline only gets longer, at its end; inside the loop no callback is put off; and the loop
-- flag, the waiting updates and what `Execute` set stay.
pub record Grows {v : Vendor} (w w' : Workflow v) : Type 0 where
  pub in_loop : w'.in_loop ≡ w.in_loop
  pub updates : w'.updates_queue ≡ w.updates_queue
  pub header : w'.header ≡ w.header
  pub rr_id : w'.rr_id ≡ w.rr_id
  pub callbacks : w.in_loop ≡ true → w'.callbacks ≡ w.callbacks
  pub pipeline : (ms : List (Message v)) × (w'.pipeline ≡ w.pipeline ++ ms)

-- Besides, nothing is registered with the canceller.
pub record Loses {v : Vendor} (w w' : Workflow v) : Type 0 where
  pub grows : Grows w w'
  pub canceller : (id : ℕ) → w.canceller id ≡ none → w'.canceller id ≡ none

-- Besides, the environment is not called.
pub record Keeps {v : Vendor} (w w' : Workflow v) : Type 0 where
  pub loses : Loses w w'
  pub env_log : w'.env_log ≡ w.env_log

module _ {v : Vendor} where
  pub Grows-refl : (w : Workflow v) → Grows w w
  Grows-refl w = record {
    in_loop = refl;
    updates = refl;
    header = refl;
    rr_id = refl;
    callbacks = λ l. refl;
    pipeline = ([], sym (append-nil w.pipeline));
  }

  pub Grows-trans : (w x y : Workflow v) → Grows w x → Grows x y → Grows w y
  Grows-trans w x y a b = record {
    in_loop = b.in_loop ∙ a.in_loop;
    updates = b.updates ∙ a.updates;
    header = b.header ∙ a.header;
    rr_id = b.rr_id ∙ a.rr_id;
    callbacks = λ l. b.callbacks (a.in_loop ∙ l) ∙ a.callbacks l;
    pipeline = (
      a.pipeline.0 ++ b.pipeline.0,
      b.pipeline.1
          ∙ ap (λ (t : List (Message v)). t ++ b.pipeline.0) a.pipeline.1
          ∙ append_assoc w.pipeline a.pipeline.0 b.pipeline.0,
    );
  }

  pub Loses-refl : (w : Workflow v) → Loses w w
  Loses-refl w = record { grows = Grows-refl w; canceller = λ id e. e }

  pub Loses-trans : (w x y : Workflow v) → Loses w x → Loses x y → Loses w y
  Loses-trans w x y a b = record {
    grows = Grows-trans w x y a.grows b.grows;
    canceller = λ id e. b.canceller id (a.canceller id e);
  }

  pub Keeps-refl : (w : Workflow v) → Keeps w w
  Keeps-refl w = record { loses = Loses-refl w; env_log = refl }

  pub Keeps-trans : (w x y : Workflow v) → Keeps w x → Keeps x y → Keeps w y
  Keeps-trans w x y a b = record {
    loses = Loses-trans w x y a.loses b.loses;
    env_log = b.env_log ∙ a.env_log;
  }

  pub Grows-preorder : IsPreorder {S = Workflow v} Grows
  Grows-preorder = record { same = Grows-refl; both = Grows-trans }

  pub Loses-preorder : IsPreorder {S = Workflow v} Loses
  Loses-preorder = record { same = Loses-refl; both = Loses-trans }

  pub Keeps-preorder : IsPreorder {S = Workflow v} Keeps
  Keeps-preorder = record { same = Keeps-refl; both = Keeps-trans }
