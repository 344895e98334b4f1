-- ===== src/Workflow/Lifecycle/Asked.antt =====
-- What a workflow answers when it is inspected: `StackTrace` of aggregatedpool/workflow.go, and the
-- query handler of aggregatedpool/handler.go.
use roadrunner_temporal.Base.{String, ◌≡◌, Option, none, some, [], ◌∷◌}
use roadrunner_temporal.Vendor.{Vendor}
use roadrunner_temporal.Errors.{Result, ok, err, fault, wrap}
use roadrunner_temporal.Protocol.{Payloads, Message, Dynamic}
use roadrunner_temporal.Exec.{Exit, returns, stops, error, panics}
use roadrunner_temporal.Workflow.{Workflow, Services}
use roadrunner_temporal.Workflow.Exchange.Command.{Run, leak, allocated}
use roadrunner_temporal.Workflow.Lifecycle.{Trace, text, error_text}

module _ {v : Vendor} (s : Services v) where
  -- A way in which `runCommand` may end for a command, with what it leaves behind.
  abbrev pub Ran :
      Dynamic v
      → Option (Payloads v)
      → Option v.Header
      → Workflow v
      → Exit v (Message v) × Workflow v
      → Type 0
  Ran c payloads header w x =
      let (m, w') = allocated s c payloads header w in Run s w' (m ∷ []) (leak s w' (m ∷ [])) x

  -- The answer to a query: the payloads of the worker's message, or the error that its failure stands
  -- for, or the error of the exchange.
  abbrev pub Judged : Option v.Failure → Option (Payloads v) → Exit v (Option (Payloads v)) → Type 0
  Judged none payloads r = r ≡ returns payloads
  Judged (some f) payloads r =
      r ≡ stops (error (wrap "workflow_process_handle_query" (fault (v.failure_to_error f))))

  abbrev pub Queried : Exit v (Message v) → Exit v (Option (Payloads v)) → Type 0
  Queried (returns m) r = Judged m.failure m.payloads r
  Queried (stops (error e)) r = r ≡ stops (error (wrap "workflow_process_handle_query" e))
  Queried (stops (panics p)) r = ⊥

  abbrev pub Ends :
      {A B : Type 0}
      → (Exit v A → Exit v B → Type 0)
      → Exit v A × Workflow v
      → Exit v B × Workflow v
      → Type 0
  Ends Says x r = Says x.0 r.0 × (r.1 ≡ x.1)

  -- The text for what the data converter makes of the first payload.
  abbrev pub Reads : Result v String → Exit v (Trace s) → Type 0
  Reads (ok t) r = r ≡ returns (text t)
  Reads (err e) r = r ≡ returns (error_text e)

  abbrev pub Shows : Option (Payloads v) → Exit v (Trace s) → Type 0
  Shows none r = r ≡ returns (text "")
  Shows (some []) r = r ≡ returns (text "")
  Shows (some (p ∷ ps)) r = Reads (s.env.text_of p) r

  abbrev pub Traced : Exit v (Message v) → Exit v (Trace s) → Type 0
  Traced (returns m) r = Shows m.payloads r
  Traced (stops (error e)) r = r ≡ returns (error_text e)
  Traced (stops (panics p)) r = ⊥
