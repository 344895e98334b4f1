-- ===== src/Queue.antt =====
-- queue/queue.go: the outgoing messages of a workflow. The generator `SeqID` is a function that
-- the queue is given, here with the state it keeps, `G`. The mutex is left out: an operation is one
-- step. A push returns a longer list; that `Flush` keeps the backing array is not modelled.
pub mod Order
use roadrunner_temporal.Base.{ℕ, ◌+◌, ◌%◌, Option, none, some, List, [], ◌∷◌, ◌++◌}
use roadrunner_temporal.Vendor.{Vendor}
use roadrunner_temporal.Protocol.{Dynamic, Message, Payloads}

pub record MessageQueue (v : Vendor) (G : Type 0) : Type 0 where
  pub counter : G
  pub queue : List (Message v)

module _ {v : Vendor} {G : Type 0} where
  -- `NewMessageQueue`.
  unfoldable pub new_message_queue : G → MessageQueue v G
  new_message_queue g = record { counter = g; queue = [] }

  unfoldable pub flush : MessageQueue v G → MessageQueue v G
  flush mq = record mq { queue = [] }

  unfoldable pub messages : MessageQueue v G → List (Message v)
  messages mq = mq.queue

  unfoldable pub push_response : ℕ → Option (Payloads v) → MessageQueue v G → MessageQueue v G
  push_response id payloads mq = record mq { queue = mq.queue ++ response ∷ [] }
    where
      response : Message v
      response = record {
        id = id;
        command = none;
        failure = none;
        payloads = payloads;
        header = none;
      }

  unfoldable pub push_error : ℕ → Option v.Failure → MessageQueue v G → MessageQueue v G
  push_error id failure mq = record mq { queue = mq.queue ++ response ∷ [] }
    where
      response : Message v
      response = record {
        id = id;
        command = none;
        failure = failure;
        payloads = none;
        header = none;
      }

  module _ (seq_id : G → ℕ × G) where
    -- `AllocateMessage` on a message that it overwrites: all fields but the failure.
    unfoldable pub allocate_message :
        Dynamic v
        → Option (Payloads v)
        → Option v.Header
        → Message v
        → MessageQueue v G
        → Message v × MessageQueue v G
    allocate_message cmd payloads header ret mq =
        let (id, g) = seq_id mq.counter in
        (
          record ret { id = id; command = some cmd; payloads = payloads; header = header },
          record mq { counter = g },
        )

    unfoldable pub push_command :
        Dynamic v → Option (Payloads v) → Option v.Header → MessageQueue v G → MessageQueue v G
    push_command cmd payloads header mq =
        let (id, g) = seq_id mq.counter in
        record {
          counter = g;
          queue =
              mq.queue
              ++ record {
                id = id;
                command = some cmd;
                failure = none;
                payloads = payloads;
                header = header;
              }
                ∷ [];
        }

-- `seq` of aggregatedpool/workflow.go: an atomic increment of a `uint64`, and its new value.
unfoldable pub seq : ℕ → ℕ × ℕ
seq n = let n' = (n + 1) % 18446744073709551616 in (n', n')
