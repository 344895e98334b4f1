-- ===== src/Codec.antt =====
-- internal/codec/proto/proto.go: the codec between messages and the bytes that a worker reads.
-- The pool of frames is left out: `putFrame` resets a frame, and both users of one fill it anew.
-- A `result` that is nil is left out of `Decode` too: all of its callers pass the address of a slice.
pub mod RoundTrip
pub mod Laws
use roadrunner_temporal.Base.{
  ℕ, String, Bool, Option, none, some, List, [], ◌∷◌, ◌++◌, str_eq, if◌then◌else◌, ◌==◌,
}
use roadrunner_temporal.Vendor.{Vendor}
use roadrunner_temporal.Errors.{GoError, Result, ok, err, str, errord, wrap, wrap_err, ◌>>=◌, ◌>>◌}
use roadrunner_temporal.Payload.{Bytes, Payload}
use roadrunner_temporal.Protocol.{Command, Dynamic, Message, Context, Payloads, is_empty}
use roadrunner_temporal.Protocol.Names.{command_name, init_command}

-- `protocolV1.Message`, as far as the codec sets it.
pub record ProtoMessage (v : Vendor) : Type 0 where
  pub id : ℕ
  pub command : String
  pub options : Bytes
  pub payloads : Option (Payloads v)
  pub failure : Option v.Failure
  pub header : Option v.Header
  pub history_length : ℕ
  pub run_id : String

-- internal/worker_info.go. The worker options are the SDK's.
pub record WorkflowEntry : Type 0 where
  pub name : String
  pub queries : List String
  pub signals : List String

pub record ActivityEntry : Type 0 where
  pub name : String

pub record WorkerInfo (Options : Type 0) : Type 0 where
  pub task_queue : String
  pub options : Options
  pub php_sdk_version : String
  pub workflows : List WorkflowEntry
  pub activities : List ActivityEntry

-- The libraries behind the codec: JSON, protobuf, `%s`, and the payload converter. A call returns
-- its value and its error, as in Go. `unmarshal_command b d` decodes `b` over the variable that
-- holds `d`; a JSON null makes that variable nil.
pub record Wire (v : Vendor) (Options : Type 0) : Type 0 where
  pub show : Dynamic v → String
  pub marshal_command : Dynamic v → Result v Bytes
  pub marshal_context : Context → Bytes × Option (GoError v)
  pub marshal_frame : List (ProtoMessage v) → Bytes × Option (GoError v)
  pub unmarshal_frame : Bytes → Result v (List (ProtoMessage v))
  pub unmarshal_command : Bytes → Dynamic v → Result v (Option (Dynamic v))
  pub from_payload : v.Payload → Result v (WorkerInfo Options)

-- `[]byte("null")`.
abbrev pub null_bytes : Bytes
null_bytes = b'n' ∷ b'u' ∷ b'l' ∷ b'l' ∷ []

module _ {v : Vendor} {Options : Type 0} (w : Wire v Options) where
  abbrev pub pack_command : Option (Dynamic v) → Result v (String × Bytes)
  pack_command none = ok ("", [])
  pack_command (some c) = do
    name ← command_name w.show c
    options ← w.marshal_command c
    ok (name, options)

  unfoldable pub pack_message : Message v → Context → Result v (ProtoMessage v)
  pack_message msg ctx = pack_command msg.command >>= λ packed. ok (record {
    id = msg.id;
    command = packed.0;
    options = packed.1;
    payloads = msg.payloads;
    failure = msg.failure;
    header = msg.header;
    history_length = ctx.history_len;
    run_id = ctx.rr_id;
  })

  -- The loop of `Encode`.
  unfoldable pub pack_messages : Context → List (Message v) → Result v (List (ProtoMessage v))
  pack_messages ctx [] = ok []
  pack_messages ctx (msg ∷ msgs) =
      let rest = pack_messages ctx msgs in pack_message msg ctx >>= λ m. rest >>= λ ms. ok (m ∷ ms)

  -- The end of `Encode`: the context, then the body.
  unfoldable pub write_frame :
      Context → List (ProtoMessage v) → Payload → Payload × Option (GoError v)
  write_frame ctx frame p =
      let p' = if is_empty ctx then record p { context = null_bytes } else p in
      let context = w.marshal_context ctx in
      let body = w.marshal_frame frame in
      let q = record p' { context = context.0 } in
      elim context.1 [
        | some e ↦ (q, some (wrap "encode_context" e))
        | none ↦ elim body.1 [
          | some e ↦ (record q { body = body.0 }, some (wrap "encode_payload" e))
          | none ↦ (record q { body = body.0 }, none)
        ]
      ]

  -- `Encode`: the payload that is left, and the error.
  unfoldable pub encode : Context → Payload → List (Message v) → Payload × Option (GoError v)
  encode ctx p [] = (p, none)
  encode ctx p (msg ∷ msgs) = elim (pack_messages ctx (msg ∷ msgs)) [
    | err e ↦ (p, some e)
    | ok frame ↦ write_frame ctx frame p
  ]

  abbrev pub parse_command : String → Bytes → Result v (Option (Dynamic v))
  parse_command name options = if str_eq name "" then ok none else do
    command ← wrap_err "proto_codec_parse_message" (init_command v name)
    wrap_err "proto_codec_parse_message" (w.unmarshal_command options command)

  unfoldable pub parse_message : ProtoMessage v → Result v (Message v)
  parse_message frame = parse_command frame.command frame.options >>= λ c. ok (record {
    id = frame.id;
    command = c;
    failure = frame.failure;
    payloads = frame.payloads;
    header = frame.header;
  })

  -- The loop of `Decode`: what was parsed before an error stays in the result.
  unfoldable pub parse_messages :
      List (ProtoMessage v) → List (Message v) → List (Message v) × Option (GoError v)
  parse_messages [] result = (result, none)
  parse_messages (f ∷ fs) result = elim (parse_message f) [
    | err e ↦ (result, some e)
    | ok msg ↦ parse_messages fs (result ++ msg ∷ [])
  ]

  abbrev pub decode_body : Bytes → List (Message v) → List (Message v) × Option (GoError v)
  decode_body [] result = (result, none)
  decode_body (b ∷ bs) result = elim (w.unmarshal_frame (b ∷ bs)) [
    | err e ↦ (result, some (wrap "codec_parse_response" e))
    | ok frame ↦ parse_messages frame result
  ]

  unfoldable pub decode : Payload → List (Message v) → List (Message v) × Option (GoError v)
  decode pld result = decode_body pld.body result

  -- The loop of `DecodeWorkerInfo`.
  unfoldable pub read_infos :
      List v.Payload → List (WorkerInfo Options) → List (WorkerInfo Options) × Option (GoError v)
  read_infos [] wi = (wi, none)
  read_infos (p ∷ ps) wi = elim (w.from_payload p) [
    | err e ↦ (wi, some (wrap "workflow_fetch_wf_info" e))
    | ok info ↦ read_infos ps (wi ++ info ∷ [])
  ]

  -- `GetPayloads()`, which is nil on a nil message.
  abbrev pub get_payloads : Option (Payloads v) → List v.Payload
  get_payloads none = []
  get_payloads (some ps) = ps

  abbrev pub confirmed :
      List (Message v) → List (WorkerInfo Options) → List (WorkerInfo Options) × Option (GoError v)
  confirmed (msg ∷ []) wi = if msg.id == 0 then read_infos (get_payloads msg.payloads) wi else (
    wi,
    some (
        wrap "workflow_fetch_wf_info"
          (errord "fetch confirmation missing, need ID: 0, got: %d" msg.id)),
  )
  confirmed _ wi = (wi, some (wrap "workflow_fetch_wf_info" (str "unable to read worker info")))

  unfoldable pub decode_worker_info :
      Payload → List (WorkerInfo Options) → List (WorkerInfo Options) × Option (GoError v)
  decode_worker_info p wi =
      let info = decode p [] in elim info.1 [ some e ↦ (wi, some e) | none ↦ confirmed info.0 wi ]
