-- ===== src/Tests/Wire.antt =====
-- Runs of the codec of internal/codec/proto on a small wire that writes one timer command.
use roadrunner_temporal.Base.{
  ℕ, ◌≡◌, ◌≢◌, refl, sym, ap, Bool, true, false, Option, none, some, List, [], ◌∷◌, ◌++◌, All, inl,
  inr, map, arith, str_eq, eq_iff, if◌then◌else◌, Bool-cases, subst,
}
use roadrunner_temporal.Base.Int.{pos}
use roadrunner_temporal.Errors.{GoError, Result, ok, err, str, ok-injective}
use roadrunner_temporal.Payload.{Bytes, Payload, new_payload}
use roadrunner_temporal.Protocol.{
  Command, new_timer, Dynamic, value, pointer, foreign, Message, Context, is_empty,
}
use roadrunner_temporal.Protocol.Names.{command_name}
use roadrunner_temporal.Codec.{
  ProtoMessage, Wire, WorkerInfo, encode, decode, pack_message, pack_messages, write_frame,
  parse_message, parse_messages, decode_worker_info, read_infos,
}
use roadrunner_temporal.Codec.RoundTrip.{IsFaithful, received, decode-encode}
use roadrunner_temporal.Codec.Laws.{
  IsHosted, KeepsPointers, Confirms, encode_context, decode-IsHosted, decode_worker_info-Confirms,
}
use roadrunner_temporal.Workflow.{Workflow, Services, PoolCall, Reply, replied}
use roadrunner_temporal.Workflow.Lifecycle.{new_workflow_definition}
use roadrunner_temporal.Workflow.Exchange.Wired.{wired}
use roadrunner_temporal.Tests.{demo_environment, demo_vendor}

-- A timer of `n` milliseconds is written as `n`.
abbrev write_command : Command demo_vendor → Result demo_vendor Bytes
write_command (new_timer (pos n)) = ok (n ∷ [])
write_command _ = err (str "not written here")

abbrev write_dynamic : Dynamic demo_vendor → Result demo_vendor Bytes
write_dynamic (value c) = write_command c
write_dynamic (pointer c) = write_command c
write_dynamic (foreign t) = err (str "not written here")

abbrev read_command : Bytes → Result demo_vendor (Option (Dynamic demo_vendor))
read_command (n ∷ []) = ok (some (pointer (new_timer (pos n))))
read_command _ = err (str "not read here")

abbrev plain? : Option (List ℕ) → Option ℕ → Option ℕ → Bool
plain? none none none = true
plain? _ _ _ = false

abbrev writable : ProtoMessage demo_vendor → Bool
writable f =
    if str_eq f.command "NewTimer"
    then (if str_eq f.run_id "run" then plain? f.payloads f.failure f.header else false)
    else false

abbrev write_frames : List (ProtoMessage demo_vendor) → Bytes × Option (GoError demo_vendor)
write_frames (f ∷ []) =
    if writable f
    then (f.id ∷ f.history_length ∷ f.options, none)
    else ([], some (str "not written here"))
write_frames _ = ([], some (str "not written here"))

abbrev read_frames : Bytes → Result demo_vendor (List (ProtoMessage demo_vendor))
read_frames (id ∷ history_length ∷ options) = ok (
    record {
      id = id;
      command = "NewTimer";
      options = options;
      payloads = none;
      failure = none;
      header = none;
      history_length = history_length;
      run_id = "run";
    }
    ∷ [])
read_frames _ = err (str "not read here")

abbrev demo_wire : Wire demo_vendor (Unit {0})
demo_wire = record {
  show = λ d. "?";
  marshal_command = write_dynamic;
  marshal_context = λ ctx. (ctx.history_len ∷ [], none);
  marshal_frame = write_frames;
  unmarshal_frame = read_frames;
  unmarshal_command = λ b d. read_command b;
  from_payload = λ p. ok (record {
    task_queue = "default";
    options = tt;
    php_sdk_version = "2";
    workflows = [];
    activities = [];
  });
}

command_read :
    (c : Command demo_vendor) (b : Bytes)
    → write_command c ≡ ok b
    → read_command b ≡ ok (some (pointer c))
command_read (new_timer (pos n)) b h = rw (← ok-injective h)
command_read _ b h = cc

plain-parts :
    (p : Option (List ℕ)) (f h : Option ℕ)
    → plain? p f h ≡ true
    → (p ≡ none) × (f ≡ none) × (h ≡ none)
plain-parts none none none e = (refl, refl, refl)
plain-parts _ _ _ e = absurd cc

writable-parts :
    (f : ProtoMessage demo_vendor)
    → writable f ≡ true
    → f ≡ record {
      id = f.id;
      command = "NewTimer";
      options = f.options;
      payloads = none;
      failure = none;
      header = none;
      history_length = f.history_length;
      run_id = "run";
    }
writable-parts f h = elim (Bool-cases (str_eq f.command "NewTimer")) [
  | inr e ↦ absurd (ground arith)
  | inl c ↦ elim (Bool-cases (str_eq f.run_id "run")) [
    | inr e ↦ absurd (ground arith)
    | inl r ↦
        let (p, fl, hd) = plain-parts f.payloads f.failure f.header (ground arith) in
        λ i. record f {
          command = (eq_iff f.command "NewTimer").0 c i;
          run_id = (eq_iff f.run_id "run").0 r i;
          payloads = p i;
          failure = fl i;
          header = hd i;
        }
  ]
]

frames_read :
    (fs : List (ProtoMessage demo_vendor))
    → (write_frames fs).1 ≡ none
    → read_frames (write_frames fs).0 ≡ ok fs
frames_read (f ∷ []) h = elim (Bool-cases (writable f)) [
  | inl w ↦ rw w (ap (λ (f : ProtoMessage demo_vendor). ok (f ∷ [])) (sym (writable-parts f w)))
  | inr w ↦ absurd (ground arith)
]
frames_read _ h = absurd cc

frames_nonempty :
    (f : ProtoMessage demo_vendor) (fs : List (ProtoMessage demo_vendor))
    → (write_frames (f ∷ fs)).1 ≡ none
    → (write_frames (f ∷ fs)).0 ≢ []
frames_nonempty f [] h e = elim (Bool-cases (writable f)) [
  | inl w ↦ ground arith
  | inr w ↦ ground arith
]
frames_nonempty f (g ∷ fs) h e = cc

-- The small wire loses nothing of a timer that is not negative.
abbrev IsTimer : Command demo_vendor → Type 0
IsTimer (new_timer (pos n)) = Unit
IsTimer _ = ⊥

demo_wire-IsFaithful : IsFaithful demo_wire IsTimer
demo_wire-IsFaithful = record {
  frame_read = frames_read;
  frame_nonempty = frames_nonempty;
  value_read = λ c z n b kept named inits h. command_read c b h;
  pointer_read = λ c z n b kept named inits h. command_read c b h;
}

abbrev demo_context : Context
demo_context = record {
  task_queue = "default";
  tick_time = "now";
  replay = false;
  history_len = 3;
  rr_id = "run";
}

abbrev demo_message : Message demo_vendor
demo_message = record {
  id = 7;
  command = some (value (new_timer (pos 250)));
  failure = none;
  payloads = none;
  header = none;
}

abbrev demo_payload : Payload
demo_payload = record { codec = 0; context = 3 ∷ []; body = 7 ∷ 3 ∷ 250 ∷ []; flags = 0 }

encoded : encode demo_wire demo_context new_payload (demo_message ∷ []) ≡ (demo_payload, none)
unfolding encode pack_messages pack_message command_name write_frame is_empty
encoded = refl

decode-encode_example :
    decode demo_wire demo_payload [] ≡ ([] ++ map received (demo_message ∷ []), none)
decode-encode_example =
    decode-encode demo_wire IsTimer demo_wire-IsFaithful demo_context new_payload demo_message [] []
      ((tt, tt), tt) encoded

encode_context_example : demo_payload.context ≡ (demo_wire.marshal_context demo_context).0
encode_context_example = encode_context demo_wire demo_context new_payload demo_message [] encoded

demo-KeepsPointers : KeepsPointers demo_wire
demo-KeepsPointers (n ∷ []) c d h = subst IsHosted (ok-injective h) tt
demo-KeepsPointers _ c d h = absurd cc

decode-IsHosted_example : All (λ m. IsHosted m.command) (decode demo_wire demo_payload []).0
decode-IsHosted_example = decode-IsHosted demo_wire demo-KeepsPointers demo_payload [] tt

-- A wire that reads one answer to `GetWorkerInfo`.
abbrev info_wire : Wire demo_vendor (Unit {0})
info_wire = record demo_wire {
  unmarshal_frame = λ b. ok (
      record {
        id = 0;
        command = "";
        options = [];
        payloads = some (1 ∷ []);
        failure = none;
        header = none;
        history_length = 0;
        run_id = "";
      }
      ∷ []);
}

abbrev demo_info : WorkerInfo (Unit {0})
demo_info = record {
  task_queue = "default";
  options = tt;
  php_sdk_version = "2";
  workflows = [];
  activities = [];
}

informed : decode_worker_info info_wire demo_payload [] ≡ (demo_info ∷ [], none)
unfolding decode_worker_info decode parse_messages parse_message read_infos
informed = refl

decode_worker_info-Confirms_example :
    ((decode info_wire demo_payload []).1 ≡ none)
    × Confirms info_wire (decode info_wire demo_payload []).0 [] (demo_info ∷ [])
decode_worker_info-Confirms_example = decode_worker_info-Confirms info_wire demo_payload [] informed

abbrev wired_workflow : Workflow demo_vendor
wired_workflow = record (new_workflow_definition "run" 40) {
  mq = record { counter = 41; queue = demo_message ∷ [] };
}

abbrev echo : List PoolCall → Reply demo_vendor
echo log = replied demo_payload

abbrev wired_services : Services demo_vendor
wired_services = wired demo_wire demo_environment echo (λ flags. false) (λ n. "1")
