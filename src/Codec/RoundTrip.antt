-- ===== src/Codec/RoundTrip.antt =====
-- Encoding by internal/codec/proto/proto.go, then decoding.
use roadrunner_temporal.Base.{
  String, ◌≡◌, refl, sym, ap, ◌∙◌, inl, inr, ◌≢◌, Option, none, some, List, [], ◌∷◌, ◌++◌, map, All,
  append-nil, append_assoc, arith,
}
use roadrunner_temporal.Vendor.{Vendor}
use roadrunner_temporal.Errors.{ok, ◌>>=◌, >>=-ok, ok-injective, Result-cases}
use roadrunner_temporal.Payload.{Bytes, Payload}
use roadrunner_temporal.Protocol.{Command, Dynamic, value, pointer, foreign, Message, Context}
use roadrunner_temporal.Protocol.Names.{name_of, command_name, init_command}
use roadrunner_temporal.Protocol.Names.Laws.{Receivable, Reads, Receivable-Reads}
use roadrunner_temporal.Codec.{
  ProtoMessage, Wire, pack_command, pack_message, pack_messages, write_frame, encode, parse_command,
  parse_message, parse_messages, decode_body, decode,
}

-- What the codec relies on in its libraries: protobuf reads back what it wrote, and writes no
-- frame of a message as no bytes; JSON restores a command of `Kept` over the zero value of its struct,
-- which is what `InitCommand` makes for its name. `Kept` are the commands of which JSON loses nothing:
-- it leaves an unexported field out, as in the info of `StartWorkflow`, and an empty list that is
-- marked `omitempty` comes back as nil.
pub record IsFaithful {v : Vendor} {Options : Type 0} (w : Wire v Options)
    (Kept : Command v → Type 0) : Type 0 where
  pub frame_read :
      (fs : List (ProtoMessage v))
      → (w.marshal_frame fs).1 ≡ none
      → w.unmarshal_frame (w.marshal_frame fs).0 ≡ ok fs
  pub frame_nonempty :
      (f : ProtoMessage v) (fs : List (ProtoMessage v))
      → (w.marshal_frame (f ∷ fs)).1 ≡ none
      → (w.marshal_frame (f ∷ fs)).0 ≢ []
  pub value_read :
      (c z : Command v) (n : String) (b : Bytes)
      → Kept c
      → name_of c ≡ some n
      → init_command v n ≡ ok (pointer z)
      → w.marshal_command (value c) ≡ ok b
      → w.unmarshal_command b (pointer z) ≡ ok (some (pointer c))
  pub pointer_read :
      (c z : Command v) (n : String) (b : Bytes)
      → Kept c
      → name_of c ≡ some n
      → init_command v n ≡ ok (pointer z)
      → w.marshal_command (pointer c) ≡ ok b
      → w.unmarshal_command b (pointer z) ≡ ok (some (pointer c))

-- A response, or a command that a reader knows and of which JSON loses nothing.
abbrev pub Sendable : {v : Vendor} → (Command v → Type 0) → Option (Dynamic v) → Type 0
Sendable Kept none = Unit {0}
Sendable Kept (some (value c)) = Receivable c × Kept c
Sendable Kept (some (pointer c)) = Receivable c × Kept c
Sendable Kept (some (foreign _)) = ⊥

-- A message as the reader has it: a command is a pointer.
abbrev pub as_pointer : {v : Vendor} → Option (Dynamic v) → Option (Dynamic v)
as_pointer (some (value c)) = some (pointer c)
as_pointer d = d

abbrev pub received : {v : Vendor} → Message v → Message v
received m = record m { command = as_pointer m.command }

module _ {v : Vendor} {Options : Type 0} (w : Wire v Options) (Kept : Command v → Type 0)
    (f : IsFaithful w Kept) where
  -- A named command, marshalled and read over the zero value of its struct.
  parse_named :
      (c : Command v) (d : Dynamic v) (p : String × Bytes)
      → (r : (n : String) × (z : Command v) × Reads c z n)
      → ((z : Command v) (n : String) (b : Bytes)
          → name_of c ≡ some n
          → init_command v n ≡ ok (pointer z)
          → w.marshal_command d ≡ ok b
          → w.unmarshal_command b (pointer z) ≡ ok (some (pointer c)))
      → (w.marshal_command d >>= λ options. ok (r.0, options)) ≡ ok p
      → parse_command w p.0 p.1 ≡ ok (some (pointer c))
  parse_named c d p (n, z, (named, filled, inits, same)) reads h =
      let (b, written, e) = >>=-ok (w.marshal_command d) _ h in
      rw (← ok-injective e) (rw (filled, inits, reads z n b named inits written))

  parse-pack_command :
      (d : Option (Dynamic v))
      → Sendable Kept d
      → (p : String × Bytes) → pack_command w d ≡ ok p
      → parse_command w p.0 p.1 ≡ ok (as_pointer d)
  unfolding command_name
  parse-pack_command none s p h = rw (← ok-injective h)
  parse-pack_command (some (foreign t)) s p h = elim s [ ]
  parse-pack_command (some (value c)) s p h =
      let r = Receivable-Reads c s.0 in
      parse_named c (value c) p r (λ z n b. f.value_read c z n b s.1) (rw (r.2.0) at h)
  parse-pack_command (some (pointer c)) s p h =
      let r = Receivable-Reads c s.0 in
      parse_named c (pointer c) p r (λ z n b. f.pointer_read c z n b s.1) (rw (r.2.0) at h)

  parse-pack_message :
      (ctx : Context) (m : Message v)
      → Sendable Kept m.command
      → (pm : ProtoMessage v) → pack_message w m ctx ≡ ok pm
      → parse_message w pm ≡ ok (received m)
  unfolding pack_message parse_message
  parse-pack_message ctx m s pm h =
      let (p, packed, e) = >>=-ok (pack_command w m.command) _ h in
      rw (← ok-injective e) (rw (parse-pack_command m.command s p packed))

  parse-pack_messages :
      (ctx : Context) (ms acc : List (Message v))
      → All (λ m. Sendable Kept m.command) ms
      → (fs : List (ProtoMessage v)) → pack_messages w ctx ms ≡ ok fs
      → parse_messages w fs acc ≡ (acc ++ map received ms, none)
  unfolding pack_messages parse_messages
  parse-pack_messages ctx [] acc s fs h = rw (← ok-injective h, append-nil acc)
  parse-pack_messages ctx (m ∷ ms) acc s fs h =
      let (pm, packed, h') = >>=-ok (pack_message w m ctx) _ h in
      let (rest, packs, e) = >>=-ok (pack_messages w ctx ms) _ h' in
      rw (← ok-injective e) (
        rw (parse-pack_message ctx m s.0 pm packed, parse_messages)
          (parse-pack_messages ctx ms (acc ++ received m ∷ []) s.1 rest packs
            ∙ ap (λ l. (l, none)) (append_assoc acc (received m ∷ []) (map received ms))))

  written :
      (ctx : Context) (fs : List (ProtoMessage v)) (p : Payload) {q : Payload}
      → write_frame w ctx fs p ≡ (q, none)
      → ((w.marshal_frame fs).1 ≡ none) × (q.body ≡ (w.marshal_frame fs).0)
  unfolding write_frame
  written ctx fs p h = ground arith

  decode_nonempty :
      (b : Bytes) (fs : List (ProtoMessage v)) (acc : List (Message v))
      → b ≢ []
      → w.unmarshal_frame b ≡ ok fs
      → decode_body w b acc ≡ parse_messages w fs acc
  decode_nonempty [] fs acc n h = absurd (n refl)
  decode_nonempty (x ∷ xs) fs acc n h = rw (h, decode_body)

  decode_written :
      (m : Message v) (ctx : Context) (ms acc : List (Message v)) (p q : Payload)
      → (fs : List (ProtoMessage v)) → pack_messages w ctx (m ∷ ms) ≡ ok fs
      → ((w.marshal_frame fs).1 ≡ none) × (q.body ≡ (w.marshal_frame fs).0)
      → decode w q acc ≡ parse_messages w fs acc
  unfolding decode pack_messages
  decode_written m ctx ms acc p q fs packs (fine, e) =
      let (pm, _, h') = >>=-ok (pack_message w m ctx) _ packs in
      let (rest, _, same) = >>=-ok (pack_messages w ctx ms) _ h' in
      let full : fs ≡ pm ∷ rest = sym (ok-injective same) in
      rw e (
        decode_nonempty (w.marshal_frame fs).0 fs acc
          (λ none_left. f.frame_nonempty pm rest (rw full at fine) (rw full at none_left))
          (f.frame_read fs fine))

  -- If a batch of responses and of commands that a reader knows and of which JSON loses nothing is
  -- encoded with no error, then decoding the payload appends exactly that batch, in order, each command
  -- as a pointer. It rests on protobuf's reading back what it wrote, and on JSON's restoring those
  -- commands over the zero values of their structs.
  pub decode-encode :
      (ctx : Context) (p : Payload) (m : Message v) (ms acc : List (Message v)) {q : Payload}
      → All (λ m. Sendable Kept m.command) (m ∷ ms)
      → encode w ctx p (m ∷ ms) ≡ (q, none)
      → decode w q acc ≡ (acc ++ map received (m ∷ ms), none)
  unfolding encode
  decode-encode ctx p m ms acc {q} s h = elim (Result-cases (pack_messages w ctx (m ∷ ms))) [
    | inr (e, failed) ↦ absurd (ground arith)
    | inl (fs, packs) ↦
        decode_written m ctx ms acc p q fs packs (written ctx fs p (rw (packs, encode) at h))
        ∙ parse-pack_messages ctx (m ∷ ms) acc s fs packs
  ]
