-- ===== src/Codec/Laws.antt =====
-- What a call of internal/codec/proto/proto.go leaves, on every way that it can end.
use roadrunner_temporal.Base.{
  String, ◌≡◌, inl, inr, Option, none, some, List, [], ◌∷◌, ◌++◌, All, arith, append-nil,
  append_assoc, Option-cases, str_eq, Bool-cases, All-append, switch, ap, ◌∙◌, sym, ◌==◌,
}
use roadrunner_temporal.Vendor.{Vendor}
use roadrunner_temporal.Errors.{Result, ok, err, >>=-ok, ok-injective, Result-cases, wrap_err}
use roadrunner_temporal.Payload.{Bytes, Payload}
use roadrunner_temporal.Protocol.{Command, Dynamic, pointer, Message, Context}
use roadrunner_temporal.Protocol.Names.{init_command, zero_commands}
use roadrunner_temporal.Codec.{
  ProtoMessage, Wire, WorkerInfo, pack_messages, write_frame, encode, parse_command, parse_message,
  parse_messages, decode_body, decode, read_infos, get_payloads, confirmed, decode_worker_info,
}

-- A command as `InitCommand` and the JSON decoder leave it: nil, or a pointer to a struct.
abbrev pub IsHosted : {v : Vendor} → Option (Dynamic v) → Type 0
IsHosted none = Unit {0}
IsHosted (some (pointer c)) = Unit {0}
IsHosted (some d) = ⊥

-- JSON decoding over a pointer leaves that pointer, or nil.
abbrev pub KeepsPointers : {v : Vendor} {Options : Type 0} → Wire v Options → Type 0
KeepsPointers {v} w =
    (b : Bytes) (c : Command v) (d : Option (Dynamic v))
    → w.unmarshal_command b (pointer c) ≡ ok d
    → IsHosted d

-- The payloads, and what the converter makes of each.
abbrev pub Converts :
    {v : Vendor} {Options : Type 0}
    → Wire v Options
    → List v.Payload
    → List (WorkerInfo Options)
    → Type 0
Converts w [] [] = Unit {0}
Converts w (p ∷ ps) (i ∷ is) = (w.from_payload p ≡ ok i) × Converts w ps is
Converts w _ _ = ⊥

wrap_err-ok {ℓ} :
    {v : Vendor} {A : Type ℓ} (op : String) (r : Result v A) {a : A}
    → wrap_err op r ≡ ok a
    → r ≡ ok a
wrap_err-ok op (ok x) h = cc
wrap_err-ok op (err e) h = cc

module _ {v : Vendor} {Options : Type 0} (w : Wire v Options) where
  -- Encoding at least one message with no error leaves in the payload the JSON of the context, also
  -- if the context is empty: the null that `Encode` writes for an empty one is overwritten.
  pub encode_context :
      (ctx : Context) (p : Payload) (m : Message v) (ms : List (Message v)) {q : Payload}
      → encode w ctx p (m ∷ ms) ≡ (q, none)
      → q.context ≡ (w.marshal_context ctx).0
  unfolding encode write_frame
  encode_context ctx p m ms h = elim (Result-cases (pack_messages w ctx (m ∷ ms))) [
    | inr (e, failed) ↦ absurd (ground arith)
    | inl (fs, packs) ↦ ground arith
  ]

  module _ (keeps : KeepsPointers w) where
    read-IsHosted :
        (n : String) (b : Bytes) (d : Dynamic v) (o : Option (Dynamic v))
        → init_command v n ≡ ok d
        → w.unmarshal_command b d ≡ ok o
        → IsHosted o
    unfolding init_command
    read-IsHosted n b d o h r = elim (Option-cases (switch n (zero_commands v))) [
      | inl unknown ↦ absurd (ground arith)
      | inr (c, found) ↦
          let e : pointer c ≡ d = ok-injective (rw (found, init_command) at h) in
          keeps b c o (rw e r)
    ]

    parse_command-IsHosted :
        (n : String) (b : Bytes) (o : Option (Dynamic v)) → parse_command w n b ≡ ok o → IsHosted o
    parse_command-IsHosted n b o h = elim (Bool-cases (str_eq n "")) [
      | inl blank ↦ rw (← ok-injective (rw blank at h)) tt
      | inr full ↦
          let (d, inits, r) = >>=-ok (wrap_err _ (init_command v n)) _ (rw full at h) in
          read-IsHosted n b d o (wrap_err-ok _ _ inits) (wrap_err-ok _ _ r)
    ]

    parse_message-IsHosted :
        (f : ProtoMessage v) (m : Message v) → parse_message w f ≡ ok m → IsHosted m.command
    unfolding parse_message
    parse_message-IsHosted f m h =
        let (o, parsed, e) = >>=-ok (parse_command w f.command f.options) _ h in
        rw (← ok-injective e) (parse_command-IsHosted f.command f.options o parsed)

    parse_messages-IsHosted :
        (fs : List (ProtoMessage v)) (acc : List (Message v))
        → All (λ m. IsHosted m.command) acc
        → All (λ m. IsHosted m.command) (parse_messages w fs acc).0
    unfolding parse_messages
    parse_messages-IsHosted [] acc h = h
    parse_messages-IsHosted (f ∷ fs) acc h = elim (Result-cases (parse_message w f)) [
      | inr (e, failed) ↦ rw (failed, parse_messages) h
      | inl (m, parsed) ↦
          rw (parsed, parse_messages)
            (parse_messages-IsHosted fs (acc ++ m ∷ [])
              (All-append _ acc (m ∷ []) h (parse_message-IsHosted f m parsed, tt)))
    ]

    decode_body-IsHosted :
        (b : Bytes) (acc : List (Message v))
        → All (λ m. IsHosted m.command) acc
        → All (λ m. IsHosted m.command) (decode_body w b acc).0
    decode_body-IsHosted [] acc h = h
    decode_body-IsHosted (x ∷ xs) acc h = elim (Result-cases (w.unmarshal_frame (x ∷ xs))) [
      | inr (e, failed) ↦ rw (failed, decode_body) h
      | inl (fs, read) ↦ rw (read, decode_body) (parse_messages-IsHosted fs acc h)
    ]

    -- Whatever bytes a worker sends, and whether decoding ends with an error or not, every message
    -- that `Decode` appends carries no command or a pointer to a command struct, if those before it
    -- do. It rests on JSON decoding over a pointer's leaving a pointer, or nil.
    pub decode-IsHosted :
        (p : Payload) (acc : List (Message v))
        → All (λ m. IsHosted m.command) acc
        → All (λ m. IsHosted m.command) (decode w p acc).0
    unfolding decode
    decode-IsHosted p acc h = decode_body-IsHosted p.body acc h

  read_infos-Converts :
      (ps : List v.Payload) (wi : List (WorkerInfo Options)) {wi' : List (WorkerInfo Options)}
      → read_infos w ps wi ≡ (wi', none)
      → (is : List (WorkerInfo Options)) × Converts w ps is × (wi' ≡ wi ++ is)
  unfolding read_infos
  read_infos-Converts [] wi h = ([], tt, ap (λ t. t.0) (sym h) ∙ sym (append-nil wi))
  read_infos-Converts (p ∷ ps) wi h = elim (Result-cases (w.from_payload p)) [
    | inr (e, failed) ↦ absurd (ground arith)
    | inl (i, fine) ↦
        let (is, c, e) = read_infos-Converts ps (wi ++ i ∷ []) (rw (fine, read_infos) at h) in
        (i ∷ is, (fine, c), e ∙ append_assoc wi (i ∷ []) is)
  ]

  -- What `DecodeWorkerInfo` has found when it ends without an error.
  abbrev pub Confirms :
      List (Message v) → List (WorkerInfo Options) → List (WorkerInfo Options) → Type 0
  Confirms (m ∷ []) wi wi' =
      (m.id ≡ 0)
      × ((is : List (WorkerInfo Options)) × Converts w (get_payloads w m.payloads) is
          × (wi' ≡ wi ++ is))
  Confirms _ wi wi' = ⊥

  confirmed-Confirms :
      (ms : List (Message v)) (wi : List (WorkerInfo Options)) {wi' : List (WorkerInfo Options)}
      → confirmed w ms wi ≡ (wi', none)
      → Confirms ms wi wi'
  confirmed-Confirms [] wi h = absurd (ground arith)
  confirmed-Confirms (m ∷ []) wi h = elim (Bool-cases (m.id == 0)) [
    | inl zero_id ↦
        (ground arith, read_infos-Converts (get_payloads w m.payloads) wi (rw zero_id at h))
    | inr other ↦ absurd (ground arith)
  ]
  confirmed-Confirms (m ∷ n ∷ ms) wi h = absurd (ground arith)

  -- If `DecodeWorkerInfo` returns no error, then the reply was decoded with no error to exactly one
  -- message, with the id 0, and the infos appended are the conversions of its payloads, in order.
  pub decode_worker_info-Confirms :
      (p : Payload) (wi : List (WorkerInfo Options)) {wi' : List (WorkerInfo Options)}
      → decode_worker_info w p wi ≡ (wi', none)
      → ((decode w p []).1 ≡ none) × Confirms (decode w p []).0 wi wi'
  unfolding decode_worker_info
  decode_worker_info-Confirms p wi h = elim (Option-cases (decode w p []).1) [
    | inl fine ↦
        (fine, confirmed-Confirms (decode w p []).0 wi (rw (fine, decode_worker_info) at h))
    | inr (e, failed) ↦ absurd (ground arith)
  ]
