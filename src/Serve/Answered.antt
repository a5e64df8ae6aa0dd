-- ===== src/Serve/Answered.antt =====
-- lib/go/serify/run.go answers each request once and in order.
use serify.Base.{
  ap, as_utf8, lit, Bool, true, false, not, ◌&&◌, Option, none, some, List, [], ◌∷◌, ◌≡◌, refl, sym,
  ◌∙◌, arith, inl, inr, if◌then◌else◌, Bool-cases, Str, str_eq, str_eq_iff, str_eq_refl, Assoc,
}
use serify.Base.Hex.{Decoded, decode_hex}
use serify.Proto.{op_ping, op_bind, op_serialize, op_deserialize, op_exit, AuditReport, Response}
use serify.Conf.{Value}
use serify.Proto.Encode.{Encoded, ok, err}
use serify.Serve.Dispatch.{
  after_serialize, serialize_data, serve_serialize, encode_answer, after_deserialize,
  deserialize_bytes, serve_deserialize, serve_bind, serve_request, request_of, not_registered,
}
use serify.Serve.{
  Codec, BindMessage, Json, Serializer, Deserializer, Format, Loop, bind_to, emit, emit_data,
  marshal_data,
}

-- the ops whose answers carry the id of the request
abbrev pub carries_id : Str → Bool
carries_id op = not (str_eq op op_ping) && not (str_eq op op_bind)

-- The answer has the op of the request and, where it carries one, its id; only a deserialize is
-- answered with data.
abbrev pub Fits : Str → Str → Response → Type 0
Fits op id r =
    (r.op ≡ op)
    × (carries_id op ≡ true → r.id ≡ id)
    × (str_eq op op_deserialize ≡ false → r.content ≡ [])

serialize_ne_deserialize : str_eq op_serialize op_deserialize ≡ false
unfolding str_eq op_serialize op_deserialize lit
serialize_ne_deserialize = refl

module _ (codec : Codec) where
  open codec use {World, FieldMap, Data}

  -- The line of a request: a response with its op and, where it carries one, its id, both as JSON
  -- writes them; or an empty line, where `json.Marshal` fails on the data that the loop answers a
  -- deserialize with.
  abbrev pub Line : Assoc (Assoc (Format codec)) → Json codec → Str → Str → Option Response → Type 0
  Line types json op id (some r) = (r.op ≡ as_utf8 op) × (carries_id op ≡ true → r.id ≡ as_utf8 id)
  Line types json op id none =
      (str_eq op op_deserialize ≡ true)
      × ((s : Loop codec) × (line : Str) × (json.marshal
              (serve_request codec types json s op id line).1.content
            ≡ none))

  -- one line for each request, in the same order
  abbrev pub Answered :
      Assoc (Assoc (Format codec)) → Json codec → List (Str × Str) → List (Option Response) → Type 0
  Answered types json [] [] = Unit {0}
  Answered types json ((op, id) ∷ requests) (line ∷ lines) =
      Line types json op id line × Answered types json requests lines
  Answered types json _ _ = ⊥

  -- the requests of the lines, up to "exit"
  unfoldable pub requests : Json codec → List Str → List (Str × Str)
  unfolding request_of
  requests json [] = []
  requests json (line ∷ lines) = elim (request_of codec json line) [
    | none ↦ requests json lines
    | some (op, id) ↦ if str_eq op op_exit then [] else (op, id) ∷ requests json lines
  ]

  -- an answer to a bind: no data
  abbrev Binds : Response → Type 0
  Binds r = (r.op ≡ op_bind) × (r.content ≡ [])

  op-bind_to :
      (types : Assoc (Assoc (Format codec))) (s : Loop codec) (msg : BindMessage)
      → Binds (bind_to codec types s msg).1
  unfolding bind_to
  op-bind_to types s msg = ground arith

  op-serve_bind :
      (types : Assoc (Assoc (Format codec))) (json : Json codec) (s : Loop codec) (line : Str)
      → Binds (serve_bind codec types json s line).1
  unfolding serve_bind
  op-serve_bind types json s line = go (json.bind_message line) refl
    where
      go :
          (m : Encoded BindMessage)
          → json.bind_message line ≡ m
          → Binds (serve_bind codec types json s line).1
      go (err text) e = rw (e, serve_bind) (refl, refl)
      go (ok msg) e = rw (e, serve_bind) (op-bind_to types s msg)

  -- the answer has this op and this id, and no data unless it answers a deserialize
  abbrev Has : Str → Str → Response → Type 0
  Has op id r = (r.op ≡ op) × (r.id ≡ id) × (str_eq op op_deserialize ≡ false → r.content ≡ [])

  Has-after_serialize :
      (s : Loop codec) (serialize : Serializer codec) (id : Str) (fm : FieldMap)
      (done : World × Encoded Str)
      → Has op_serialize id (after_serialize codec s serialize id fm done).1
  unfolding after_serialize
  Has-after_serialize s serialize id fm (world, err text) = (refl, refl, λ k. refl)
  Has-after_serialize s serialize id fm (world, ok out) = ground arith

  Has-serialize_data :
      (s : Loop codec) (serialize : Serializer codec) (id : Str) (raw : Encoded Data)
      → Has op_serialize id (serialize_data codec s serialize id raw).1
  unfolding serialize_data
  Has-serialize_data s serialize id (err text) = (refl, refl, λ k. refl)
  Has-serialize_data s serialize id (ok raw) = go (codec.decode_field_map raw s.schema) refl
    where
      go :
          (d : Encoded FieldMap)
          → codec.decode_field_map raw s.schema ≡ d
          → Has op_serialize id (serialize_data codec s serialize id (ok raw)).1
      go (err text) e = rw (e, serialize_data) (refl, refl, λ k. refl)
      go (ok fm) e =
          rw (e, serialize_data) (Has-after_serialize s serialize id fm (serialize s.world fm))

  Has-not_registered : (b : Bool) (id op text : Str) → Has op id (not_registered codec b id op text)
  unfolding not_registered
  Has-not_registered true id op text = (refl, refl, λ k. refl)
  Has-not_registered false id op text = (refl, refl, λ k. refl)

  Has-serve_serialize :
      (json : Json codec) (s : Loop codec) (id line : Str)
      → Has op_serialize id (serve_serialize codec json s id line).1
  unfolding serve_serialize
  Has-serve_serialize json s id line = go s.current_serialize refl
    where
      go :
          (f : Option (Serializer codec))
          → s.current_serialize ≡ f
          → Has op_serialize id (serve_serialize codec json s id line).1
      go none e = rw (e, serve_serialize) (Has-not_registered _ id op_serialize _)
      go (some serialize) e =
          rw (e, serve_serialize) (Has-serialize_data _ serialize id (json.message_data line))

  Has-encode_answer :
      (s : Loop codec) (id : Str) (fm : FieldMap) (audit : Option AuditReport) (world : World)
      → Has op_deserialize id (encode_answer codec s id fm audit world).1
  unfolding encode_answer
  Has-encode_answer s id fm audit world =
      (ground arith, ground arith, λ k. cc (str_eq_refl op_deserialize, k))

  Has-if :
      (op id : Str) (b : Bool) (x y : Loop codec × Response)
      → Has op id x.1
      → Has op id y.1
      → Has op id (if b then x else y).1
  Has-if op id true x y h k = h
  Has-if op id false x y h k = k

  Has-after_deserialize :
      (s : Loop codec) (deserialize : Deserializer codec) (id bytes : Str)
      (done : World × Str × Encoded FieldMap)
      → Has op_deserialize id (after_deserialize codec s deserialize id bytes done).1
  unfolding after_deserialize
  Has-after_deserialize s deserialize id bytes (world, buf, err text) = (refl, refl, λ k. refl)
  Has-after_deserialize s deserialize id bytes (world, buf, ok fm) =
      Has-if op_deserialize id s.audit_enabled _ _ (Has-encode_answer s id fm _ _)
        (Has-encode_answer s id fm none world)

  Has-deserialize_bytes :
      (s : Loop codec) (deserialize : Deserializer codec) (id : Str) (hex : Encoded Str)
      → Has op_deserialize id (deserialize_bytes codec s deserialize id hex).1
  unfolding deserialize_bytes
  Has-deserialize_bytes s deserialize id (err text) = (refl, refl, λ k. refl)
  Has-deserialize_bytes s deserialize id (ok hex) = go (decode_hex hex) refl
    where
      go :
          (d : Decoded)
          → decode_hex hex ≡ d
          → Has op_deserialize id (deserialize_bytes codec s deserialize id (ok hex)).1
      go (Decoded.err e) eq = rw (eq, deserialize_bytes) (refl, refl, λ k. refl)
      go (Decoded.ok bytes) eq =
          rw (eq, deserialize_bytes)
            (Has-after_deserialize s deserialize id bytes (deserialize s.world bytes))

  Has-serve_deserialize :
      (json : Json codec) (s : Loop codec) (id line : Str)
      → Has op_deserialize id (serve_deserialize codec json s id line).1
  unfolding serve_deserialize
  Has-serve_deserialize json s id line = go s.current_deserialize refl
    where
      go :
          (f : Option (Deserializer codec))
          → s.current_deserialize ≡ f
          → Has op_deserialize id (serve_deserialize codec json s id line).1
      go none e = rw (e, serve_deserialize) (Has-not_registered _ id op_deserialize _)
      go (some deserialize) e =
          rw (e, serve_deserialize) (Has-deserialize_bytes _ deserialize id (json.message_hex line))

  pub Fits-serve_request :
      (types : Assoc (Assoc (Format codec))) (json : Json codec) (s : Loop codec) (op id line : Str)
      → Fits op id (serve_request codec types json s op id line).1
  unfolding serve_request
  Fits-serve_request types json s op id line = elim (Bool-cases (str_eq op op_ping)) [
    | inl e ↦ rw e (sym ((str_eq_iff op op_ping).0 e), λ k. cc, λ k. refl)
    | inr e ↦ rw e (elim (Bool-cases (str_eq op op_bind)) [
      | inl f ↦
          let binds = op-serve_bind types json s line in
          rw f (binds.0 ∙ sym ((str_eq_iff op op_bind).0 f), λ k. cc, λ k. binds.1)
      | inr f ↦ rw f (elim (Bool-cases (str_eq op op_serialize)) [
        | inl g ↦
            let has = Has-serve_serialize json s id line in
            rw g (
              has.0 ∙ sym ((str_eq_iff op op_serialize).0 g),
              λ k. has.1,
              λ k. has.2 serialize_ne_deserialize,
            )
        | inr g ↦ rw g (elim (Bool-cases (str_eq op op_deserialize)) [
          | inl h ↦
              let has = Has-serve_deserialize json s id line in
              rw h (has.0 ∙ sym ((str_eq_iff op op_deserialize).0 h), λ k. has.1, λ k. cc k)
          | inr h ↦ rw h (refl, λ k. refl, λ k. refl)
        ])
      ])
    ])
  ]

  emit_data-Line :
      (types : Assoc (Assoc (Format codec))) (json : Json codec) (s : Loop codec) (op id line : Str)
      (content : Assoc Value)
      → (serve_request codec types json s op id line).1.content ≡ content
      → Line types json op id (
          emit_data codec
            (serve_request codec types json s op id line).1
            (marshal_data codec json content))
  emit_data-Line types json s op id line [] e =
      let (o, i, d) = Fits-serve_request types json s op id line in
      (ap as_utf8 o, λ k. ap as_utf8 (i k))
  emit_data-Line types json s op id line (kv ∷ content) e = go (json.marshal (kv ∷ content)) refl
    where
      go :
          (m : Option (Assoc Value))
          → json.marshal (kv ∷ content) ≡ m
          → Line types json op id
              (emit_data codec (serve_request codec types json s op id line).1 m)
      go (some c) eq =
          let (o, i, d) = Fits-serve_request types json s op id line in
          (ap as_utf8 o, λ k. ap as_utf8 (i k))
      go none eq =
          let (o, i, d) = Fits-serve_request types json s op id line in
          elim (Bool-cases (str_eq op op_deserialize)) [
            | inl same ↦ (same, (s, line, ap json.marshal e ∙ eq))
            | inr other ↦ cc (e, d other)
          ]

  pub emit-Line :
      (types : Assoc (Assoc (Format codec))) (json : Json codec) (s : Loop codec) (op id line : Str)
      → Line types json op id (emit codec json (serve_request codec types json s op id line).1)
  unfolding emit
  emit-Line types json s op id line = emit_data-Line types json s op id line _ refl
