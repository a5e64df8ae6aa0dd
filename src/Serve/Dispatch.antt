-- ===== src/Serve/Dispatch.antt =====
-- The switch of `Run` in lib/go/serify/run.go on the op of a request, and the loop over the lines.
use serify.Base.{
  Bool, true, false, Option, none, some, List, [], ◌∷◌, ◌++◌, if◌then◌else◌, Str, lit, str_eq,
  Assoc, quote,
}
use serify.Base.Hex.{Decoded, decode_hex, hex_error_text, encode_hex}
use serify.Conf.{Value}
use serify.Proto.{
  op_ping, op_bind, op_serialize, op_deserialize, op_exit, status_ok, protocol_version, AuditReport,
  Response,
}
use serify.Proto.Encode.{Encoded, ok, err}
use serify.Serve.{
  Codec, Json, Serializer, Deserializer, Format, Loop, blank, error_answer, skipped_answer, emit,
  audit_field, serialize_audit, deserialize_audit, bind_to,
}

module _ (codec : Codec) where
  open codec use {World, FieldMap, Data}

  abbrev pub serialized : Str → Str → Option AuditReport → Response
  serialized id out audit = record (blank codec) {
    id = id;
    op = op_serialize;
    status = status_ok;
    hex = encode_hex out;
    audit = audit;
  }

  abbrev pub deserialized : Str → Assoc Value → Option AuditReport → Response
  deserialized id content audit = record (blank codec) {
    id = id;
    op = op_deserialize;
    status = status_ok;
    content = content;
    audit = audit;
  }

  -- "serialize" after the call of the worker's function
  unfoldable pub after_serialize :
      Loop codec → Serializer codec → Str → FieldMap → World × Encoded Str → Loop codec × Response
  unfolding serialize_audit
  after_serialize s serialize id fm (world, err text) =
      (record s { world = world }, error_answer codec id op_serialize text)
  after_serialize s serialize id fm (world, ok out) =
      if s.audit_enabled
      then (let (world', audit) =
            serialize_audit codec s.current_ser_holder serialize fm out world in
          (record s { world = world' }, serialized id out (audit_field codec audit)))
      else (record s { world = world }, serialized id out none)

  unfoldable pub serialize_data :
      Loop codec → Serializer codec → Str → Encoded Data → Loop codec × Response
  unfolding after_serialize
  serialize_data s serialize id (err text) = (s, error_answer codec id op_serialize text)
  serialize_data s serialize id (ok raw) = elim (codec.decode_field_map raw s.schema) [
    | err text ↦ (s, error_answer codec id op_serialize text)
    | ok fm ↦ after_serialize s serialize id fm (serialize s.world fm)
  ]

  -- the answer where a direction has no function
  unfoldable pub not_registered : Bool → Str → Str → Str → Response
  not_registered other_registered id op text =
      if other_registered then skipped_answer codec id op else error_answer codec id op text

  abbrev is_set {ℓ} : {A : Type ℓ} → Option A → Bool
  is_set none = false
  is_set (some x) = true

  -- the branch of "serialize"
  unfoldable pub serve_serialize : Json codec → Loop codec → Str → Str → Loop codec × Response
  unfolding serialize_data not_registered
  serve_serialize json s id line = elim s.current_serialize [
    | none ↦ (
      s,
      not_registered (is_set s.current_deserialize) id op_serialize
          (lit "no serializer configured (call bind first)"),
    )
    | some serialize ↦ serialize_data s serialize id (json.message_data line)
  ]

  unfoldable pub encode_answer :
      Loop codec → Str → FieldMap → Option AuditReport → World → Loop codec × Response
  encode_answer s id fm audit world = elim (codec.encode_field_map fm s.schema) [
    | err text ↦ (record s { world = world }, error_answer codec id op_deserialize text)
    | ok content ↦ (record s { world = world }, deserialized id content audit)
  ]

  -- "deserialize" after the call of the worker's function; `bytes` is the snapshot
  unfoldable pub after_deserialize :
      Loop codec
      → Deserializer codec
      → Str
      → Str
      → World × Str × Encoded FieldMap
      → Loop codec × Response
  unfolding encode_answer deserialize_audit
  after_deserialize s deserialize id bytes (world, buf, err text) =
      (record s { world = world }, error_answer codec id op_deserialize text)
  after_deserialize s deserialize id bytes (world, buf, ok fm) =
      if s.audit_enabled
      then (let (world', audit) = deserialize_audit codec deserialize fm buf bytes world in
          encode_answer s id fm (audit_field codec audit) world')
      else encode_answer s id fm none world

  unfoldable pub deserialize_bytes :
      Loop codec → Deserializer codec → Str → Encoded Str → Loop codec × Response
  unfolding after_deserialize
  deserialize_bytes s deserialize id (err text) = (s, error_answer codec id op_deserialize text)
  deserialize_bytes s deserialize id (ok hex) = elim (decode_hex hex) [
    | Decoded.err e ↦ (s, error_answer codec id op_deserialize (hex_error_text e))
    | Decoded.ok bytes ↦ after_deserialize s deserialize id bytes (deserialize s.world bytes)
  ]

  -- the branch of "deserialize"
  unfoldable pub serve_deserialize : Json codec → Loop codec → Str → Str → Loop codec × Response
  unfolding deserialize_bytes not_registered
  serve_deserialize json s id line = elim s.current_deserialize [
    | none ↦ (
      s,
      not_registered (is_set s.current_serialize) id op_deserialize
          (lit "no deserializer configured (call bind first)"),
    )
    | some deserialize ↦ deserialize_bytes s deserialize id (json.message_hex line)
  ]

  -- the branch of "bind"
  unfoldable pub serve_bind :
      Assoc (Assoc (Format codec)) → Json codec → Loop codec → Str → Loop codec × Response
  unfolding bind_to
  serve_bind types json s line = elim (json.bind_message line) [
    | err text ↦ (s, error_answer codec [] op_bind text)
    | ok msg ↦ bind_to codec types s msg
  ]

  -- the switch on the op, "exit" aside
  unfoldable pub serve_request :
      Assoc (Assoc (Format codec))
      → Json codec
      → Loop codec
      → Str
      → Str
      → Str
      → Loop codec × Response
  unfolding serve_bind serve_serialize serve_deserialize
  serve_request types json s op id line =
      if str_eq op op_ping
      then (
        s,
        record (blank codec) { op = op_ping; status = status_ok; version = some protocol_version },
      )
      else if str_eq op op_bind
      then serve_bind types json s line
      else if str_eq op op_serialize
      then serve_serialize json s id line
      else if str_eq op op_deserialize
      then serve_deserialize json s id line
      else (s, error_answer codec id op (lit "unknown op " ++ quote op))

  -- The op and id of a line that is a request: not empty, and JSON.
  unfoldable pub request_of : Json codec → Str → Option (Str × Str)
  request_of json [] = none
  request_of json (c ∷ line) = json.base (c ∷ line)

  -- `Run` on the lines that the scanner yields, up to "exit": the state and the lines it writes
  unfoldable pub serve :
      Assoc (Assoc (Format codec))
      → Json codec
      → Loop codec
      → List Str
      → Loop codec × List (Option Response)
  unfolding request_of serve_request emit
  serve types json s [] = (s, [])
  serve types json s (line ∷ lines) = elim (request_of json line) [
    | none ↦ serve types json s lines
    | some (op, id) ↦
        if str_eq op op_exit
        then (s, [])
        else (let (s', answer) = serve_request types json s op id line in
            let (s'', answers) = serve types json s' lines in
            (s'', emit codec json answer ∷ answers))
  ]
