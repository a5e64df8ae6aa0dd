-- ===== src/Serve.antt =====
-- lib/go/serify/run.go: the loop of a worker that answers the runner's requests. An emitted object
-- is the `Response` that the runner reads from it. The switch on the op is in Serve/Dispatch.
pub mod Dispatch
pub mod Answered
pub mod Bound
pub mod Runner
pub mod Wired
pub mod Tests
use serify.Base.{
  map, as_utf8, Bool, true, false, not, ◌&&◌, ◌||◌, Option, none, some, List, [], ◌∷◌, ◌++◌,
  if◌then◌else◌, Str, lit, str_eq, is_empty, Assoc, lookup, quote,
}
use serify.Base.Hex.{Decoded, decode_hex, hex_error_text, encode_hex}
use serify.Conf.{Field, Value}
use serify.Report.{is_nil}
use serify.Proto.{
  op_ping, op_bind, op_serialize, op_deserialize, op_exit, status_ok, status_error, status_skipped,
  protocol_version, AuditReport, Response,
}
use serify.Proto.Encode.{Encoded, ok, err}

-- What the loop calls: the worker's own functions on the state `World` of their memory, and the
-- conversion of field maps, whose values may share memory with a buffer.
pub record Codec : Type 1 where
  pub World : Type 0
  pub FieldMap : Type 0
  pub Data : Type 0  -- map[string]json.RawMessage
  pub decode_field_map : Data → List Field → Encoded FieldMap
  pub encode_field_map : FieldMap → List Field → Encoded (Assoc Value)
  pub same_maps : FieldMap → FieldMap → Bool  -- compareFieldMaps finds nothing
  pub detect_zero_copy : World → FieldMap → Str → World × List Str

-- the second argument of `json.Unmarshal`
pub record BindMessage : Type 0 where
  pub schema : List Field
  pub type_name : Str
  pub format : Str
  pub audit : Bool

module _ (codec : Codec) where
  open codec use {World, FieldMap, Data}

  -- `json.Unmarshal` of a line, for each of the shapes that the loop reads it as
  pub record Json : Type 0 where
    pub base : Str → Option (Str × Str)  -- op and id
    pub bind_message : Str → Encoded BindMessage
    pub message_data : Str → Encoded Data
    pub message_hex : Str → Encoded Str
    -- `json.Marshal` of the data of an answer, as the runner reads it; none where it fails, as on a NaN
    pub marshal : Assoc Value → Option (Assoc Value)

  abbrev pub Serializer : Type 0
  Serializer = World → FieldMap → World × Encoded Str

  -- also what the buffer holds after the call
  abbrev pub Deserializer : Type 0
  Deserializer = World → Str → World × Str × Encoded FieldMap

  -- `serializeAuditHolder`
  pub record Holder : Type 0 where
    pub enable : Bool → World → World
    pub last_mutations : World → List Str
    pub last_output_zc : World → List Str

  -- `parsedFormat`
  pub record Format : Type 0 where
    pub serializer : Option Serializer
    pub deserializer : Option Deserializer
    pub ser_holder : Option Holder

  -- the local variables of `Run`
  pub record Loop : Type 0 where
    pub world : World
    pub schema : List Field
    pub current_serialize : Option Serializer
    pub current_deserialize : Option Deserializer
    pub audit_enabled : Bool
    pub current_ser_holder : Option Holder

  abbrev pub blank : Response
  blank = record {
    id = [];
    op = [];
    status = [];
    hex = [];
    content = [];
    version = none;
    error = [];
    reason = [];
    audit = none;
  }

  abbrev pub utf8_audit : Option AuditReport → Option AuditReport
  utf8_audit none = none
  utf8_audit (some a) = some (record a {
    mutations = map as_utf8 a.mutations;
    output_zero_copy_fields = map as_utf8 a.output_zero_copy_fields;
    zero_copy_fields = map as_utf8 a.zero_copy_fields;
  })

  -- an answer's texts, as JSON writes them, with its data
  abbrev pub written : Response → Assoc Value → Response
  written r content = record r {
    id = as_utf8 r.id;
    op = as_utf8 r.op;
    status = as_utf8 r.status;
    hex = as_utf8 r.hex;
    error = as_utf8 r.error;
    reason = as_utf8 r.reason;
    audit = utf8_audit r.audit;
    content = content;
  }

  abbrev pub emit_data : Response → Option (Assoc Value) → Option Response
  emit_data r none = none
  emit_data r (some content) = some (written r content)

  abbrev pub marshal_data : Json → Assoc Value → Option (Assoc Value)
  marshal_data json [] = some []
  marshal_data json (kv ∷ content) = json.marshal (kv ∷ content)

  -- `emit`: the line that is written, as the runner reads it. The error of `json.Marshal` is ignored,
  -- and where it fails the line is empty.
  unfoldable pub emit : Json → Response → Option Response
  emit json r = emit_data r (marshal_data json r.content)

  -- `emitErr`
  abbrev pub error_answer : Str → Str → Str → Response
  error_answer id op text = record blank { id = id; op = op; status = status_error; error = text }

  abbrev pub skipped_answer : Str → Str → Response
  skipped_answer id op = record blank {
    id = id;
    op = op;
    status = status_skipped;
    reason = lit "direction not registered";
  }

  -- `len(audit) > 0`
  abbrev pub audit_field : AuditReport → Option AuditReport
  audit_field a =
      let quiet =
        is_nil a.mutations && (is_nil a.output_zero_copy_fields && is_nil a.zero_copy_fields) in
      if quiet && not a.input_mutated
      then elim a.stable [
        | some b ↦ some a
        | none ↦ elim a.deser_stable [ some b ↦ some a | none ↦ none ]
      ]
      else some a

  abbrev differs : Str → Encoded Str → Bool
  differs out (err text) = true
  differs out (ok again) = not (str_eq out again)

  abbrev found : (Holder → World → List Str) → Option Holder → World → List Str
  found part none world = []
  found part (some holder) world = part holder world

  -- `serializeAudit`: the holder is read before the second call
  unfoldable pub serialize_audit :
      Option Holder → Serializer → FieldMap → Str → World → World × AuditReport
  serialize_audit holder serialize fm out world =
      let (world', again) = serialize world fm in
      (
        world',
        record {
          mutations = found (λ h. h.last_mutations) holder world;
          stable = if differs out again then some false else none;
          output_zero_copy_fields = found (λ h. h.last_output_zc) holder world;
          zero_copy_fields = [];
          input_mutated = false;
          deser_stable = none;
        },
      )

  abbrev unstable : FieldMap → Encoded FieldMap → Bool
  unstable fm (err text) = true
  unstable fm (ok again) = not (codec.same_maps fm again)

  -- `deserializeAudit`
  unfoldable pub deserialize_audit :
      Deserializer → FieldMap → Str → Str → World → World × AuditReport
  deserialize_audit deserialize fm buf snapshot world =
      let (world₁, _, again) = deserialize world snapshot in
      let (world₂, zc_fields) = codec.detect_zero_copy world₁ fm buf in
      (
        world₂,
        record {
          mutations = [];
          stable = none;
          output_zero_copy_fields = [];
          zero_copy_fields = zc_fields;
          input_mutated = not (str_eq snapshot buf);
          deser_stable = if unstable fm again then some false else none;
        },
      )

  -- `emitSkip`: the bindings are cleared, the schema stays
  abbrev pub skip_bind : Loop → Loop × Response
  skip_bind s = (
    record s { current_serialize = none; current_deserialize = none; current_ser_holder = none },
    record blank { op = op_bind; status = status_skipped },
  )

  abbrev enabled : Option Holder → Bool → World → World
  enabled none audit world = world
  enabled (some holder) audit world = holder.enable audit world

  unfoldable pub bind_format : Loop → Bool → Format → Loop × Response
  bind_format s audit f = (
    record s {
      world = enabled f.ser_holder audit s.world;
      current_serialize = f.serializer;
      current_deserialize = f.deserializer;
      audit_enabled = audit;
      current_ser_holder = f.ser_holder;
    },
    record blank { op = op_bind },
  )

  -- the branch of "bind" once the message is read
  unfoldable pub bind_to : Assoc (Assoc Format) → Loop → BindMessage → Loop × Response
  unfolding bind_format
  bind_to types s₀ msg =
      let s = record s₀ { schema = msg.schema } in
      if is_empty msg.type_name
      then (s, error_answer [] op_bind (lit "bind requires a \"type\" field"))
      else elim (lookup msg.type_name types) [
        | none ↦ skip_bind s
        | some formats ↦
            if is_empty msg.format
            then (s, error_answer [] op_bind (lit "bind requires a \"format\" field"))
            else elim (lookup msg.format formats) [
              | none ↦ skip_bind s
              | some f ↦ bind_format s msg.audit f
            ]
      ]
