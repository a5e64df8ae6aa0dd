-- ===== src/Serve/Wired.antt =====
-- The loop of lib/go/serify/run.go with the field maps of lib/go/serify/protocol.go.
use serify.Base.{Bool, false, Option, none, some, List, [], ◌∷◌, ◌≡◌, refl, ap, ◌∙◌, Str, Assoc}
use serify.Base.Hex.{IsBytes, encode_hex, decode_hex-encode_hex}
use serify.Conf.{Field, Value, Entries, no_entries, entry}
use serify.Proto.Encode.{
  Floats, Encoded, ok, err, ◌>>=◌, find_entry, json_entries, normalize, utf8_value,
}
use serify.Wire.{Pairs}
use serify.Wire.Json.{Go}
use serify.Wire.Decode.{decode_fields}
use serify.Wire.Encode.{encode_fields}
use serify.Wire.Schema.{schema_fields}
use serify.Wire.Scalars.{IsExact}
use serify.Wire.Typed.{AreWire}
use serify.Wire.Ranges.{IsRanged}
use serify.Wire.RoundTrip.{fields_of}
use serify.Wire.Types.{encode_fields-decode_fields}
use serify.Wire.Utf8.{AreTextPairs}
use serify.Serve.{emit, emit_data, written, Codec, Json, Serializer, Deserializer, Holder, Loop}
use serify.Serve.Dispatch.{
  serialized, deserialized, serve_serialize, serve_deserialize, serialize_data, after_serialize,
  deserialize_bytes, after_deserialize, encode_answer,
}

-- an object as the map of a response
abbrev pub members : Entries → Assoc Value
members no_entries = []
members (entry k v es) = (k, v) ∷ members es

-- What `EncodeFieldMap` gives.
abbrev pub sent_members : Encoded Entries → Encoded (Assoc Value)
sent_members sent = sent >>= λ es. ok (members es)

abbrev pub entries_of : Assoc Value → Entries
entries_of [] = no_entries
entries_of ((k, v) ∷ content) = entry k v (entries_of content)

abbrev pub marshalled : Encoded Entries → Option (Assoc Value)
marshalled (ok raw) = some (members raw)
marshalled (err text) = none

-- `json.Marshal` of the data of an answer
abbrev pub json_marshal : Floats → Assoc Value → Option (Assoc Value)
json_marshal floats content = marshalled (json_entries floats (entries_of content))

entries_of-members : (es : Entries) → entries_of (members es) ≡ es
entries_of-members no_entries = refl
entries_of-members (entry k v es) = ap (entry k v) (entries_of-members es)

-- The audits' view of the memory is left to the arguments.
abbrev pub field_maps :
    (World : Type 0)
    → (Pairs → Pairs → Bool)
    → (World → Pairs → Str → World × List Str)
    → Go
    → Codec
field_maps World same zero_copy go = record {
  World = World;
  FieldMap = Pairs;
  Data = Entries;
  decode_field_map = λ raw schema. decode_fields go (schema_fields schema) (λ k. find_entry k raw);
  encode_field_map = λ fm schema. sent_members (encode_fields go (schema_fields schema) fm);
  same_maps = same;
  detect_zero_copy = zero_copy;
}

module _ (World : Type 0) (same : Pairs → Pairs → Bool)
    (zero_copy : World → Pairs → Str → World × List Str) (floats : Floats) (go : Go) where
  abbrev pub codec : Codec
  codec = field_maps World same zero_copy go

  -- the loop after a bind without an audit
  abbrev pub bound :
      List Field
      → Serializer codec
      → Deserializer codec
      → Option (Holder codec)
      → World
      → Loop codec
  bound schema serialize deserialize holder world = record {
    world = world;
    schema = schema;
    current_serialize = some serialize;
    current_deserialize = some deserialize;
    audit_enabled = false;
    current_ser_holder = holder;
  }

  serve_serialize-bound :
      (json : Json codec) (schema : List Field) (serialize : Serializer codec)
      (deserialize : Deserializer codec) (holder : Option (Holder codec)) (world world₁ : World)
      (id line out : Str) (raw : Entries) (fm : Pairs)
      → json.message_data line ≡ ok raw
      → decode_fields go (schema_fields schema) (λ k. find_entry k raw) ≡ ok fm
      → serialize world fm ≡ (world₁, ok out)
      → serve_serialize codec json (bound schema serialize deserialize holder world) id line
        ≡ (bound schema serialize deserialize holder world₁, serialized codec id out none)
  unfolding serve_serialize serialize_data after_serialize
  serve_serialize-bound json schema serialize deserialize holder world world₁ id line out raw fm m d
        s =
      rw (m, serve_serialize)
        (rw (d, serialize_data)
          (ap
            (after_serialize codec (bound schema serialize deserialize holder world) serialize id
              fm)
            s))

  serve_deserialize-bound :
      (json : Json codec) (schema : List Field) (serialize : Serializer codec)
      (deserialize : Deserializer codec) (holder : Option (Holder codec)) (world world₁ : World)
      (id line out buf : Str) (fm : Pairs) (sent : Entries)
      → IsBytes out
      → json.message_hex line ≡ ok (encode_hex out)
      → deserialize world out ≡ (world₁, buf, ok fm)
      → encode_fields go (schema_fields schema) fm ≡ ok sent
      → serve_deserialize codec json (bound schema serialize deserialize holder world) id line ≡ (
        bound schema serialize deserialize holder world₁,
        deserialized codec id (members sent) none,
      )
  unfolding serve_deserialize deserialize_bytes after_deserialize encode_answer
  serve_deserialize-bound json schema serialize deserialize holder world world₁ id line out buf fm
        sent b m d e =
      rw (m, serve_deserialize)
        (rw (decode_hex-encode_hex out b, deserialize_bytes)
          (ap
              (after_deserialize codec (bound schema serialize deserialize holder world) deserialize
                id out)
              d
            ∙ rw (e, encode_answer) refl))

  emit-deserialized :
      (json : Json codec) (id : Str) (sent again : Entries)
      → json.marshal ≡ json_marshal floats
      → json_entries floats sent ≡ ok again
      → emit codec json (deserialized codec id (members sent) none)
        ≡ some (written codec (deserialized codec id (members sent) none) (members again))
  unfolding emit json_entries normalize utf8_value
  emit-deserialized json id no_entries no_entries marshals n = refl
  emit-deserialized json id no_entries (entry k v es) marshals n = cc
  emit-deserialized json id (entry k v es) again marshals n =
      ap (emit_data codec (deserialized codec id (members (entry k v es)) none)) (
        ap (λ f. f (members (entry k v es))) marshals
        ∙ ap (λ x. marshalled (json_entries floats x)) (entries_of-members (entry k v es))
        ∙ ap marshalled n)

  -- A worker that is bound without an audit, whose serializer and deserializer are inverse to each
  -- other on the field map of a message: it answers the message with OK and bytes, and a message with
  -- these bytes with OK and data. The line that `json.Marshal` makes of it has data that is
  -- read by the schema as the field map of the first message. The schema is of types that the wire
  -- carries, the texts of the field map are valid UTF-8, and the conversions of small integers to
  -- float64 and back are exact.
  pub serve_deserialize-serve_serialize :
      (json : Json codec) (schema : List Field) (serialize : Serializer codec)
      (deserialize : Deserializer codec) (holder : Option (Holder codec))
      (world world₁ world₂ : World) (id line id' line' out buf : Str) (raw : Entries) (fm : Pairs)
      → IsExact floats go
      → IsRanged go
      → AreWire (fields_of schema)
      → json.marshal ≡ json_marshal floats
      → AreTextPairs fm
      → json.message_data line ≡ ok raw
      → decode_fields go (schema_fields schema) (λ k. find_entry k raw) ≡ ok fm
      → serialize world fm ≡ (world₁, ok out)
      → IsBytes out
      → json.message_hex line' ≡ ok (encode_hex out)
      → deserialize world₁ out ≡ (world₂, buf, ok fm)
      → (sent : Entries) × (again : Entries) × (serve_serialize codec json
            (bound schema serialize deserialize holder world)
            id
            line
          ≡ (bound schema serialize deserialize holder world₁, serialized codec id out none))
        × (serve_deserialize codec json (bound schema serialize deserialize holder world₁) id' line'
            ≡ (
              bound schema serialize deserialize holder world₂,
              deserialized codec id' (members sent) none,
            ))
        × (emit codec json (deserialized codec id' (members sent) none)
            ≡ some (written codec (deserialized codec id' (members sent) none) (members again)))
        × (decode_fields go (schema_fields schema) (λ k. find_entry k again) ≡ ok fm)
  serve_deserialize-serve_serialize json schema serialize deserialize holder world world₁ world₂ id
        line id' line' out buf raw fm exact ranged wire marshals texts m d s b h g =
      let (sent, again, e, n, back) =
        encode_fields-decode_fields floats go schema (λ k. find_entry k raw) fm exact ranged wire d
          texts in
      (
        sent,
        again,
        serve_serialize-bound json schema serialize deserialize holder world world₁ id line out raw
            fm m d s,
        serve_deserialize-bound json schema serialize deserialize holder world₁ world₂ id' line' out
            buf fm sent b h g e,
        emit-deserialized json id' sent again marshals n,
        back,
      )
