-- ===== src/Serve/Tests.antt =====
-- The worker's loop at concrete lines.
use serify.Base.{
  ◌*◌, ◌+◌, ◌^◌, ℕ, arith, true, false, Option, none, some, List, [], ◌∷◌, ◌≡◌, refl, if◌then◌else◌,
  Str, lit, str_eq, Assoc, lookup, suc,
}
use serify.Proto.{op_ping, op_serialize, op_exit, status_skipped, status_error, Request}
use serify.Proto.Encode.{ok, err}
use serify.Serve.Dispatch.{serialized, deserialized, serve_serialize, serve_deserialize}
use serify.Serve.{
  emit, written, Serializer, Deserializer, Codec, BindMessage, Json, Format, Loop, bind_to,
  bind_format,
}
use serify.Worker.{Worker}
use serify.Serve.Runner.{library_process}
use serify.Serve.Answered.{Answered}
use serify.Conf.{Entries, Value}
use serify.Base.Hex.{encode_hex}
use serify.Proto.Encode.{find_entry, json_entries, utf8_value, normalize, normalize_float}
use serify.Wire.Decode.{decode_fields}
use serify.Wire.Schema.{schema_fields}
use serify.Wire.Tests.{
  integer_floats, integer_go, a_schema, a_message, the_answer, IsExact-law, IsRanged-law,
  a_schema-AreWire, the_answer-AreTextPairs, reads_message,
}
use serify.Serve.Wired
use serify.Serve.Wired.{members, json_marshal, serve_deserialize-serve_serialize}
use serify.Serve.Bound.{registered, Runs, Refuses, Runs-bind_to, idle-bind_to}

-- field maps are their bytes
abbrev plain_codec : Codec
plain_codec = record {
  World = ℕ;
  FieldMap = Str;
  Data = Str;
  decode_field_map = λ raw schema. ok raw;
  encode_field_map = λ fm schema. ok [];
  same_maps = str_eq;
  detect_zero_copy = λ w fm buf. (w, []);
}

abbrev json_format : Format plain_codec
json_format = record {
  serializer = some (λ w fm. (suc w, ok fm));
  deserializer = some (λ w buf. (suc w, buf, ok buf));
  ser_holder = none;
}

abbrev types : Assoc (Assoc (Format plain_codec))
types = (lit "T", (lit "json", json_format) ∷ []) ∷ []

-- lines that are one letter, their op's
abbrev base_of : Str → Option (Str × Str)
base_of line =
    if str_eq line (lit "p")
    then some (op_ping, [])
    else if str_eq line (lit "s")
    then some (op_serialize, lit "T/json/a")
    else if str_eq line (lit "x")
    then some (op_exit, [])
    else none

abbrev letters : Json plain_codec
letters = record {
  base = base_of;
  bind_message = λ line. err (lit "unexpected end of JSON input");
  message_data = λ line. ok (lit "data");
  message_hex = λ line. ok (lit "00");
  marshal = λ content. some content;
}

abbrev fresh : Loop plain_codec
fresh = record {
  world = 0;
  schema = [];
  current_serialize = none;
  current_deserialize = none;
  audit_enabled = false;
  current_ser_holder = none;
}

abbrev asked : Str → Str → BindMessage
asked type_name format = record {
  schema = [];
  type_name = type_name;
  format = format;
  audit = true;
}

abbrev lines : List Str
lines = lit "p" ∷ lit "?" ∷ lit "s" ∷ lit "x" ∷ lit "s" ∷ []

Runs-bind_to_example :
    (f : Format plain_codec) × (registered plain_codec types (asked (lit "T") (lit "json"))
      ≡ some f)
    × Runs plain_codec f
        (asked (lit "T") (lit "json"))
        (bind_to plain_codec types fresh (asked (lit "T") (lit "json"))).0
unfolding bind_to bind_format lookup lit str_eq status_error status_skipped
Runs-bind_to_example = Runs-bind_to plain_codec types fresh (asked (lit "T") (lit "json")) refl refl

idle-bind_to_example :
    Refuses plain_codec (bind_to plain_codec types fresh (asked (lit "U") (lit "json"))).0 (
      serve_serialize plain_codec letters
        (bind_to plain_codec types fresh (asked (lit "U") (lit "json"))).0
        (lit "a")
        (lit "s"))
    × Refuses plain_codec (bind_to plain_codec types fresh (asked (lit "U") (lit "json"))).0 (
        serve_deserialize plain_codec letters
          (bind_to plain_codec types fresh (asked (lit "U") (lit "json"))).0
          (lit "a")
          (lit "s"))
unfolding bind_to bind_format lookup lit str_eq status_skipped
idle-bind_to_example =
    idle-bind_to plain_codec types letters fresh (asked (lit "U") (lit "json")) (lit "a") (lit "s")
      refl

-- the line of every request is "s"
abbrev one_line : Request → Str
one_line req = lit "s"

abbrev at_work : Worker (library_process plain_codec types letters one_line fresh)
at_work = record {
  language = lit "go";
  dir = [];
  process = (fresh, []);
  stderr_lines = [];
  dead = false;
  dead_reason = [];
}

-- a worker whose functions count their calls and know one value
abbrev answer_codec : Codec
answer_codec = Wired.codec ℕ (λ x y. true) (λ w fm buf. (w, [])) integer_floats integer_go

abbrev write_answer : Serializer answer_codec
write_answer w fm = (suc w, ok (7 ∷ []))

abbrev read_answer : Deserializer answer_codec
read_answer w buf = (suc w, buf, ok the_answer)

abbrev one_message : Json answer_codec
one_message = record {
  base = λ line. none;
  bind_message = λ line. err [];
  message_data = λ line. ok a_message;
  message_hex = λ line. ok (encode_hex (7 ∷ []));
  marshal = json_marshal integer_floats;
}

abbrev answer_loop : ℕ → Loop answer_codec
answer_loop w =
    Wired.bound ℕ (λ x y. true) (λ w fm buf. (w, [])) integer_floats integer_go a_schema
      write_answer read_answer none w

serve_deserialize-serve_serialize_example :
    (sent : Entries) × (again : Entries) × (serve_serialize answer_codec one_message
        (answer_loop 0)
        (lit "a")
        (lit "s")
      ≡ (answer_loop 1, serialized answer_codec (lit "a") (7 ∷ []) none))
    × (serve_deserialize answer_codec one_message (answer_loop 1) (lit "b") (lit "d")
        ≡ (answer_loop 2, deserialized answer_codec (lit "b") (members sent) none))
    × (emit answer_codec one_message (deserialized answer_codec (lit "b") (members sent) none)
        ≡ some (
            written answer_codec
              (deserialized answer_codec (lit "b") (members sent) none)
              (members again)))
    × (decode_fields integer_go (schema_fields a_schema) (λ k. find_entry k again) ≡ ok the_answer)
serve_deserialize-serve_serialize_example =
    serve_deserialize-serve_serialize ℕ (λ x y. true) (λ w fm buf. (w, [])) integer_floats
      integer_go one_message a_schema write_answer read_answer none 0 1 2 (lit "a") (lit "s")
      (lit "b") (lit "d") (7 ∷ []) (7 ∷ []) a_message the_answer IsExact-law IsRanged-law
      a_schema-AreWire refl the_answer-AreTextPairs refl reads_message refl (omega arith, tt) refl
      refl

-- data that JSON cannot carry gives an empty line
empty_line :
    emit answer_codec one_message
      (deserialized answer_codec (lit "b") ((lit "n", Value.float64 (2047 * 2 ^ 52 + 1)) ∷ []) none)
    ≡ none
unfolding emit json_entries utf8_value normalize normalize_float
empty_line = refl
