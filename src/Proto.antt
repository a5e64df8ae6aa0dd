-- ===== src/Proto.antt =====
-- internal/proto: the messages between the runner and a worker.
pub mod Encode
pub mod Keys
pub mod Tests
use serify.Base.{ℕ, Bool, Option, List, [], Str, lit, Assoc}
use serify.Conf.{Value, Field}

unfoldable pub op_ping : Str
op_ping = lit "ping"

unfoldable pub op_bind : Str
op_bind = lit "bind"

unfoldable pub op_serialize : Str
op_serialize = lit "serialize"

unfoldable pub op_deserialize : Str
op_deserialize = lit "deserialize"

unfoldable pub op_exit : Str
op_exit = lit "exit"

unfoldable pub status_ok : Str
status_ok = lit "OK"

unfoldable pub status_error : Str
status_error = lit "ERROR"

unfoldable pub status_skipped : Str
status_skipped = lit "SKIPPED"

abbrev pub protocol_version : ℕ
protocol_version = 2

-- The five requests; the op that each constructor stamps is `request_op`.
pub data Request : Type 0 where
  ping : Request
  bind : List Field → Str → Str → Bool → Request
  serialize : Str → Assoc Value → Request
  deserialize : Str → Str → Request
  exit : Request

unfoldable pub request_op : Request → Str
request_op ping = op_ping
request_op (bind schema typ format audit) = op_bind
request_op (serialize id content) = op_serialize
request_op (deserialize id hex) = op_deserialize
request_op exit = op_exit

-- `AuditReport`; an absent `*bool` is `none`.
pub record AuditReport : Type 0 where
  pub mutations : List Str
  pub stable : Option Bool
  pub output_zero_copy_fields : List Str
  pub zero_copy_fields : List Str
  pub input_mutated : Bool
  pub deser_stable : Option Bool

pub record Response : Type 0 where
  pub id : Str
  pub op : Str
  pub status : Str
  pub hex : Str
  pub content : Assoc Value
  pub version : Option ℕ
  pub error : Str
  pub reason : Str
  pub audit : Option AuditReport
