-- ===== src/Worker/Tests.antt =====
-- The calls of a worker at concrete answers.
use serify.Base.{true, false, none, some, List, [], ◌∷◌, ◌≡◌, refl, Str, lit, str_eq, is_empty}
use serify.Proto.{
  ping, bind, serialize, Response, op_ping, op_bind, op_serialize, status_ok, status_error,
  status_skipped, protocol_version, request_op,
}
use serify.Worker.{
  message, read_error, Process, Worker, Delivery, send, bind_to, extract_op, extract_id, exchange,
  judged, judge_delivery, judge_bind, judge_ping,
}
use serify.Worker.Life.{handshake}
use serify.Worker.Match.{Answers, delivered, send-Answers, handshake_sound, bind_to_sound}

-- a process that is the list of what it will deliver
abbrev pub next : List Delivery → List Delivery × Delivery
next [] = ([], read_error (lit "EOF"))
next (d ∷ rest) = (rest, d)

abbrev pub scripted : Process
scripted = record {
  State = List Delivery;
  start = λ dir parts. some [];
  write = λ s req. (s, none);
  read = next;
  kill = λ s. [];
  close = λ s. s;
  wait = λ s. (s, none, true);
}

abbrev pub answer : Str → Str → Str → Response
answer id op status = record {
  id = id;
  op = op;
  status = status;
  hex = lit "00";
  content = [];
  version = some protocol_version;
  error = [];
  reason = [];
  audit = none;
}

abbrev pub live : List Delivery → Worker scripted
live deliveries = record {
  language = lit "go";
  dir = [];
  process = deliveries;
  stderr_lines = [];
  dead = false;
  dead_reason = [];
}

abbrev pub stopped : Worker scripted
stopped = record (live []) { dead = true; dead_reason = lit "stopped" }

send-Answers_example :
    (false ≡ false)
    × (delivered scripted
          (live (message (answer (lit "T") op_serialize status_ok) ∷ []))
          (serialize (lit "T") [])
        ≡ message (answer (lit "T") op_serialize status_ok))
    × Answers
        (extract_op (serialize (lit "T") []))
        (extract_id (serialize (lit "T") []))
        (answer (lit "T") op_serialize status_ok)
unfolding send exchange op_serialize status_ok lit judge_delivery extract_id str_eq extract_op
    request_op
send-Answers_example =
    send-Answers scripted (live (message (answer (lit "T") op_serialize status_ok) ∷ []))
      (serialize (lit "T") []) 10 refl

handshake_sound_example :
    (resp : Response) × (delivered scripted (live (message (answer [] op_ping status_ok) ∷ [])) ping
      ≡ message resp)
    × (resp.op ≡ op_ping)
    × (resp.status ≡ status_ok)
    × (resp.version ≡ some protocol_version)
unfolding handshake exchange judged op_ping status_ok lit judge_delivery str_eq judge_ping
    status_error
handshake_sound_example =
    handshake_sound scripted (live (message (answer [] op_ping status_ok) ∷ [])) 10 refl

bind_to_sound_example :
    (resp : Response) × (delivered scripted
        (live (message (answer [] op_bind []) ∷ []))
        (bind [] (lit "T") (lit "json") true)
      ≡ message resp)
    × (resp.op ≡ op_bind)
    × (str_eq resp.status status_error ≡ false)
    × (str_eq resp.status status_skipped ≡ false)
    × (false ≡ false)
    × (is_empty (lit "T") ≡ false)
    × (is_empty (lit "json") ≡ false)
unfolding bind_to exchange judged op_bind lit judge_delivery str_eq judge_bind status_error
    status_skipped
bind_to_sound_example =
    bind_to_sound scripted (live (message (answer [] op_bind []) ∷ [])) [] (lit "T") (lit "json") 10
      true refl
