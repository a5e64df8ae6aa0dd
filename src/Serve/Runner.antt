-- ===== src/Serve/Runner.antt =====
-- The runner of internal/worker/worker.go on a worker that is the loop of lib/go/serify/run.go.
use serify.Base.{
  true, Option, none, some, List, [], ◌∷◌, ◌++◌, if◌then◌else◌, Str, lit, str_eq, Assoc,
}
use serify.Proto.{Request, Response, op_exit}
use serify.Worker.{
  message, timed_out, read_error, plain, Outcome, failed, ok, Process, Worker, Delivery,
}
use serify.Serve.Dispatch.{serve_request, request_of}
use serify.Serve.{Codec, Json, Format, Loop, emit}

-- What the runner makes of a line: `Read` refuses an empty one.
abbrev pub deliver : Option Response → Delivery
deliver (some r) = message r
deliver none = read_error (lit "malformed worker response: unexpected end of JSON input (line: )")

abbrev pub received : Option Response → Outcome Response
received (some r) = ok r
received none =
    failed (plain (lit "malformed worker response: unexpected end of JSON input (line: )"))

module _ (codec : Codec) (types : Assoc (Assoc (Format codec))) (json : Json codec)
    (wire : Request → Str) where
  -- the loop, with the answers that are on their way
  abbrev pub Pipe : Type 0
  Pipe = Loop codec × List (Option Response)

  abbrev pub take_in : Pipe → Option (Str × Str) → Str → Pipe
  take_in (s, pending) none line = (s, pending)
  take_in (s, pending) (some (op, id)) line =
      if str_eq op op_exit
      then (s, pending)
      else (let (s', answer) = serve_request codec types json s op id line in
          (s', pending ++ emit codec json answer ∷ []))

  abbrev pub give_out : Pipe → Pipe × Delivery
  give_out (s, []) = ((s, []), timed_out)
  give_out (s, line ∷ pending) = ((s, pending), deliver line)

  -- A worker process that is the loop; `wire` is the line that the runner writes for a request.
  abbrev pub library_process : Loop codec → Process
  library_process start = record {
    State = Pipe;
    start = λ dir parts. some (start, []);
    write = λ p req. (take_in p (request_of codec json (wire req)) (wire req), none);
    read = give_out;
    kill = λ p. p;
    close = λ p. p;
    wait = λ p. (p, none, true);
  }
