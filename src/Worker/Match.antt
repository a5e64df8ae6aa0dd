-- ===== src/Worker/Match.antt =====
-- What the runner knows of a response that internal/worker/worker.go hands on.
use mathlib.Core.Path.{subst, sym, ◌∙◌}
use serify.Base.{
  ℕ, Bool, true, false, Option, none, some, List, [], ◌≡◌, refl, arith, Str, lit, str_eq,
  str_eq_iff, is_empty, if◌then◌else◌,
}
use serify.Conf.{Field}
use serify.Proto.{
  Request, Response, bind, ping, op_bind, op_ping, status_ok, status_error, status_skipped,
  protocol_version,
}
use serify.Worker.{
  Outcome, ok, failed, message, read_error, timed_out, ctx_canceled, ctx_expired, Process, Worker,
  Error, dead_error, Delivery, judge_delivery, accept, send, bind_to, settle, exchange, judged,
  judge_bind, judge_ping, judge_version, extract_op, extract_id, after_write,
}
use serify.Worker.Life.{handshake}

-- the response carries the id and the op that were asked for
pub record Answers (expect_op expect_id : Str) (resp : Response) : Type 0 where
  pub same_id : is_empty expect_id ≡ false → resp.id ≡ expect_id
  pub same_op : is_empty expect_op ≡ false → resp.op ≡ expect_op

Answers-accept :
    (op id : Str) (resp r : Response) → accept op id resp ≡ ok r → (r ≡ resp) × Answers op id resp
unfolding accept
Answers-accept op id resp r h = (
  ground arith,
  record {
    same_id = λ n. ground (arith, str_eq_iff resp.id id);
    same_op = λ n. ground (arith, str_eq_iff resp.op op);
  },
)

Answers-judge_delivery :
    (d : Delivery) (op id : Str) (sec : ℕ) {r : Response}
    → judge_delivery d op id sec ≡ ok r
    → (d ≡ message r) × Answers op id r
unfolding judge_delivery
Answers-judge_delivery (message resp) op id sec {r} h =
    let (e, a) = Answers-accept op id resp r h in (cc e, subst (Answers op id) (sym e) a)
Answers-judge_delivery (read_error text) op id sec h = cc
Answers-judge_delivery timed_out op id sec h = cc
Answers-judge_delivery ctx_canceled op id sec h = cc
Answers-judge_delivery ctx_expired op id sec h = cc

module _ (os : Process) where
  -- the next message after the request is written
  abbrev pub delivered : Worker os → Request → Delivery
  delivered w req = (os.read (os.write w.process req).0).1

  ok-settle : (w : Worker os) (o : Outcome Response) → (settle os w o).1 ≡ o
  unfolding settle
  ok-settle w (ok resp) = refl
  ok-settle w (failed err) = refl

  ok-after_write :
      (w : Worker os) (err : Option Str) (wrap : Str → Str)
      (next : Worker os → Worker os × Outcome Response) {resp : Response}
      → (after_write os w err wrap next).1 ≡ ok resp
      → (err ≡ none) × ((next w).1 ≡ ok resp)
  unfolding after_write
  ok-after_write w none wrap next h = (refl, h)
  ok-after_write w (some text) wrap next h = cc

  Answers-exchange :
      (w : Worker os) (req : Request) (wrap : Str → Str) (op id : Str) (sec : ℕ) {resp : Response}
      → (exchange os w req wrap op id sec).1 ≡ ok resp
      → (delivered w req ≡ message resp) × Answers op id resp
  unfolding exchange
  Answers-exchange w req wrap op id sec h =
      let v = record w { process = (os.write w.process req).0 } in
      let (_, e) = ok-after_write v (os.write w.process req).1 wrap _ h in
      Answers-judge_delivery _ op id sec
        (sym (ok-settle (record v { process = (os.read v.process).0 }) _) ∙ e)

  not_refused :
      (b : Bool) (w : Worker os) (err : Error) (r : Worker os × Outcome Response) {resp : Response}
      → (if b then (w, failed err) else r).1 ≡ ok resp
      → (b ≡ false) × (r.1 ≡ ok resp)
  not_refused true w err r h = cc
  not_refused false w err r h = (refl, h)

  -- A response that `Send` returns comes from a live worker, is the very next message after the
  -- request was written, and carries the request's id (when that is not empty) and its op.
  pub send-Answers :
      (w : Worker os) (req : Request) (sec : ℕ) {resp : Response}
      → (send os w req sec).1 ≡ ok resp
      → (w.dead ≡ false)
        × (delivered w req ≡ message resp)
        × Answers (extract_op req) (extract_id req) resp
  unfolding send
  send-Answers w req sec h =
      let (live, e) = not_refused w.dead w (dead_error w.dead_reason) _ h in
      let (d, a) = Answers-exchange w req _ _ _ sec e in (live, d, a)

  -- the checks on a response of the ping handshake
  ok-judge_ping :
      (resp : Response)
      → judge_ping resp ≡ none
      → (resp.status ≡ status_ok) × (resp.version ≡ some protocol_version)
  unfolding judge_ping judge_version
  ok-judge_ping resp h = ground (arith, str_eq_iff resp.status status_ok)

  ok-judged :
      (judge : Response → Option Error) (r : Worker os × Outcome Response)
      → (judged os judge r).1 ≡ none
      → (resp : Response) × (r.1 ≡ ok resp) × (judge resp ≡ none)
  unfolding judged
  ok-judged judge (w, ok resp) h = (resp, refl, h)
  ok-judged judge (w, failed err) h = cc

  -- A handshake succeeds only on a message of op "ping" and status OK that reports the very
  -- protocol version of the runner.
  pub handshake_sound :
      (w : Worker os) (sec : ℕ)
      → (handshake os w sec).1 ≡ none
      → (resp : Response) × (delivered w ping ≡ message resp)
        × (resp.op ≡ op_ping)
        × (resp.status ≡ status_ok)
        × (resp.version ≡ some protocol_version)
  unfolding handshake
  handshake_sound w sec h =
      let (resp, e, j) =
        ok-judged judge_ping (exchange os w ping (λ text. text) op_ping [] sec) h in
      let (d, a) = Answers-exchange w ping (λ text. text) op_ping [] sec e in
      let (st, v) = ok-judge_ping resp j in (resp, d, a.same_op (unfold op_ping lit in refl), st, v)

  bind_guards :
      (dead no_type no_format : Bool) (w : Worker os) (e f g : Error) (r : Worker os × Option Error)
      → (if dead
          then (w, some e)
          else if no_type
          then (w, some f)
          else if no_format
          then (w, some g)
          else r).1
        ≡ none
      → (dead ≡ false) × (no_type ≡ false) × (no_format ≡ false) × (r.1 ≡ none)
  bind_guards dead no_type no_format w e f g r h = ground arith

  -- `Bind` succeeds only on a live worker, for a named type and format, after a message of op
  -- "bind" whose status is neither ERROR nor SKIPPED.
  pub bind_to_sound :
      (w : Worker os) (schema : List Field) (typ format : Str) (sec : ℕ) (audit : Bool)
      → (bind_to os w schema typ format sec audit).1 ≡ none
      → (resp : Response) × (delivered w (bind schema typ format audit) ≡ message resp)
        × (resp.op ≡ op_bind)
        × (str_eq resp.status status_error ≡ false)
        × (str_eq resp.status status_skipped ≡ false)
        × (w.dead ≡ false)
        × (is_empty typ ≡ false)
        × (is_empty format ≡ false)
  unfolding bind_to
  bind_to_sound w schema typ format sec audit h =
      let (live, t, f, k) = bind_guards w.dead (is_empty typ) (is_empty format) w _ _ _ _ h in
      let (resp, e, j) =
        ok-judged judge_bind
          (exchange os w (bind schema typ format audit) (λ text. text) op_bind [] sec) k in
      let (d, a) =
        Answers-exchange w (bind schema typ format audit) (λ text. text) op_bind [] sec e in
      let (x, y) = ok-judge_bind resp j in
      (resp, d, a.same_op (unfold op_bind lit in refl), x, y, live, t, f)
    where
      ok-judge_bind :
          (resp : Response)
          → judge_bind resp ≡ none
          → (str_eq resp.status status_error ≡ false) × (str_eq resp.status status_skipped ≡ false)
      ok-judge_bind resp j = unfold judge_bind in ground arith
