-- ===== src/Worker/Life.antt =====
-- Start, ping and Stop of internal/worker/worker.go.
use serify.Base.{
  ℕ, Bool, true, false, Option, none, some, List, [], ◌∷◌, ◌++◌, if◌then◌else◌, Str, lit,
}
use serify.Proto.{ping, exit, op_ping}
use serify.Worker.{Process, Worker, Worker, exchange, judged, Error, plain, judge_ping}

module _ (os : Process) where
  open os use {State, start, write, read, kill, close, wait}

  -- the method `ping`
  unfoldable pub handshake : Worker os → ℕ → Worker os × Option Error
  unfolding exchange judged
  handshake w sec = judged os judge_ping (exchange os w ping (λ text. text) op_ping [] sec)

  unfoldable pub exit_error : Worker os → State × Option Str × Bool → Worker os × Option Error
  exit_error w (process, err, true) =
      (record w { process = process }, elim err [ none ↦ none | some text ↦ some (plain text) ])
  exit_error w (process, err, false) = (
    record w { process = kill process },
    some (plain (lit "worker " ++ (w.language ++ lit " did not exit within 5s; killed"))),
  )

  -- `Stop`
  unfoldable pub stop : Worker os → Worker os × Option Error
  unfolding exit_error
  stop w =
      if w.dead
      then (w, none)
      else (let (process, _) = write w.process exit in
          let v = record w { dead = true; dead_reason = lit "stopped"; process = close process } in
          exit_error v (wait v.process))

  unfoldable pub launched : Str → Worker os × Option Error → Worker os × Option Error
  unfolding stop
  launched lang (w, none) = (w, none)
  launched lang (w, some err) = (
    (stop w).0,
    some (record err { text = lit "failed to ping " ++ (lang ++ (lit " worker: " ++ err.text)) }),
  )

  unfoldable pub opened : Str → Str → Option State → ℕ → Option (Worker os × Option Error)
  unfolding launched handshake
  opened lang dir none sec = none
  opened lang dir (some process) sec = some (
      launched lang (
        handshake
          (record {
            language = lang;
            dir = dir;
            process = process;
            stderr_lines = [];
            dead = false;
            dead_reason = [];
          })
          sec))

  -- `Start` on the fields of the run command; `none` when there is no process.
  unfoldable pub start_worker : Str → Str → List Str → ℕ → Option (Worker os × Option Error)
  unfolding opened
  start_worker lang dir [] sec = none
  start_worker lang dir (part ∷ parts) sec = opened lang dir (start dir (part ∷ parts)) sec

  -- one line of the goroutine that scans stderr, and `Stderr`
  unfoldable pub log_stderr : Worker os → Str → Worker os
  log_stderr w line = record w { stderr_lines = w.stderr_lines ++ line ∷ [] }
