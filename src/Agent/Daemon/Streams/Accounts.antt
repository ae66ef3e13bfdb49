-- ===== src/Agent/Daemon/Streams/Accounts.antt =====
-- The accounts of the log streams of internal/agent/daemon/daemon.go, in every interleaving.
use uruflow.Prelude.{
  ◌≡◌, refl, ℕ, ◌==◌, Option, none, some, arith, ltb, count, Bool-cases, inl, inr, if◌then◌else◌,
}
use uruflow.Protocol.{Message}
use uruflow.Protocol.Payloads
use uruflow.Protocol.Payloads.{Json, AuthPayload, decode, zero_logs_stop, SystemMetrics}
use uruflow.Protocol.MessageType
use uruflow.Agent.Daemon.{
  Agent, safe_write, authenticate, check_answer, connect, disconnect, stop_container_stream,
  handle_message, AuthError, close_on_error,
}
use uruflow.Agent.Daemon.Tasks.{send_command_done, begin_deploy, emit_line}
use uruflow.Agent.Daemon.Streams.{
  Step, Steps, here, next, connected, handled, stopped, started, followed, ended, acknowledged,
  deploying, logged, finished, reported, times, Accounted,
}
use uruflow.Agent.Daemon.Streams.Upkeep.{
  Same, Accounted-Same, safe_write-Same, safe_write-Accounted, stop_container_stream-Accounted,
  begin_stream-Accounted, disconnect-Accounted, emit_log-Accounted, send_metrics-Accounted,
}

-- What the login answers changes the name and the sockets only.
check_answer-Same :
    (json : Json) (a : Agent) (answer : Option Message) → Same (check_answer json a answer).0 a
unfolding check_answer
check_answer-Same json a none = (refl, refl, refl)
check_answer-Same json a (some resp) = ground arith

close_on_error-Same :
    (a : Agent) (p : Agent × Option AuthError) → Same p.0 a → Same (close_on_error p).0 a
close_on_error-Same a (b, none) h = h
close_on_error-Same a (b, some e) h = h

connect-Accounted :
    (json : Json) (a : Agent) (auth : AuthPayload) (answer : Option Message)
    → Accounted a
    → Accounted (connect json auth a answer).0
unfolding connect authenticate safe_write
connect-Accounted json a auth answer =
    Accounted-Same a _ (close_on_error-Same a _ (check_answer-Same json _ answer))

stop_request-Accounted :
    (json : Json) (a : Agent) (req : Option Payloads.ContainerLogsStopPayload)
    → Accounted a
    → Accounted (elim req [ none ↦ a | some req ↦ stop_container_stream a req.container_id ])
stop_request-Accounted json a none h = h
stop_request-Accounted json a (some req) h = stop_container_stream-Accounted a req.container_id h

handle_message-Accounted :
    (json : Json) (a : Agent) (msg : Message)
    → Accounted a
    → Accounted (handle_message json a msg).0
unfolding handle_message
handle_message-Accounted json a msg h = elim (Bool-cases (msg.type == MessageType.ping)) [
  | inl e ↦ rw (handle_message, e) (safe_write-Accounted a _ h)
  | inr e0 ↦ elim (Bool-cases (msg.type == MessageType.command)) [
    | inl e ↦ rw (handle_message, e0, e) (h)
    | inr e1 ↦ elim (Bool-cases (msg.type == MessageType.disconnect)) [
      | inl e ↦ rw (handle_message, e0, e1, e) (disconnect-Accounted a h)
      | inr e2 ↦ elim (Bool-cases (msg.type == MessageType.container_logs_request)) [
        | inl e ↦ rw (handle_message, e0, e1, e2, e) (h)
        | inr e3 ↦ elim (Bool-cases (msg.type == MessageType.container_logs_stop)) [
          | inl e ↦
              rw (handle_message, e0, e1, e2, e3, e)
                (stop_request-Accounted json a (decode json.logs_stop zero_logs_stop msg) h)
          | inr e4 ↦ rw (handle_message, e0, e1, e2, e3, e4) h
        ]
      ]
    ]
  ]
]

Step-Accounted : (json : Json) {a b : Agent} → Step json a b → Accounted a → Accounted b
unfolding emit_line send_command_done begin_deploy
Step-Accounted json (connected a auth answer) h = connect-Accounted json a auth answer h
Step-Accounted json (handled a msg) h = handle_message-Accounted json a msg h
Step-Accounted json (stopped a) h = disconnect-Accounted a h
Step-Accounted json (started a k) h = begin_stream-Accounted a k h
Step-Accounted json (followed a now k line) h = safe_write-Accounted a _ h
Step-Accounted json (ended a k) h = stop_container_stream-Accounted a k h
Step-Accounted json (acknowledged a id) h = safe_write-Accounted a _ h
Step-Accounted json (deploying a now id) h = Accounted-Same a _ (safe_write-Same a _) h
Step-Accounted json (logged a now l) h = emit_log-Accounted json now a l h
Step-Accounted json (finished a id status output code) h = safe_write-Accounted a _ h
Step-Accounted json (reported a now system stats containers) h =
    send_metrics-Accounted json now system stats containers a h

-- In every interleaving of the loop, the commands, the streams and the reports, where a request
-- stops the older stream and registers the new one in one step, each log stream
-- that was begun is in the map or its cancel function was called, not both and not twice, and a
-- container has at most one stream in the map, if that was so at the start.
pub Steps-Accounted : (json : Json) {a b : Agent} → Steps json a b → Accounted a → Accounted b
Steps-Accounted json here h = h
Steps-Accounted json (next before s) h = Step-Accounted json s (Steps-Accounted json before h)

disconnect-next_stream : (a : Agent) → (disconnect a).next_stream ≡ a.next_stream
unfolding disconnect safe_write
disconnect-next_stream a = ground arith

-- A disconnect leaves no stream running: every one that was ever begun is cancelled once.
pub disconnect-all :
    (json : Json) {a b : Agent} (n : ℕ)
    → Steps json a b
    → Accounted a
    → times n (disconnect b).cancelled ≡ (if ltb n b.next_stream then 1 else 0)
unfolding Accounted disconnect count
disconnect-all json {a} {b} n before h =
    ground (
      arith,
      (disconnect-Accounted b (Steps-Accounted json before h)).1 n,
      disconnect-next_stream b,
    )
