-- ===== src/Agent/Daemon/Streams.antt =====
-- The log streams of internal/agent/daemon/daemon.go (`streamCancels`): the loop, the commands, the
-- streams and the reports of an agent as interleaved steps.
pub mod Upkeep
pub mod Accounts
pub mod Races
use uruflow.Prelude.{
  ◌≡◌, refl, sym, ap, ◌∙◌, ℕ, ◌+◌, ◌==◌, Bool, true, false, List, [], ◌∷◌, ◌++◌, Option, none, some,
  Text, arith, map, eqb_iff, eqb, eqb_self, ltb, count, count-append, Bool-cases, Option-cases, inl,
  inr, if◌then◌else◌,
}
use uruflow.Prelude.Int.{ℤ}
use uruflow.Prelude.Maps.{
  lookup, insert, delete, lookup-delete, lookup-insert, Unique, Unique-delete, Unique-insert,
  delete-none,
}
use uruflow.Protocol.{Message}
use uruflow.Protocol.Payloads
use uruflow.Protocol.Payloads.{Json, AuthPayload, decode, zero_logs_stop, SystemMetrics}
use uruflow.Protocol.MessageType
use uruflow.Agent.Deploy.{LogLine}
use uruflow.Agent.Docker.{DockerContainer, ContainerStats}
use uruflow.Agent.Daemon.{
  Agent, safe_write, authenticate, check_answer, connect, disconnect, stop_container_stream,
  handle_message, AuthError, close_on_error, Task,
}
use uruflow.Agent.Daemon.Tasks.{
  send_command_done, begin_deploy, emit_log, end_deploy, ack_message, begin_stream, emit_line,
  send_metrics,
}

-- `started` and `ended` are the two ends of a task that follows a log; a request's stopping of the
-- older stream and its registration of the new one are one step, though the lock is taken twice.
-- `finished` is the verdict of a command.
pub data Step (json : Json) : Agent → Agent → Type 0 where
  connected :
      (a : Agent) (auth : AuthPayload) (answer : Option Message)
      → Step json a (connect json auth a answer).0
  handled : (a : Agent) (msg : Message) → Step json a (handle_message json a msg).0
  stopped : (a : Agent) → Step json a (disconnect a)
  started : (a : Agent) (container_id : Text) → Step json a (begin_stream a container_id)
  followed :
      (a : Agent) (now : ℤ) (container_id line : Text)
      → Step json a (emit_line json now a container_id line)
  ended : (a : Agent) (container_id : Text) → Step json a (stop_container_stream a container_id)
  acknowledged : (a : Agent) (id : Text) → Step json a (safe_write a (ack_message json id))
  deploying : (a : Agent) (now : ℤ) (id : Text) → Step json a (begin_deploy json now a id)
  logged : (a : Agent) (now : ℤ) (l : LogLine) → Step json a (emit_log json now a l)
  finished :
      (a : Agent) (id status output : Text) (exit_code : ℕ)
      → Step json a (send_command_done json a id status exit_code output)
  reported :
      (a : Agent) (now : ℤ) (system : Option SystemMetrics) (stats : Text → Option ContainerStats)
      (containers : Option (List DockerContainer))
      → Step json a (send_metrics json now system stats containers a)

pub data Steps (json : Json) (from : Agent) : Agent → Type 0 where
  here : Steps json from from
  next : {a b : Agent} → Steps json from a → Step json a b → Steps json from b

-- The streams of the map.
abbrev pub running : Agent → List ℕ
running a = map (λ e. e.1) a.streams

abbrev pub times : ℕ → List ℕ → ℕ
times n ns = count (λ i. i == n) ns

-- Each stream that was begun is either in the map or cancelled, and that once; a container has one
-- stream.
unfoldable pub Accounted : Agent → Type 0
Accounted a =
    Unique a.streams
    × ((n : ℕ) → times n (running a) + times n a.cancelled ≡ (if ltb n a.next_stream then 1 else 0))
