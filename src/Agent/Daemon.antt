-- ===== src/Agent/Daemon.antt =====
-- internal/agent/daemon/daemon.go: the agent's connection to the server, the messages that it
-- handles, and the tasks that it starts. The clock is an argument; it is read once for a task.
pub mod Tasks
pub mod Streams
pub mod Verdict
pub mod Overlap
pub mod Lines
use uruflow.Prelude.{
  ℕ, suc, Bool, true, false, ◌&&◌, ◌==◌, List, [], ◌∷◌, ◌++◌, Option, none, some, Text, bytes, map,
  eqb, ltb, length, take, drop, if◌then◌else◌,
}
use uruflow.Prelude.Int.{ℤ, pos}
use uruflow.Prelude.Maps.{lookup, insert, delete}
use uruflow.Protocol.{Message}
use uruflow.Protocol.MessageType
use uruflow.Protocol.Payloads
use uruflow.Protocol.Payloads.{
  Json, AuthPayload, CommandPayload, ContainerLogsRequestPayload, new_message, decode, zero_command,
  zero_logs_request, zero_logs_stop, zero_auth_ok, zero_auth_fail,
}

-- `connected` says that `conn` is not nil, `socket_open` that a write through `writer` succeeds;
-- `sent` is what was written since the last connect. A cancel function is a number, in the order
-- in which the streams began; `cancelled` are those that were called. `log_target` is the command
-- that the handler in `deployer` writes for.
pub record Agent : Type 0 where
  pub agent_id : Text
  pub name : Text
  pub connected : Bool
  pub socket_open : Bool
  pub sent : List Message
  pub has_docker : Bool
  pub streams : List (Text × ℕ)
  pub cancelled : List ℕ
  pub next_stream : ℕ
  pub log_target : Option Text

-- `safeWrite`, whose error nobody uses.
unfoldable pub safe_write : Agent → Message → Agent
safe_write a msg = if a.socket_open then record a { sent = a.sent ++ msg ∷ [] } else a

pub data AuthError : Type 0 where
  not_written : AuthError
  not_read : AuthError
  rejected : Text → AuthError
  unexpected : ℕ → AuthError
  bad_payload : AuthError

abbrev reason_of : Option Payloads.AuthFailPayload → Text
reason_of none = []
reason_of (some fail) = fail.reason

-- The answer to the login; `none` is a read that failed.
unfoldable pub check_answer : Json → Agent → Option Message → Agent × Option AuthError
check_answer json a none = (a, some not_read)
check_answer json a (some resp) =
    if resp.type == MessageType.auth_fail
    then (a, some (rejected (reason_of (decode json.auth_fail zero_auth_fail resp))))
    else if resp.type == MessageType.auth_ok
    then elim (decode json.auth_ok zero_auth_ok resp) [
      | none ↦ (a, some bad_payload)
      | some ok ↦ (record a { agent_id = ok.agent_id; name = ok.name }, none)
    ]
    else (a, some (unexpected resp.type))

-- `authenticate`
unfoldable pub authenticate : Json → AuthPayload → Agent → Option Message → Agent × Option AuthError
unfolding safe_write check_answer
authenticate json auth a answer =
    if a.socket_open
    then check_answer json (safe_write a (new_message json.auth MessageType.auth auth)) answer
    else (a, some not_written)

abbrev pub close_on_error : Agent × Option AuthError → Agent × Option AuthError
close_on_error (a, none) = (a, none)
close_on_error (a, some e) = (record a { socket_open = false }, some e)

-- `connect`, where the server accepts the connection.
unfoldable pub connect : Json → AuthPayload → Agent → Option Message → Agent × Option AuthError
unfolding authenticate
connect json auth a answer =
    close_on_error
      (authenticate json auth (record a { connected = true; socket_open = true; sent = [] }) answer)

-- `stopContainerStream`
unfoldable pub stop_container_stream : Agent → Text → Agent
stop_container_stream a container_id = elim (lookup container_id a.streams) [
  | none ↦ a
  | some n ↦ record a { streams = delete container_id a.streams; cancelled = a.cancelled ++ n ∷ [] }
]

abbrev hang_up : Agent → Agent
hang_up a =
    let told = safe_write a Payloads.disconnect in
    if a.connected then record told { connected = false; socket_open = false } else a

-- `disconnect`; the functions of the map are called in some order.
unfoldable pub disconnect : Agent → Agent
unfolding safe_write
disconnect a =
    let down = hang_up a in
    record down { streams = []; cancelled = down.cancelled ++ map (λ e. e.1) down.streams }

-- What runs beside the loop, as a goroutine of its own.
pub data Task : Type 0 where
  run_command : CommandPayload → Task
  follow_logs : ContainerLogsRequestPayload → Task

-- `handleMessage`
unfoldable pub handle_message : Json → Agent → Message → Agent × Option Task
unfolding safe_write disconnect stop_container_stream
handle_message json a msg =
    if msg.type == MessageType.ping
    then (safe_write a Payloads.pong, none)
    else if msg.type == MessageType.command
    then (
      a,
      elim (decode json.command zero_command msg) [
        | none ↦ none
        | some cmd ↦ some (run_command cmd)
      ],
    )
    else if msg.type == MessageType.disconnect
    then (disconnect a, none)
    else if msg.type == MessageType.container_logs_request
    then (
      a,
      elim (decode json.logs_request zero_logs_request msg) [
        | none ↦ none
        | some req ↦ some (follow_logs req)
      ],
    )
    else if msg.type == MessageType.container_logs_stop
    then (
      elim (decode json.logs_stop zero_logs_stop msg) [
        | none ↦ a
        | some req ↦ stop_container_stream a req.container_id
      ],
      none,
    )
    else (a, none)
