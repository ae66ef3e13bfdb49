-- ===== src/Server/Dispatch.antt =====
-- `handleConnection`, `handleMessages` and `processMessage` of internal/tcp/server.go.
pub mod Reports
use uruflow.Prelude.{Bool, ◌==◌, List, [], ◌∷◌, Option, none, some, Text, if◌then◌else◌}
use uruflow.Models.{Time}
use uruflow.Protocol.{Message}
use uruflow.Protocol.MessageType
use uruflow.Protocol.Payloads.{decode, zero_logs_data}
use uruflow.Server.{Connection, Server, Env, call, container_log, next_id, drawn}
use uruflow.Server.Connections.{new_connection, get_connection, close, update_ping}
use uruflow.Server.Registry.{add_connection, remove_connection}
use uruflow.Server.Auth.{authenticate}
use uruflow.Server.Metrics.{handle_metrics}
use uruflow.Server.Commands.{
  handle_command_ack, handle_command_start, handle_command_log, handle_command_done,
}

-- A type that is not listed is ignored.
unfoldable pub process_message : Env → Time → Server → Connection → Message → Server
process_message env now s conn msg =
    if msg.type == MessageType.metrics
    then handle_metrics env now s conn msg
    else if msg.type == MessageType.command_ack
    then handle_command_ack env s msg
    else if msg.type == MessageType.command_start
    then handle_command_start env s msg
    else if msg.type == MessageType.command_log
    then handle_command_log env s conn msg
    else if msg.type == MessageType.command_done
    then handle_command_done env now s msg
    else if msg.type == MessageType.pong
    then update_ping s now conn.id
    else if msg.type == MessageType.disconnect
    then close s conn.id
    else if msg.type == MessageType.container_logs_data
    then elim (decode env.json.logs_data zero_logs_data msg) [
      | none ↦ s
      | some line ↦ call s.has_on_container_log (container_log conn.agent_id line) s
    ]
    else s

-- The message loop on the messages that `Receive` returns before it fails, each with its time.
-- `Receive` reads from a buffer and does not ask whether the object was closed: frames that were in
-- the buffer by then are still handled. The object is looked up anew for each message, since its
-- handlers read it through a pointer.
unfoldable pub handle_messages : Env → Server → Text → List (Time × Message) → Server
handle_messages env s conn_id [] = s
handle_messages env s conn_id ((now, msg) ∷ later) = elim (get_connection s conn_id) [
  | none ↦ s
  | some conn ↦ handle_messages env (process_message env now s conn msg) conn_id later
]

-- The first half of `handleConnection`: a new object for the accepted socket, the login, and the
-- entry in the map. The result names the agent; a refused connection is closed.
unfoldable pub admit : Text → Server × Option Text → Server × Option Text
admit conn_id (s, none) = (close s conn_id, none)
admit conn_id (s, some agent_id) = (add_connection s agent_id conn_id, some agent_id)

unfoldable pub open_connection :
    Env → Time → Server → Text → Bool → Option Message → Server × Option Text
unfolding admit
open_connection env now s host reachable first =
    let conn = new_connection (next_id env s) host reachable now in
    admit conn.id (authenticate env now (drawn (record s { conns = conn ∷ s.conns })) conn first)

unfoldable pub serve : Env → Text → List (Time × Message) → Time → Server × Option Text → Server
serve env conn_id messages end (s, none) = s
serve env conn_id messages end (s, some agent_id) =
    remove_connection env end (handle_messages env s conn_id messages) agent_id

-- `handleConnection` with no other connection in between: the agent is removed when the loop ends.
unfoldable pub handle_connection :
    Env → Time → Server → Text → Bool → Option Message → List (Time × Message) → Time → Server
unfolding serve
handle_connection env now s host reachable first messages end =
    serve env (next_id env s) messages end (open_connection env now s host reachable first)
