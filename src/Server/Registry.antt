-- ===== src/Server/Registry.antt =====
-- The map from agents to connections in internal/tcp/server.go, and what goes through it.
pub mod Liveness
use uruflow.Prelude.{
  ℕ, Bool, true, false, not, List, [], ◌∷◌, ◌++◌, Option, none, some, Text, map, ◌^◌, ◌*◌,
  if◌then◌else◌,
}
use uruflow.Prelude.Int.{ℤ, pos, ltb_ℤ, ◌-ℤ◌}
use uruflow.Prelude.Maps.{lookup, insert, delete}
use uruflow.Models.{Time, AgentStatus, Command}
use uruflow.Alerts.{check_offline}
use uruflow.Protocol.MessageType
use uruflow.Protocol.Payloads.{disconnect, ping, new_message, CommandPayload}
use uruflow.Storage.Agents.{update_agent_status}
use uruflow.Storage.Alerts.{create_alert}
use uruflow.Server.{Connection, Server, Env, with_db, next_id, drawn}
use uruflow.Server.Connections.{get_connection, send, close}

abbrev close_old : Server → Option Text → Server
close_old s none = s
close_old s (some old) = close s old

-- `addConnection`: the connection that the agent had before is closed.
unfoldable pub add_connection : Server → Text → Text → Server
add_connection s agent_id conn_id =
    let s' = close_old s (lookup agent_id s.registry) in
    record s' { registry = insert agent_id conn_id s.registry }

-- The name that the object `conn_id` carries.
unfoldable pub name_of : Server → Text → Text
unfolding get_connection
name_of s conn_id = elim (get_connection s conn_id) [ none ↦ [] | some c ↦ c.agent_name ]

abbrev mark_offline : Env → Time → Text → Text → Server → Server
mark_offline env now agent_id agent_name s =
    let db = update_agent_status s.db now agent_id AgentStatus.offline in
    let alert = check_offline (next_id env s) now agent_id agent_name in
    drawn (with_db s (create_alert db alert).0)

-- `removeConnection`: whatever connection the agent has is closed and forgotten, the agent is
-- offline, and an alert says so.
unfoldable pub remove_found : Env → Time → Server → Text → Option Text → Server
remove_found env now s agent_id none = s
remove_found env now s agent_id (some conn_id) =
    let s' = close s conn_id in
    mark_offline env now agent_id (name_of s conn_id)
      (record s' { registry = delete agent_id s.registry })

unfoldable pub remove_connection : Env → Time → Server → Text → Server
unfolding remove_found
remove_connection env now s agent_id = remove_found env now s agent_id (lookup agent_id s.registry)

unfoldable pub is_agent_connected : Server → Text → Bool
is_agent_connected s agent_id = elim (lookup agent_id s.registry) [ none ↦ false | some _ ↦ true ]

-- `SendCommand`: false stands for the error, of a missing connection or of `Send`.
unfoldable pub send_command : Env → Server → Text → Command → Server × Bool
send_command env s agent_id cmd = elim (lookup agent_id s.registry) [
  | none ↦ (s, false)
  | some conn_id ↦ send s conn_id (
      new_message env.json.command MessageType.command
        (record { id = cmd.id; type = cmd.type; payload = cmd.payload }))
]

-- `StreamContainerLogs`
unfoldable pub stream_container_logs : Env → Server → Text → Text → ℤ → Bool → Server × Bool
stream_container_logs env s agent_id container_id tail follow = elim (lookup agent_id s.registry) [
  | none ↦ (s, false)
  | some conn_id ↦ send s conn_id (
      new_message env.json.logs_request MessageType.container_logs_request
        (record { container_id = container_id; tail = tail; follow = follow }))
]

-- `StopContainerLogs`: an agent that is not connected is no error.
unfoldable pub stop_container_logs : Env → Server → Text → Text → Server × Bool
stop_container_logs env s agent_id container_id = elim (lookup agent_id s.registry) [
  | none ↦ (s, true)
  | some conn_id ↦ send s conn_id (
      new_message env.json.logs_stop MessageType.container_logs_stop
        (record { container_id = container_id }))
]

-- `GetConnectedAgents`, in one of the orders that Go's map iteration may choose.
unfoldable pub get_connected_agents : Server → List Text
get_connected_agents s = map (λ e. e.0) s.registry

unfoldable pub pong_timeout : ℕ
pong_timeout = 45 * 10 ^ 9

-- One round of the loop of `pingAll`, on a connection of the snapshot taken before it. A
-- connection that has been silent for too long is not closed itself: the connection that its
-- agent has now is removed.
unfoldable pub ping_one : Env → Time → Server → Text → Server
unfolding pong_timeout get_connection
ping_one env now s conn_id = elim (get_connection s conn_id) [
  | none ↦ s
  | some c ↦
      if ltb_ℤ (pos pong_timeout) (now -ℤ c.last_ping)
      then remove_connection env now s c.agent_id
      else (send s conn_id ping).0
]

unfoldable pub ping_each : Env → Time → Server → List Text → Server
ping_each env now s [] = s
ping_each env now s (c ∷ cs) = ping_each env now (ping_one env now s c) cs

unfoldable pub ping_all : Env → Time → Server → Server
unfolding ping_each
ping_all env now s = ping_each env now s (map (λ e. e.1) s.registry)

-- The loop of `Stop` over the connections; closing the listener is left out.
unfoldable pub stop_each : Server → List Text → Server
stop_each s [] = s
stop_each s (c ∷ cs) = stop_each (close (send s c disconnect).0 c) cs

unfoldable pub stop : Server → Server
unfolding stop_each
stop s = stop_each s (map (λ e. e.1) s.registry)
