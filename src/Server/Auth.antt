-- ===== src/Server/Auth.antt =====
-- `authenticate` of internal/tcp/server.go.
use uruflow.Prelude.{◌==◌, [], Option, none, some, Text, bytes, if◌then◌else◌}
use uruflow.Models.{Time, AgentStatus}
use uruflow.Config.{AgentConfig, get_agent_by_token}
use uruflow.Protocol.{Message}
use uruflow.Protocol.MessageType
use uruflow.Protocol.Payloads.{AuthPayload, zero_auth, decode, new_message, error_message}
use uruflow.Storage.{Db}
use uruflow.Storage.Agents.{get_agent, create_agent, update_agent}
use uruflow.Server.{Connection, Server, Env, with_db}
use uruflow.Server.Connections.{send, set_agent}

-- The agent's record in the database after a login; a failing INSERT is ignored.
unfoldable pub record_login : Time → Text → AgentConfig → AuthPayload → Db → Db
record_login now host cfg auth db = elim (get_agent db cfg.id) [
  | none ↦
      (create_agent db now (record {
        id = cfg.id;
        name = cfg.name;
        token = cfg.token;
        host = host;
        hostname = auth.hostname;
        version = auth.version;
        status = AgentStatus.online;
        last_heartbeat = now;
        metrics = none;
        containers = [];
        registered_at = now;
      })).0
  | some existing ↦ update_agent db (record existing {
    host = host;
    hostname = auth.hostname;
    version = auth.version;
    status = AgentStatus.online;
    last_heartbeat = now;
  })
]

-- A token that the configuration knows: the agent is recorded and greeted.
unfoldable pub accept :
    Env → Time → Server → Connection → AgentConfig → AuthPayload → Server × Option Text
unfolding record_login
accept env now s conn cfg auth =
    let s₁ = with_db s (record_login now conn.host cfg auth s.db) in
    let s₂ = set_agent s₁ conn.id cfg.id cfg.name in
    let greeting =
      new_message env.json.auth_ok MessageType.auth_ok
        (record { agent_id = cfg.id; name = cfg.name; server_version = bytes "1.1.0" }) in
    ((send s₂ conn.id greeting).0, some cfg.id)

unfoldable pub check_token :
    Env → Time → Server → Connection → AuthPayload → Option AgentConfig → Server × Option Text
unfolding accept
check_token env now s conn auth none =
    let refusal =
      new_message env.json.auth_fail MessageType.auth_fail
        (record { reason = bytes "invalid token" }) in
    ((send s conn.id refusal).0, none)
check_token env now s conn auth (some cfg) = accept env now s conn cfg auth

unfoldable pub check_payload :
    Env → Time → Server → Connection → Option AuthPayload → Server × Option Text
unfolding check_token
check_payload env now s conn none =
    ((send s conn.id (error_message env.json 400 (bytes "invalid auth payload"))).0, none)
check_payload env now s conn (some auth) =
    check_token env now s conn auth (get_agent_by_token s.config auth.token)

-- On the message that arrived; `none` is a read that failed or timed out. The result is the
-- agent's id, or `none` for an error.
unfoldable pub authenticate :
    Env → Time → Server → Connection → Option Message → Server × Option Text
unfolding check_payload
authenticate env now s conn none = (s, none)
authenticate env now s conn (some msg) =
    if msg.type == MessageType.auth
    then check_payload env now s conn (decode env.json.auth zero_auth msg)
    else ((send s conn.id (error_message env.json 401 (bytes "expected AUTH message"))).0, none)
