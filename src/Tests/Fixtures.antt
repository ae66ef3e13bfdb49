-- ===== src/Tests/Fixtures.antt =====
-- A small installation: one agent, one repository, a JSON that keeps a payload's main text.
use uruflow.Prelude.{true, false, [], ◌∷◌, none, some, Text, bytes}
use uruflow.Prelude.Int.{pos}
use uruflow.Models.{Agent, AgentStatus, Repository, Deployment, DeployStatus}
use uruflow.Config.{Config}
use uruflow.Protocol.Payloads.{Codec, Json, AuthPayload, zero_auth}
use uruflow.Storage.{Db, empty_db}
use uruflow.Storage.Agents.{create_agent}
use uruflow.Server.{Server, Env}

abbrev write_only : {A : Type 0} → (A → Text) → Codec A
write_only f = record { marshal = f; unmarshal = λ t. none }

abbrev auth_codec : Codec AuthPayload
auth_codec = record {
  marshal = λ p. p.token;
  unmarshal = λ t. some (record zero_auth { token = t });
}

abbrev pub json : Json
json = record {
  auth = auth_codec;
  auth_ok = write_only (λ p. p.agent_id);
  auth_fail = write_only (λ p. p.reason);
  metrics = write_only (λ p. []);
  command = write_only (λ p. p.id);
  command_ack = write_only (λ p. p.command_id);
  command_start = write_only (λ p. p.command_id);
  command_log = write_only (λ p. p.command_id);
  command_done = write_only (λ p. p.command_id);
  error = write_only (λ p. p.message);
  logs_request = write_only (λ p. p.container_id);
  logs_data = write_only (λ p. p.container_id);
  logs_stop = write_only (λ p. p.container_id);
}

-- The n-th id is the one byte n.
abbrev pub env : Env
env = record { json = json; generate_id = λ n. n ∷ [] }

abbrev pub agent_id : Text
agent_id = bytes "agent1"

abbrev pub token : Text
token = bytes "token1"

abbrev pub repository : Repository
repository = record {
  id = pos 0;
  name = bytes "site";
  url = bytes "git@host:site";
  branch = bytes "main";
  agent_id = agent_id;
  path = [];
  auto_deploy = true;
  build_system = bytes "compose";
  build_file = [];
  build_cmd = [];
  created_at = pos 0;
}

abbrev pub agent : Agent
agent = record {
  id = agent_id;
  name = bytes "box";
  token = token;
  host = bytes "10.0.0.2";
  hostname = bytes "box";
  version = bytes "1.1.0";
  status = AgentStatus.offline;
  last_heartbeat = pos 0;
  metrics = none;
  containers = [];
  registered_at = pos 0;
}

abbrev pub config : Config
config = record {
  server = record {
    http_port = pos 9000;
    tcp_port = pos 9001;
    host = bytes "0.0.0.0";
    data_dir = [];
  };
  webhook = record { path = bytes "/webhook"; secret = bytes "s3cret" };
  tls = record { enabled = false; cert_file = []; key_file = []; auto_cert = false };
  agents = record { id = agent_id; name = bytes "box"; token = token } ∷ [];
  repositories = repository ∷ [];
}

abbrev pub deployment : Deployment
deployment = record {
  id = bytes "d1";
  repository = bytes "site";
  branch = bytes "main";
  commit = bytes "0123456789";
  agent_id = agent_id;
  agent_name = bytes "box";
  status = DeployStatus.pending;
  output = [];
  duration = pos 0;
  started_at = pos 1000;
  ended_at = none;
  trigger = bytes "manual";
}

-- The tables with the agent.
abbrev pub one_agent : Db
one_agent = (create_agent empty_db (pos 0) agent).0

abbrev pub server : Server
server = record {
  config = config;
  db = one_agent;
  conns = [];
  registry = [];
  draws = 0;
  has_on_log = true;
  has_on_metrics = false;
  has_on_container_log = false;
  calls = [];
}
