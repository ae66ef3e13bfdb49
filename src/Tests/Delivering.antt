-- ===== src/Tests/Delivering.antt =====
-- A deployment from its request to the tables, and the lines of a container up to the screen, at the
-- small installation.
use uruflow.Prelude.{
  ◌≡◌, refl, arith, false, map, ℕ, ◌-◌, List, [], ◌∷◌, none, some, Text, bytes, true, length, drop,
  find, any, eqb, inl, inr, update_where,
}
use uruflow.Prelude.Int.{pos}
use uruflow.Prelude.Maps.{lookup}
use uruflow.Models.{Time, Deployment}
use uruflow.Protocol.{Message}
use uruflow.Protocol.MessageType
use uruflow.Protocol.Payloads.{Json, CommandDonePayload, decode, new_message, zero_command_start}
use uruflow.Server.{Connection, Server, Env}
use uruflow.Server.Connections.{new_connection, get_connection, send, modify}
use uruflow.Server.Commands.Lifecycle.{apply_all}
use uruflow.Server.Dispatch.{handle_messages}
use uruflow.Server.Dispatch.Reports.{read_reports, handle_messages-reports}
use uruflow.Services.{DeployRequest, trigger_deploy, deploy_command, new_deployment}
use uruflow.Storage.Deployments.{create_deployment, get_deployment}
use uruflow.Config.{get_repository}
use uruflow.Server.Registry.{is_agent_connected, send_command}
use uruflow.Storage.{empty_db}
use uruflow.Storage.Agents.{get_agent, create_agent}
use uruflow.Agent.Deploy.{resolve_command}
use uruflow.Agent.Deploy.Plan.{reference}
use uruflow.Agent.Daemon.{run_command, handle_message}
use uruflow.Agent.Daemon.Tasks.{handle_command, emit_lines, payload_of_line}
use uruflow.Agent.Daemon.Verdict.{verdict_on}
use uruflow.Delivery.{arriving}
use uruflow.Delivery.Request.{payload_of, command_message, asked, Delivered}
use uruflow.Delivery.Completion.{EndsWith, trigger-finish}
use uruflow.Delivery.Streaming.{lines_arrive}
use uruflow.Tui.Channel.{offered}
use uruflow.Tui.ContainerLogs.{ContainerLogsModel, log_line, row_of, set_container}
use uruflow.Tui.ContainerLogs.Running.{after}
use uruflow.Tests.Fixtures.{json, server, agent_id, repository}
use uruflow.Tests.Agents.{host, idle}

abbrev request : DeployRequest
request = record {
  agent_id = agent_id;
  repo_name = bytes "site";
  branch = bytes "main";
  commit = bytes "0123456789";
  trigger = bytes "manual";
}

abbrev connected : Server
connected = record server {
  conns = new_connection (bytes "c") (bytes "10.0.0.2") true (pos 0) ∷ [];
  registry = (agent_id, bytes "c") ∷ [];
}

abbrev id : Text
id = 0 ∷ []

abbrev verdict : CommandDonePayload
verdict = verdict_on id none

-- A JSON that reads back this command and this verdict.
abbrev reading : Json
reading = record json {
  command = record {
    marshal = λ p. p.id;
    unmarshal = λ t. some (payload_of (deploy_command id repository request));
  };
  command_done = record { marshal = λ p. p.command_id; unmarshal = λ t. some verdict };
}

abbrev env : Env
env = record { json = reading; generate_id = λ n. n ∷ [] }

abbrev start : Message
start =
    new_message reading.command_start MessageType.command_start
      (record zero_command_start { command_id = id })

abbrev arrivals : List (Time × Message)
arrivals = (pos 5, start) ∷ []

handle_messages-reports_example :
    (handle_messages env connected (bytes "c") arrivals).db
    ≡ apply_all connected.db (read_reports env arrivals)
unfolding get_connection find eqb new_message new_connection
handle_messages-reports_example =
    handle_messages-reports env arrivals connected (bytes "c")
      {conn = new_connection (bytes "c") (bytes "10.0.0.2") true (pos 0)} refl refl
      (inr (inl refl), tt)

abbrev clock : ℕ → Time
clock n = pos n

abbrev asked_for : Deployment
asked_for = new_deployment id (pos 0) connected.db request

trigger-finish_example :
    let s' = (trigger_deploy env (pos 0) [] connected request).0 in
    let cmd = deploy_command id repository request in
    let m = command_message env cmd in
    let a' =
      (handle_command env.json host (pos 1) (pos 1) (bytes "/repos") (payload_of cmd) idle 0).0 in
    let sent = drop (length idle.sent) a'.sent in
    (conn_id : Text) × (conn : Connection) × Delivered connected s' agent_id m conn_id conn
    × ((handle_message env.json idle m).1 ≡ some (run_command (payload_of cmd)))
    × ((ended : Deployment) × (get_deployment
            (handle_messages env s' conn_id (arriving clock sent)).db
            id
          ≡ some ended)
        × EndsWith
            (clock (length sent - 1))
            (reference host (bytes "/repos") (asked repository request) 0).1
            asked_for
            ended)
unfolding new_deployment reference eqb resolve_command trigger_deploy decode deploy_command find any
    lookup get_repository is_agent_connected create_deployment send_command send get_agent
    create_agent empty_db get_connection modify update_where new_connection new_message
trigger-finish_example =
    trigger-finish env host (pos 0) [] connected request (pos 1) (pos 1) (bytes "/repos") idle 0
      clock {repo = repository} {d = asked_for} refl refl refl refl refl

-- A JSON that reads back the lines of one container.
abbrev lined : Env
lined = record env {
  json = record reading {
    logs_data = record {
      marshal = λ p. p.line;
      unmarshal = λ t. some (record {
        container_id = bytes "web";
        line = t;
        stream = bytes "stdout";
        timestamp = pos 7;
      });
    };
  };
}

abbrev watched : Server
watched = record connected { has_on_container_log = true }

abbrev said : List Text
said = bytes "starting" ∷ bytes "ready" ∷ []

abbrev unopened : ContainerLogsModel
unopened = record {
  height = 20;
  agent_id = agent_id;
  agent_name = bytes "box";
  container_id = [];
  container_name = [];
  logs = [];
  offset = 0;
  auto_follow = true;
  follows = false;
  containers = [];
  cursor = 0;
}

lines_arrive_example :
    let a' = emit_lines lined.json (pos 7) idle (bytes "web") said in
    let sent = drop (length idle.sent) a'.sent in
    let s' = handle_messages lined watched (bytes "c") (arriving clock sent) in
    let queue = offered [] (drop (length watched.calls) s'.calls) in
    (m : ContainerLogsModel) × (after
        (λ t. [])
        (set_container unopened (bytes "web") (bytes "web")).0
        (map log_line queue)
      ≡ some m)
    × (m.logs ≡ map (λ line. row_of (λ t. []) (payload_of_line (pos 7) (bytes "web") line)) said)
unfolding get_connection find eqb new_message new_connection decode payload_of_line
lines_arrive_example =
    lines_arrive lined idle watched (bytes "c") clock (pos 7) (bytes "web") (bytes "web") said
      (λ t. []) unopened {conn = new_connection (bytes "c") (bytes "10.0.0.2") true (pos 0)} refl
      refl refl refl (omega arith) (refl, (refl, tt))
