-- ===== src/Agent/Daemon/Tasks.antt =====
-- The tasks of internal/agent/daemon/daemon.go: commands, log streams and reports. A task that
-- others may interrupt is given by its parts, and by the whole, when nothing runs in between.
use uruflow.Prelude.{
  ℕ, suc, Bool, true, ◌&&◌, List, [], ◌∷◌, ◌++◌, Option, none, some, Text, bytes, eqb, ltb, length,
  take, drop, if◌then◌else◌,
}
use uruflow.Prelude.Int.{ℤ, pos}
use uruflow.Prelude.Maps.{lookup, insert}
use uruflow.Models.Float.{float_zero}
use uruflow.Protocol.{Message}
use uruflow.Protocol.MessageType
use uruflow.Protocol.Payloads.{
  Json, CommandPayload, ContainerStatus, ContainerLogsRequestPayload, ContainerLogsDataPayload,
  SystemMetrics, new_message,
}
use uruflow.Agent.Deploy.{DeployConfig, Host, LogLine, execute}
use uruflow.Agent.Docker.{DockerContainer, ContainerStats}
use uruflow.Agent.Daemon.{Agent, safe_write, stop_container_stream}

abbrev pub done_message : Json → Text → Text → ℕ → Text → Message
done_message json id status exit_code output =
    new_message json.command_done MessageType.command_done (record {
      command_id = id;
      status = status;
      exit_code = pos exit_code;
      duration = pos 0;
      output = output;
    })

-- `sendCommandDone`
unfoldable pub send_command_done : Json → Agent → Text → Text → ℕ → Text → Agent
unfolding safe_write
send_command_done json a id status exit_code output =
    safe_write a (done_message json id status exit_code output)

-- A field of the payload of a command; one that is not there is empty.
abbrev pub field : Text → List (Text × Text) → Text
field key payload = elim (lookup key payload) [ none ↦ [] | some value ↦ value ]

abbrev pub config_of : List (Text × Text) → DeployConfig
config_of p = record {
  url = field (bytes "url") p;
  name = field (bytes "name") p;
  branch = field (bytes "branch") p;
  commit = field (bytes "commit") p;
  path = field (bytes "path") p;
  build_system = field (bytes "build_system") p;
  build_file = field (bytes "build_file") p;
  build_cmd = field (bytes "build_cmd") p;
  env = [];
}

abbrev pub start_message : Json → ℤ → Text → Message
start_message json now id =
    new_message json.command_start MessageType.command_start
      (record { command_id = id; started_at = now })

-- `handleDeploy` up to the run: the start is reported, and the handler in the executor, which all
-- commands share, is replaced.
unfoldable pub begin_deploy : Json → ℤ → Agent → Text → Agent
unfolding safe_write
begin_deploy json now a id = record (safe_write a (start_message json now id)) {
  log_target = some id;
}

abbrev pub log_message : Json → ℤ → Text → LogLine → Message
log_message json now id l =
    new_message json.command_log MessageType.command_log
      (record { command_id = id; line = l.line; stream = l.stream; timestamp = now })

-- A line of a running command, through the handler that the executor has at the time.
unfoldable pub emit_log : Json → ℤ → Agent → LogLine → Agent
unfolding safe_write
emit_log json now a l = elim a.log_target [
  | none ↦ a
  | some id ↦ safe_write a (log_message json now id l)
]

unfoldable pub emit_logs : Json → ℤ → Agent → List LogLine → Agent
unfolding emit_log
emit_logs json now a [] = a
emit_logs json now a (l ∷ ls) = emit_logs json now (emit_log json now a l) ls

-- `handleDeploy` after the run.
unfoldable pub end_deploy : Json → Agent → Text → Option Text → Agent
unfolding send_command_done
end_deploy json a id none = send_command_done json a id (bytes "success") 0 []
end_deploy json a id (some e) = send_command_done json a id (bytes "failed") 1 e

-- `handleDeploy`, when nothing runs in between. The values of the payload are texts, as the server
-- writes them, so that it can be read.
unfoldable pub handle_deploy :
    {W : Type 0} → Json → Host W → ℤ → ℤ → Text → CommandPayload → Agent → W → Agent × W
unfolding begin_deploy emit_logs end_deploy execute
handle_deploy json h now took work_dir cmd a w =
    let begun = begin_deploy json now a cmd.id in
    let (r, result) = execute h took work_dir (config_of cmd.payload) w in
    (end_deploy json (emit_logs json now begun r.lines) cmd.id result.error, r.world)

abbrev pub ack_message : Json → Text → Message
ack_message json id =
    new_message json.command_ack MessageType.command_ack
      (record { command_id = id; status = bytes "received" })

-- `handleCommand`
unfoldable pub handle_command :
    {W : Type 0} → Json → Host W → ℤ → ℤ → Text → CommandPayload → Agent → W → Agent × W
unfolding safe_write handle_deploy send_command_done
handle_command json h now took work_dir cmd a w =
    let acked = safe_write a (ack_message json cmd.id) in
    if eqb cmd.type (bytes "deploy") then handle_deploy json h now took work_dir cmd acked w else (
      send_command_done json acked cmd.id (bytes "failed") 1
          (bytes "unknown command type: " ++ cmd.type),
      w,
    )

-- The new stream of a container takes the place of one that is in the map.
unfoldable pub register_stream : Agent → Text → Agent
register_stream a container_id = record a {
  streams = insert container_id a.next_stream a.streams;
  next_stream = suc a.next_stream;
}

-- `handleContainerLogsRequest` up to the stream: an older stream of the container is stopped, and
-- the new one is registered.
unfoldable pub begin_stream : Agent → Text → Agent
unfolding stop_container_stream register_stream
begin_stream a container_id = register_stream (stop_container_stream a container_id) container_id

-- The payload for a line: the mark of the error stream becomes the name of the stream.
unfoldable pub payload_of_line : ℤ → Text → Text → ContainerLogsDataPayload
payload_of_line now container_id line =
    if ltb 9 (length line) && eqb (take 9 line) (bytes "[stderr] ")
    then record {
      container_id = container_id;
      line = drop 9 line;
      stream = bytes "stderr";
      timestamp = now;
    }
    else record {
      container_id = container_id;
      line = line;
      stream = bytes "stdout";
      timestamp = now;
    }

unfoldable pub emit_line : Json → ℤ → Agent → Text → Text → Agent
unfolding safe_write payload_of_line
emit_line json now a container_id line = safe_write a (
    new_message json.logs_data MessageType.container_logs_data
      (payload_of_line now container_id line))

unfoldable pub emit_lines : Json → ℤ → Agent → Text → List Text → Agent
unfolding emit_line
emit_lines json now a container_id [] = a
emit_lines json now a container_id (line ∷ lines) =
    emit_lines json now (emit_line json now a container_id line) container_id lines

-- `handleContainerLogsRequest`, when nothing runs in between and the stream hands on these lines;
-- `none` is the crash of a stream on no client.
unfoldable pub handle_container_logs_request :
    Json → ℤ → ContainerLogsRequestPayload → List Text → Agent → Option Agent
unfolding begin_stream emit_lines stop_container_stream
handle_container_logs_request json now req lines a =
    let begun = begin_stream a req.container_id in
    if begun.has_docker
    then some
        (stop_container_stream (emit_lines json now begun req.container_id lines) req.container_id)
    else none

abbrev with_stats : Option ContainerStats → ContainerStatus → ContainerStatus
with_stats none c = c
with_stats (some s) c = record c {
  cpu_percent = s.cpu_percent;
  memory_usage = s.memory_usage;
  memory_limit = s.memory_limit;
  network_rx = s.network_rx;
  network_tx = s.network_tx;
}

-- The report of a container. Statistics are asked for a running one, and may be missing.
unfoldable pub container_report : (Text → Option ContainerStats) → DockerContainer → ContainerStatus
container_report stats c =
    let report : ContainerStatus = record {
      id = c.id;
      name = c.name;
      image = c.image;
      status = c.state;
      health = c.health;
      cpu_percent = float_zero;
      memory_usage = 0;
      memory_limit = 0;
      network_rx = 0;
      network_tx = 0;
      restart_count = c.restart_count;
      started_at = c.started_at;
    } in
    if eqb c.state (bytes "running") then with_stats (stats c.full_id) report else report

-- Only containers that the agent manages are reported.
unfoldable pub container_reports :
    (Text → Option ContainerStats) → List DockerContainer → List ContainerStatus
unfolding container_report
container_reports stats [] = []
container_reports stats (c ∷ cs) =
    let rest = container_reports stats cs in
    if c.is_managed then container_report stats c ∷ rest else rest

-- What of Docker's containers is reported: nothing without Docker, or if it does not answer.
abbrev listed :
    (Text → Option ContainerStats) → Bool → Option (List DockerContainer) → List ContainerStatus
listed stats true (some cs) = container_reports stats cs
listed stats _ _ = []

-- `sendMetrics`; without system metrics nothing is sent.
unfoldable pub send_metrics :
    Json
    → ℤ
    → Option SystemMetrics
    → (Text → Option ContainerStats)
    → Option (List DockerContainer)
    → Agent
    → Agent
unfolding safe_write container_reports
send_metrics json now none stats containers a = a
send_metrics json now (some system) stats containers a = safe_write a (
    new_message json.metrics MessageType.metrics (record {
      timestamp = now;
      system = system;
      containers = listed stats a.has_docker containers;
    }))
