-- ===== src/Server/Commands.antt =====
-- The handlers of internal/tcp/server.go for what an agent reports about a deployment.
pub mod Lifecycle
use uruflow.Prelude.{
  Bool, true, false, not, List, [], ◌∷◌, Option, none, some, Text, bytes, eqb, is_nil, ◌*◌, ◌^◌,
  if◌then◌else◌,
}
use uruflow.Prelude.Int.{ℤ, quot, ◌-ℤ◌}
use uruflow.Models.{
  Time, Deployment, DeploymentLog, DeployStatus, CommandLog, is_pending, is_failed,
}
use uruflow.Protocol.{Message}
use uruflow.Protocol.Payloads.{
  CommandAckPayload, CommandStartPayload, CommandLogPayload, CommandDonePayload, zero_command_ack,
  zero_command_start, zero_command_log, zero_command_done, decode,
}
use uruflow.Storage.{Db}
use uruflow.Storage.Deployments.{get_deployment, update_deployment}
use uruflow.Storage.Logs.{add_deployment_log}
use uruflow.Server.{Connection, Server, Env, with_db, call, log_line}
use uruflow.Server.Metrics.{unix}

abbrev pub set_running : Deployment → Deployment
set_running d = record d { status = DeployStatus.running }

ack_found : Db → Option Deployment → Db
ack_found db none = db
ack_found db (some d) = if is_pending d.status then update_deployment db (set_running d) else db

-- Only a pending deployment becomes a running one.
unfoldable pub command_ack : Db → CommandAckPayload → Db
unfolding ack_found
command_ack db ack = ack_found db (get_deployment db ack.command_id)

start_found : Db → Option Deployment → Db
start_found db none = db
start_found db (some d) = update_deployment db (set_running d)

-- Whatever state the deployment is in, it is running afterwards.
unfoldable pub command_start : Db → CommandStartPayload → Db
unfolding start_found
command_start db start = start_found db (get_deployment db start.command_id)

abbrev pub log_row : CommandLogPayload → DeploymentLog
log_row log = record {
  id = 0;
  deployment_id = log.command_id;
  line = log.line;
  stream = log.stream;
  timestamp = unix log.timestamp;
}

unfoldable pub store_log : Db → CommandLogPayload → Db
store_log db log = (add_deployment_log db (log_row log)).0

-- The line is stored and handed to the log handler; a line of an unknown deployment is only
-- handed on.
unfoldable pub command_log : Server → Connection → CommandLogPayload → Server
unfolding store_log
command_log s conn log =
    call s.has_on_log
      (log_line conn.agent_id (record {
        command_id = log.command_id;
        line = log.line;
        stream = log.stream;
        timestamp = unix log.timestamp;
      }))
      (with_db s (store_log s.db log))

-- Any status but "success" is a failure.
abbrev pub final_status : CommandDonePayload → DeployStatus
final_status done =
    if eqb done.status (bytes "success") then DeployStatus.success else DeployStatus.failed

-- now.Sub(started) / time.Millisecond
abbrev pub elapsed_ms : Time → Time → ℤ
elapsed_ms now started = quot (now -ℤ started) (10 ^ 6)

abbrev pub finish : Time → CommandDonePayload → Deployment → Deployment
finish now done d = record d {
  status = final_status done;
  output = done.output;
  ended_at = some now;
  duration = elapsed_ms now d.started_at;
}

-- The output of a finished command becomes one more line of its log.
abbrev pub output_line : Time → CommandDonePayload → DeploymentLog
output_line now done = record {
  id = 0;
  deployment_id = done.command_id;
  line = done.output;
  stream = if is_failed (final_status done) then bytes "stderr" else bytes "stdout";
  timestamp = now;
}

done_found : Time → Db → CommandDonePayload → Option Deployment → Db
done_found now db done none = db
done_found now db done (some d) =
    let updated = update_deployment db (finish now done d) in
    if is_nil done.output then updated else (add_deployment_log updated (output_line now done)).0

unfoldable pub command_done : Time → Db → CommandDonePayload → Db
unfolding done_found
command_done now db done = done_found now db done (get_deployment db done.command_id)

-- The four handlers drop a payload that does not decode.
abbrev on_db {ℓ} : {A : Type ℓ} → Server → Option A → (Db → A → Db) → Server
on_db s none f = s
on_db s (some p) f = with_db s (f s.db p)

unfoldable pub handle_command_ack : Env → Server → Message → Server
handle_command_ack env s msg =
    on_db s (decode env.json.command_ack zero_command_ack msg) command_ack

unfoldable pub handle_command_start : Env → Server → Message → Server
handle_command_start env s msg =
    on_db s (decode env.json.command_start zero_command_start msg) command_start

unfoldable pub handle_command_log : Env → Server → Connection → Message → Server
handle_command_log env s conn msg = elim (decode env.json.command_log zero_command_log msg) [
  | none ↦ s
  | some log ↦ command_log s conn log
]

unfoldable pub handle_command_done : Env → Time → Server → Message → Server
handle_command_done env now s msg =
    on_db s (decode env.json.command_done zero_command_done msg) (command_done now)
