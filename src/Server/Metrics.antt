-- ===== src/Server/Metrics.antt =====
-- `handleMetrics` of internal/tcp/server.go: the report is stored, and alerts are raised and
-- resolved against the active ones, looked up by their message.
pub mod Alerting
use uruflow.Prelude.{
  ◌^◌, Bool, not, ◌&&◌, ◌||◌, List, [], ◌∷◌, Option, none, some, Text, bytes, eqb, if◌then◌else◌,
}
use uruflow.Prelude.Int.{ℤ, pos, ◌*ℤ◌}
use uruflow.Prelude.Maps.{lookup, insert, delete}
use uruflow.Models.{Time, Alert, AgentMetrics, Container}
use uruflow.Alerts.{check_cpu, check_memory, check_disk, check_container_down, down_message}
use uruflow.Protocol.{Message}
use uruflow.Protocol.MessageType
use uruflow.Protocol.Payloads.{
  MetricsPayload, ContainerStatus, SystemMetrics, zero_metrics, decode, bare,
}
use uruflow.Storage.Agents.{update_agent_metrics}
use uruflow.Storage.Alerts.{create_alert, resolve_alert, get_active_alerts}
use uruflow.Storage.Containers.{upsert_container}
use uruflow.Server.{Connection, Server, Env, with_db, next_id, drawn, call, metrics_report}
use uruflow.Server.Connections.{send}

abbrev pub AlertMap : Type 0
AlertMap = List (Text × Alert)

abbrev agent_metrics : SystemMetrics → AgentMetrics
agent_metrics m = record {
  cpu_percent = m.cpu_percent;
  memory_percent = m.memory_percent;
  memory_used = m.memory_used;
  memory_total = m.memory_total;
  disk_percent = m.disk_percent;
  disk_used = m.disk_used;
  disk_total = m.disk_total;
  load_avg = m.load_avg;
  uptime = m.uptime;
}

-- time.Unix(seconds, 0)
abbrev pub unix : ℤ → Time
unix seconds = seconds *ℤ pos (10 ^ 9)

abbrev pub container_row : Text → ContainerStatus → Container
container_row agent_id c = record {
  id = c.id;
  agent_id = agent_id;
  name = c.name;
  image = c.image;
  status = c.status;
  health = c.health;
  cpu_percent = c.cpu_percent;
  memory_usage = c.memory_usage;
  memory_limit = c.memory_limit;
  network_rx = c.network_rx;
  network_tx = c.network_tx;
  restart_count = c.restart_count;
  started_at = unix c.started_at;
}

-- The loop that fills `activeAlertMap`; a later alert of the same message replaces an earlier one.
unfoldable pub fill_map : Text → List Alert → AlertMap → AlertMap
fill_map agent_id [] m = m
fill_map agent_id (a ∷ later) m =
    fill_map agent_id later
      (if eqb a.agent_id agent_id && not a.resolved then insert a.message a m else m)

-- The alert is stored and noted, whether or not the INSERT succeeds.
unfoldable pub store_alert : Server → AlertMap → Alert → Server × AlertMap
store_alert s m alert = (with_db s (create_alert s.db alert).0, insert alert.message alert m)

-- `createIfNotExists`
unfoldable pub create_if_not_exists : Server × AlertMap → Option Alert → Server × AlertMap
unfolding store_alert
create_if_not_exists (s, m) none = (s, m)
create_if_not_exists (s, m) (some alert) = elim (lookup alert.message m) [
  | none ↦ store_alert (drawn s) m alert
  | some _ ↦ (drawn s, m)
]

-- A container that runs resolves the alert that it is down.
unfoldable pub resolve_down : Time → Text → Server × AlertMap → Server × AlertMap
resolve_down now alert_msg (s, m) = elim (lookup alert_msg m) [
  | none ↦ (s, m)
  | some alert ↦ (with_db s (resolve_alert s.db now alert.id), delete alert_msg m)
]

-- A container that is down raises the alert, unless it is active.
unfoldable pub raise_down : Env → Time → Connection → Text → Server × AlertMap → Server × AlertMap
unfolding store_alert
raise_down env now conn name (s, m) = elim (lookup (down_message name) m) [
  | none ↦
      store_alert (drawn s) m
        (check_container_down (next_id env s) now conn.agent_id conn.agent_name name)
  | some _ ↦ (s, m)
]

abbrev pub is_coming_up : Text → Bool
is_coming_up status =
    eqb status (bytes "created") || eqb status (bytes "starting") || eqb status (bytes "restarting")

abbrev upsert : Text → ContainerStatus → Server → Server
upsert agent_id c s = with_db s (upsert_container s.db (container_row agent_id c)).0

-- One round of the loop over the reported containers.
unfoldable pub report_container :
    Env → Time → Connection → Server × AlertMap → ContainerStatus → Server × AlertMap
unfolding resolve_down raise_down
report_container env now conn (s, m) c =
    let s' = upsert conn.agent_id c s in
    if eqb c.status (bytes "running")
    then resolve_down now (down_message c.name) (s', m)
    else if is_coming_up c.status
    then (s', m)
    else raise_down env now conn c.name (s', m)

unfoldable pub report_containers :
    Env → Time → Connection → Server × AlertMap → List ContainerStatus → Server × AlertMap
report_containers env now conn sm [] = sm
report_containers env now conn sm (c ∷ cs) =
    report_containers env now conn (report_container env now conn sm c) cs

-- The three checks of the agent's own readings, each with the id that it draws.
unfoldable pub check_system :
    Env → Time → Connection → SystemMetrics → Server × AlertMap → Server × AlertMap
unfolding create_if_not_exists
check_system env now conn m sm =
    let cpu =
      create_if_not_exists sm
        (check_cpu (next_id env sm.0) now conn.agent_id conn.agent_name m.cpu_percent) in
    let memory =
      create_if_not_exists cpu
        (check_memory (next_id env cpu.0) now conn.agent_id conn.agent_name m.memory_percent) in
    create_if_not_exists memory
      (check_disk (next_id env memory.0) now conn.agent_id conn.agent_name m.disk_percent)

-- The alerts after a report whose metrics are stored.
unfoldable pub update_alerts : Env → Time → Connection → MetricsPayload → Server → Server
unfolding fill_map report_containers check_system
update_alerts env now conn p s =
    let active = fill_map conn.agent_id (get_active_alerts s.db) [] in
    (check_system env now conn p.system (report_containers env now conn (s, active) p.containers)).0

unfoldable pub store_metrics : Time → Connection → MetricsPayload → Server → Server
store_metrics now conn p s =
    let m = agent_metrics p.system in
    call s.has_on_metrics (metrics_report conn.agent_id m)
      (with_db s (update_agent_metrics s.db now conn.agent_id m))

unfoldable pub handle_report : Env → Time → Server → Connection → Option MetricsPayload → Server
unfolding store_metrics update_alerts
handle_report env now s conn none = s
handle_report env now s conn (some p) =
    (send (update_alerts env now conn p (store_metrics now conn p s)) conn.id
      (bare MessageType.metrics_ack)).0

-- A payload that does not decode is dropped.
unfoldable pub handle_metrics : Env → Time → Server → Connection → Message → Server
unfolding handle_report
handle_metrics env now s conn msg =
    handle_report env now s conn (decode env.json.metrics zero_metrics msg)
