-- ===== src/Tui/Rows.antt =====
-- internal/tui/views/common.go: what the views show of agents, repositories and alerts, and the
-- printing of times and numbers by the package fmt and time, which is an argument. `fetchAgents`,
-- `fetchRepos` and `fetchAlerts` read the store and make the rows.
use uruflow.Prelude.{
  ℕ, ◌/◌, Bool, true, false, List, [], ◌∷◌, ◌++◌, map, filter, Option, none, some, Text, bytes, eqb,
  take, length, ltb, if◌then◌else◌,
}
use uruflow.Prelude.Int.{pos}
use uruflow.Models.{
  Time, Agent, AgentMetrics, Container, Repository, Deployment, Alert, DeployStatus, AlertSeverity,
  is_online,
}
use uruflow.Models.Float.{Float64, float_zero}
use uruflow.Storage.{Db}
use uruflow.Storage.Agents.{get_agent, get_all_agents}
use uruflow.Storage.Containers.{get_containers_by_agent}
use uruflow.Storage.Repositories.{get_all_repositories}
use uruflow.Storage.Deployments.{get_deployments_by_repo}
use uruflow.Storage.Alerts.{get_active_alerts, get_recent_alerts}

-- How the standard library prints: the time since, the date with the time, and a number.
pub record Printing : Type 0 where
  pub since : Time → Text
  pub date_time : Time → Text
  pub hour_minute : Time → Text
  pub number : ℕ → Text

-- `ContainerData`
pub record ContainerRow : Type 0 where
  pub name : Text
  pub running : Bool
  pub healthy : Bool
  pub cpu : Float64
  pub memory : Text

-- `AgentData`
pub record AgentRow : Type 0 where
  pub id : Text
  pub name : Text
  pub host : Text
  pub version : Text
  pub uptime : Text
  pub online : Bool
  pub cpu : Float64
  pub memory : Float64
  pub disk : Float64
  pub containers : List ContainerRow

-- `RepoData`
pub record RepoRow : Type 0 where
  pub name : Text
  pub url : Text
  pub branch : Text
  pub agent : Text
  pub agent_id : Text
  pub auto_deploy : Bool
  pub build_system : Text
  pub build_file : Text
  pub last_status : Text
  pub last_commit : Text
  pub last_time : Text

-- `AlertData`
pub record AlertRow : Type 0 where
  pub id : Text
  pub type : Text
  pub agent : Text
  pub message : Text
  pub time : Text
  pub active : Bool
  pub severity : Text

abbrev pub container_row : Printing → Container → ContainerRow
container_row p c = record {
  name = c.name;
  running = eqb c.status (bytes "running");
  healthy = eqb c.health (bytes "healthy");
  cpu = c.cpu_percent;
  memory = p.number (c.memory_usage / 1024 / 1024) ++ bytes "MB";
}

abbrev pub uptime_of : Printing → Agent → Text
uptime_of p a =
    if is_online a.status then p.since a.last_heartbeat else p.date_time a.last_heartbeat

abbrev pub reading : (AgentMetrics → Float64) → Option AgentMetrics → Float64
reading field none = float_zero
reading field (some m) = field m

abbrev pub agent_row : Printing → Db → Agent → AgentRow
agent_row p db a = record {
  id = a.id;
  name = a.name;
  host = a.host;
  version = a.version;
  uptime = uptime_of p a;
  online = is_online a.status;
  cpu = reading (λ m. m.cpu_percent) a.metrics;
  memory = reading (λ m. m.memory_percent) a.metrics;
  disk = reading (λ m. m.disk_percent) a.metrics;
  containers = map (container_row p) (get_containers_by_agent db a.id);
}

-- `AgentsModel.fetchAgents`
unfoldable pub fetch_agents : Printing → Db → List AgentRow
fetch_agents p db = map (agent_row p db) (get_all_agents db)

abbrev pub status_text : DeployStatus → Text
status_text DeployStatus.pending = bytes "pending"
status_text DeployStatus.running = bytes "running"
status_text DeployStatus.success = bytes "success"
status_text DeployStatus.failed = bytes "failed"

abbrev pub short_commit : Text → Text
short_commit commit = if ltb 7 (length commit) then take 7 commit else commit

-- The status, the commit and the time of the last deployment.
abbrev pub last_of : Printing → List Deployment → Text × Text × Text
last_of p [] = ([], [], [])
last_of p (d ∷ ds) =
    (status_text d.status, short_commit d.commit, p.since d.started_at ++ bytes " ago")

abbrev pub name_or : Text → Option Agent → Text
name_or id none = id
name_or id (some a) = a.name

abbrev pub repo_row : Printing → Db → Repository → RepoRow
repo_row p db r =
    let (last_status, last_commit, last_time) =
      last_of p (get_deployments_by_repo db r.name (pos 1)) in
    record {
      name = r.name;
      url = r.url;
      branch = r.branch;
      agent = name_or r.agent_id (get_agent db r.agent_id);
      agent_id = r.agent_id;
      auto_deploy = r.auto_deploy;
      build_system = r.build_system;
      build_file = r.build_file;
      last_status = last_status;
      last_commit = last_commit;
      last_time = last_time;
    }

-- `ReposModel.fetchRepos`
unfoldable pub fetch_repos : Printing → Db → List RepoRow
fetch_repos p db = map (repo_row p db) (get_all_repositories db)

-- What the choice of an agent shows.
pub record ChoiceRow : Type 0 where
  pub id : Text
  pub name : Text
  pub online : Bool

-- `ReposModel.fetchAgents`
unfoldable pub fetch_choices : Db → List ChoiceRow
fetch_choices db =
    map (λ (a : Agent). record { id = a.id; name = a.name; online = is_online a.status })
      (get_all_agents db)

abbrev pub severity_text : AlertSeverity → Text
severity_text AlertSeverity.warning = bytes "warning"
severity_text AlertSeverity.critical = bytes "critical"

abbrev pub alert_row : (Time → Text) → Bool → Alert → AlertRow
alert_row print active a = record {
  id = a.id;
  type = a.type;
  agent = a.agent_name;
  message = a.message;
  time = print a.created_at;
  active = active;
  severity = severity_text a.severity;
}

-- `AlertsModel.fetchAlerts`: the active alerts, and those of the last day that are resolved.
unfoldable pub fetch_alerts : Printing → Db → Time → List AlertRow × List AlertRow
fetch_alerts p db now = (
  map (alert_row (λ t. p.since t ++ bytes " ago") true) (get_active_alerts db),
  map (alert_row p.hour_minute false)
      (filter (λ a. a.resolved) (get_recent_alerts db now (pos 24))),
)
