-- ===== src/Models.antt =====
-- internal/models/models.go: the records that the server, the storage and the services share.
-- A Go string is a list of bytes; a time is its distance in nanoseconds from the Unix epoch; a
-- pointer to a time or to metrics that may be nil is an option; uint64 values are numbers.
pub mod Float
use uruflow.Prelude.{ℕ, Bool, true, false, List, Option, Text, bytes}
use uruflow.Prelude.Int.{ℤ}
use Float.{Float64}

abbrev pub Time : Type 0
Time = ℤ

pub data AgentStatus : Type 0 where
  online offline : AgentStatus

pub data DeployStatus : Type 0 where
  pending running success failed : DeployStatus

pub data AlertSeverity : Type 0 where
  warning critical : AlertSeverity

pub record AgentMetrics : Type 0 where
  pub cpu_percent : Float64
  pub memory_percent : Float64
  pub memory_used : ℕ
  pub memory_total : ℕ
  pub disk_percent : Float64
  pub disk_used : ℕ
  pub disk_total : ℕ
  pub load_avg : List Float64
  pub uptime : ℤ

pub record Container : Type 0 where
  pub id : Text
  pub agent_id : Text
  pub name : Text
  pub image : Text
  pub status : Text
  pub health : Text
  pub cpu_percent : Float64
  pub memory_usage : ℕ
  pub memory_limit : ℕ
  pub network_rx : ℕ
  pub network_tx : ℕ
  pub restart_count : ℤ
  pub started_at : Time

pub record Agent : Type 0 where
  pub id : Text
  pub name : Text
  pub token : Text
  pub host : Text
  pub hostname : Text
  pub version : Text
  pub status : AgentStatus
  pub last_heartbeat : Time
  pub metrics : Option AgentMetrics
  pub containers : List Container
  pub registered_at : Time

pub record Repository : Type 0 where
  pub id : ℤ
  pub name : Text
  pub url : Text
  pub branch : Text
  pub agent_id : Text
  pub path : Text
  pub auto_deploy : Bool
  pub build_system : Text
  pub build_file : Text
  pub build_cmd : Text
  pub created_at : Time

-- The payload is a Go map from strings; the values that the program puts in it are strings.
pub record Command : Type 0 where
  pub id : Text
  pub type : Text
  pub agent_id : Text
  pub payload : List (Text × Text)

pub record Alert : Type 0 where
  pub id : Text
  pub agent_id : Text
  pub agent_name : Text
  pub type : Text
  pub message : Text
  pub severity : AlertSeverity
  pub resolved : Bool
  pub created_at : Time
  pub resolved_at : Option Time

pub record Deployment : Type 0 where
  pub id : Text
  pub repository : Text
  pub branch : Text
  pub commit : Text
  pub agent_id : Text
  pub agent_name : Text
  pub status : DeployStatus
  pub output : Text
  pub duration : ℤ
  pub started_at : Time
  pub ended_at : Option Time
  pub trigger : Text

-- The row id of a log line is given by the database.
pub record DeploymentLog : Type 0 where
  pub id : ℕ
  pub deployment_id : Text
  pub line : Text
  pub stream : Text
  pub timestamp : Time

pub record CommandLog : Type 0 where
  pub command_id : Text
  pub line : Text
  pub stream : Text
  pub timestamp : Time

-- Tests on the enumerations, which Go compares as strings.
abbrev pub is_pending : DeployStatus → Bool
is_pending DeployStatus.pending = true
is_pending _ = false

abbrev pub is_failed : DeployStatus → Bool
is_failed DeployStatus.failed = true
is_failed _ = false

abbrev pub is_success : DeployStatus → Bool
is_success DeployStatus.success = true
is_success _ = false

abbrev pub is_online : AgentStatus → Bool
is_online AgentStatus.online = true
is_online AgentStatus.offline = false
