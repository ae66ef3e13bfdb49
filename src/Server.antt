-- ===== src/Server.antt =====
-- internal/tcp/server.go and connection.go: the state of the TCP server. `Connection` objects live
-- on a heap and are named by their ids, which `helper.GenerateID` draws; the map from agents to
-- connections holds these names, so that a handler and the map may share one object. Handlers are
-- functions from the state to the state; the clock is read once for each, and the random ids are
-- drawn in order from a stream.
pub mod Connections
pub mod Registry
pub mod Auth
pub mod Metrics
pub mod Commands
pub mod Dispatch
pub mod Sessions
use uruflow.Prelude.{ℕ, suc, Bool, List, [], ◌∷◌, ◌++◌, Option, Text, if◌then◌else◌}
use uruflow.Models.{Time, AgentMetrics, CommandLog}
use uruflow.Config.{Config}
use uruflow.Protocol.{Message}
use uruflow.Protocol.Payloads.{Json, ContainerLogsDataPayload}
use uruflow.Storage.{Db}

-- `reachable` says whether a write to the socket succeeds; `sent` is what was written to it, in
-- order. `host` is the host part of the peer's address.
pub record Connection : Type 0 where
  pub id : Text
  pub agent_id : Text
  pub agent_name : Text
  pub host : Text
  pub last_ping : Time
  pub closed : Bool
  pub reachable : Bool
  pub sent : List Message

-- What the handlers set by `SetLogHandler`, `SetMetricsHandler` and `SetContainerLogHandler` are
-- called with.
pub data Callback : Type 0 where
  log_line : Text → CommandLog → Callback
  metrics_report : Text → AgentMetrics → Callback
  container_log : Text → ContainerLogsDataPayload → Callback

pub record Server : Type 0 where
  pub config : Config
  pub db : Db
  pub conns : List Connection
  pub registry : List (Text × Text)
  pub draws : ℕ
  pub has_on_log : Bool
  pub has_on_metrics : Bool
  pub has_on_container_log : Bool
  pub calls : List Callback

-- What the server does not implement: encoding/json, and the stream of random ids.
pub record Env : Type 0 where
  pub json : Json
  pub generate_id : ℕ → Text

abbrev pub with_db : Server → Db → Server
with_db s db = record s { db = db }

-- A callback runs only where a handler is set.
abbrev pub call : Bool → Callback → Server → Server
call is_set c s = if is_set then record s { calls = s.calls ++ c ∷ [] } else s

-- The next random id, and the state that has drawn it.
abbrev pub next_id : Env → Server → Text
next_id env s = env.generate_id s.draws

abbrev pub drawn : Server → Server
drawn s = record s { draws = suc s.draws }
