-- ===== src/Storage.antt =====
-- The database of internal/storage/sqlite: the tables of schema.go as lists of rows in order of
-- insertion, and what a statement may fail with. Each statement of the package is a function from
-- the tables to the tables; a statement that violates a constraint changes nothing. A failing
-- disk or a locked database is not modelled.
pub mod Agents
pub mod Containers
pub mod Repositories
pub mod Deployments
pub mod Logs
pub mod Alerts
pub mod Stats
pub mod Lookup
pub mod Integrity
use uruflow.Prelude.{
  ℕ, Bool, true, false, List, [], ◌∷◌, Option, none, some, Text, any, take, key_is, if◌then◌else◌,
}
use uruflow.Prelude.Int.{ℤ, pos, negsuc}
use uruflow.Models.{
  Time, Agent, AgentStatus, AgentMetrics, Container, Repository, Deployment, DeploymentLog, Alert,
}

-- A row of the table agents; the load averages are not stored.
pub record AgentRow : Type 0 where
  pub id : Text
  pub name : Text
  pub token : Text
  pub host : Text
  pub hostname : Text
  pub version : Text
  pub status : AgentStatus
  pub metrics : AgentMetrics
  pub last_heartbeat : Time
  pub created_at : Time

-- The counters are those of the two AUTOINCREMENT columns.
pub record Db : Type 0 where
  pub agents : List AgentRow
  pub containers : List Container
  pub repositories : List Repository
  pub deployments : List Deployment
  pub logs : List DeploymentLog
  pub alerts : List Alert
  pub next_repository : ℕ
  pub next_log : ℕ

pub data StoreError : Type 0 where
  unique_violation foreign_key_violation : StoreError

-- The tables of a new database, as `migrate` creates them.
unfoldable pub empty_db : Db
empty_db = record {
  agents = [];
  containers = [];
  repositories = [];
  deployments = [];
  logs = [];
  alerts = [];
  next_repository = 1;
  next_log = 1;
}

-- REFERENCES agents(id)
abbrev pub has_agent : Db → Text → Bool
has_agent db id = any (key_is (λ (a : AgentRow). a.id) id) db.agents

-- REFERENCES deployments(id)
abbrev pub has_deployment : Db → Text → Bool
has_deployment db id = any (key_is (λ (d : Deployment). d.id) id) db.deployments

-- LIMIT: a negative limit is none.
abbrev pub limit_rows {ℓ} : {A : Type ℓ} → ℤ → List A → List A
limit_rows (pos n) xs = take n xs
limit_rows (negsuc n) xs = xs
