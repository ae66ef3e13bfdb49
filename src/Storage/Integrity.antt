-- ===== src/Storage/Integrity.antt =====
-- The constraints of internal/storage/sqlite/schema.go (primary keys, unique names, references) as
-- an invariant of the tables, and the statements of the package that write.
pub mod Tables
pub mod Statements
pub mod Execution
use uruflow.Prelude.{List, [], ◌∷◌, Text, Keyed}
use uruflow.Prelude.Refers.{Refers}
use uruflow.Prelude.Numbered.{Numbered}
use uruflow.Prelude.Int.{pos}
use uruflow.Models.{
  Time, Agent, AgentStatus, AgentMetrics, Container, Repository, Deployment, DeploymentLog, Alert,
}
use uruflow.Storage.{AgentRow, Db, has_agent, has_deployment}
use uruflow.Storage.Agents.{
  create_agent, update_agent, update_agent_metrics, update_agent_status, delete_agent,
}
use uruflow.Storage.Alerts.{create_alert, resolve_alert}
use uruflow.Storage.Containers.{upsert_container, delete_containers_by_agent}
use uruflow.Storage.Deployments.{create_deployment, update_deployment}
use uruflow.Storage.Logs.{add_deployment_log, delete_deployment_logs}
use uruflow.Storage.Repositories.{create_repository, update_repository, delete_repository}

pub record IsValid (db : Db) : Type 0 where
  pub agent_ids : Keyed (λ (a : AgentRow). a.id) db.agents
  pub agent_names : Keyed (λ (a : AgentRow). a.name) db.agents
  pub container_ids : Keyed (λ (c : Container). c.id) db.containers
  pub repository_names : Keyed (λ (r : Repository). r.name) db.repositories
  pub deployment_ids : Keyed (λ (d : Deployment). d.id) db.deployments
  pub repository_ids : Numbered (λ (r : Repository). r.id) pos db.next_repository db.repositories
  pub log_ids : Numbered (λ (l : DeploymentLog). l.id) (λ n. n) db.next_log db.logs
  pub alert_ids : Keyed (λ (a : Alert). a.id) db.alerts
  pub container_agents : Refers (λ (c : Container). c.agent_id) (has_agent db) db.containers
  pub repository_agents : Refers (λ (r : Repository). r.agent_id) (has_agent db) db.repositories
  pub deployment_agents : Refers (λ (d : Deployment). d.agent_id) (has_agent db) db.deployments
  pub alert_agents : Refers (λ (a : Alert). a.agent_id) (has_agent db) db.alerts
  pub log_deployments : Refers (λ (l : DeploymentLog). l.deployment_id) (has_deployment db) db.logs

-- The writing statements of `Store`, with the time that they read.
pub data Statement : Type 0 where
  creates_agent : Time → Agent → Statement
  updates_agent : Agent → Statement
  updates_agent_metrics : Time → Text → AgentMetrics → Statement
  updates_agent_status : Time → Text → AgentStatus → Statement
  deletes_agent : Text → Statement
  upserts_container : Container → Statement
  deletes_containers_by_agent : Text → Statement
  creates_repository : Time → Repository → Statement
  updates_repository : Repository → Statement
  deletes_repository : Text → Statement
  creates_deployment : Deployment → Statement
  updates_deployment : Deployment → Statement
  adds_deployment_log : DeploymentLog → Statement
  deletes_deployment_logs : Text → Statement
  creates_alert : Alert → Statement
  resolves_alert : Time → Text → Statement

unfoldable pub execute : Db → Statement → Db
execute db (creates_agent now a) = (create_agent db now a).0
execute db (updates_agent a) = update_agent db a
execute db (updates_agent_metrics now id m) = update_agent_metrics db now id m
execute db (updates_agent_status now id s) = update_agent_status db now id s
execute db (deletes_agent id) = (delete_agent db id).0
execute db (upserts_container c) = (upsert_container db c).0
execute db (deletes_containers_by_agent id) = delete_containers_by_agent db id
execute db (creates_repository now r) = (create_repository db now r).0
execute db (updates_repository r) = (update_repository db r).0
execute db (deletes_repository name) = delete_repository db name
execute db (creates_deployment d) = (create_deployment db d).0
execute db (updates_deployment d) = update_deployment db d
execute db (adds_deployment_log l) = (add_deployment_log db l).0
execute db (deletes_deployment_logs id) = delete_deployment_logs db id
execute db (creates_alert a) = (create_alert db a).0
execute db (resolves_alert now id) = resolve_alert db now id

unfoldable pub execute_all : Db → List Statement → Db
execute_all db [] = db
execute_all db (s ∷ ss) = execute_all (execute db s) ss
