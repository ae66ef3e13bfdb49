-- ===== src/Storage/Integrity/Execution.antt =====
-- The constraints of internal/storage/sqlite/schema.go after any run of writing statements.
use uruflow.Prelude.{count, refl, List, [], ◌∷◌, arith}
use uruflow.Prelude.Refers.{Refers-filter, Refers-update_where}
use uruflow.Prelude.Numbered.{Numbered-filter}
use uruflow.Prelude.Int.{pos}
use uruflow.Storage.{Db, has_agent, has_deployment, empty_db}
use uruflow.Storage.Agents.{update_agent, update_agent_metrics, update_agent_status}
use uruflow.Storage.Alerts.{resolve_alert}
use uruflow.Storage.Containers.{delete_containers_by_agent}
use uruflow.Storage.Logs.{delete_deployment_logs}
use uruflow.Storage.Repositories.{delete_repository}
use uruflow.Storage.Integrity.{
  IsValid, Statement, creates_agent, updates_agent, updates_agent_metrics, updates_agent_status,
  deletes_agent, upserts_container, deletes_containers_by_agent, creates_repository,
  updates_repository, deletes_repository, creates_deployment, updates_deployment,
  adds_deployment_log, deletes_deployment_logs, creates_alert, resolves_alert, execute, execute_all,
}
use uruflow.Storage.Integrity.Tables.{
  Keyed-update_where, Keyed-filter, replace_containers, replace_repositories, replace_alerts,
  replace_logs,
}
use uruflow.Storage.Integrity.Statements.{
  create_agent-IsValid, change_agents, delete_agent-IsValid, upsert_container-IsValid,
  create_repository-IsValid, update_repository-IsValid, create_deployment-IsValid,
  update_deployment-IsValid, add_deployment_log-IsValid, create_alert-IsValid,
}

-- Every writing statement, whether it succeeds or violates a constraint, keeps the constraints of
-- the schema: keys and names are unique, and every reference to an agent or a deployment is to a
-- row that exists.
pub execute-IsValid : (db : Db) (s : Statement) → IsValid db → IsValid (execute db s)
unfolding execute update_agent update_agent_metrics update_agent_status delete_containers_by_agent
    delete_repository delete_deployment_logs resolve_alert
execute-IsValid db (creates_agent now a) v = create_agent-IsValid db now a v
execute-IsValid db (updates_agent a) v = change_agents db _ _ (λ r. refl) (λ r. refl) v
execute-IsValid db (updates_agent_metrics now id m) v =
    change_agents db _ _ (λ r. refl) (λ r. refl) v
execute-IsValid db (updates_agent_status now id s) v =
    change_agents db _ _ (λ r. refl) (λ r. refl) v
execute-IsValid db (deletes_agent id) v = delete_agent-IsValid db id v
execute-IsValid db (upserts_container c) v = upsert_container-IsValid db c v
execute-IsValid db (deletes_containers_by_agent id) v =
    replace_containers db _ (Keyed-filter (λ c. c.id) _ db.containers v.container_ids)
      (Refers-filter (λ c. c.agent_id) (has_agent db) _ db.containers v.container_agents) v
execute-IsValid db (creates_repository now r) v = create_repository-IsValid db now r v
execute-IsValid db (updates_repository r) v = update_repository-IsValid db r v
execute-IsValid db (deletes_repository name) v =
    replace_repositories db _ db.next_repository
      (Keyed-filter (λ r. r.name) _ db.repositories v.repository_names)
      (Numbered-filter (λ r. r.id) pos db.next_repository _ db.repositories v.repository_ids)
      (Refers-filter (λ r. r.agent_id) (has_agent db) _ db.repositories v.repository_agents) v
execute-IsValid db (creates_deployment d) v = create_deployment-IsValid db d v
execute-IsValid db (updates_deployment d) v = update_deployment-IsValid db d v
execute-IsValid db (adds_deployment_log l) v = add_deployment_log-IsValid db l v
execute-IsValid db (deletes_deployment_logs id) v =
    replace_logs db _ db.next_log
      (Numbered-filter (λ l. l.id) (λ n. n) db.next_log _ db.logs v.log_ids)
      (Refers-filter (λ l. l.deployment_id) (has_deployment db) _ db.logs v.log_deployments) v
execute-IsValid db (creates_alert a) v = create_alert-IsValid db a v
execute-IsValid db (resolves_alert now id) v =
    replace_alerts db _ (Keyed-update_where (λ a. a.id) _ _ db.alerts (λ a. refl) v.alert_ids)
      (Refers-update_where (λ a. a.agent_id) (has_agent db) _ _ db.alerts (λ a h. h) v.alert_agents)
      v

execute_all-IsValid : (ss : List Statement) (db : Db) → IsValid db → IsValid (execute_all db ss)
unfolding execute_all
execute_all-IsValid [] db v = v
execute_all-IsValid (s ∷ ss) db v = execute_all-IsValid ss (execute db s) (execute-IsValid db s v)

empty_db-IsValid : IsValid empty_db
unfolding empty_db count
empty_db-IsValid = omega arith

-- After any sequence of writing statements on a new database all constraints of the schema hold:
-- primary keys, those that the database draws included, unique names, and references.
pub history-IsValid : (ss : List Statement) → IsValid (execute_all empty_db ss)
history-IsValid ss = execute_all-IsValid ss empty_db empty_db-IsValid
