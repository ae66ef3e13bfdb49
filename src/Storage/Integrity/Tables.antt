-- ===== src/Storage/Integrity/Tables.antt =====
-- What a statement that writes one table of internal/storage/sqlite has to keep, for each table, so
-- that the constraints of the schema hold afterwards.
use uruflow.Prelude.{
  ℕ, ◌≡◌, ap, Bool, true, List, Text, arith, any, filter, update_where, key_is, Keyed,
  count-update_where, count-filter_le, eqb,
}
use uruflow.Prelude.Refers.{Refers, Refers-mono}
use uruflow.Prelude.Numbered.{Numbered}
use uruflow.Prelude.Int.{pos}
use uruflow.Models.{Container, Repository, Deployment, DeploymentLog, Alert}
use uruflow.Storage.{AgentRow, Db, has_agent, has_deployment}
use uruflow.Storage.Integrity.{IsValid}

-- Changes of rows that keep a key, and deletions, keep the rows keyed.
pub Keyed-update_where {ℓ} :
    {A : Type ℓ} (key : A → Text) (p : A → Bool) (f : A → A) (xs : List A)
    → ((x : A) → key (f x) ≡ key x)
    → Keyed key xs
    → Keyed key (update_where p f xs)
Keyed-update_where key p f xs e h k =
    rw (count-update_where p (key_is key k) f xs (λ x. ap (λ t. eqb t k) (e x))) (h k)

pub Keyed-filter {ℓ} :
    {A : Type ℓ} (key : A → Text) (p : A → Bool) (xs : List A)
    → Keyed key xs
    → Keyed key (filter p xs)
Keyed-filter key p xs h k = omega (arith, count-filter_le (key_is key k) p xs, h k)

-- One lemma for each table: what a statement that writes this table alone has to keep.
pub replace_agents :
    (db : Db) (agents : List AgentRow)
    → Keyed (λ a. a.id) agents
    → Keyed (λ a. a.name) agents
    → ((t : Text) → has_agent db t ≡ true → any (key_is (λ a. a.id) t) agents ≡ true)
    → IsValid db
    → IsValid (record db { agents = agents })
replace_agents db agents i n m v = record {
  agent_ids = i;
  agent_names = n;
  container_ids = v.container_ids;
  repository_names = v.repository_names;
  deployment_ids = v.deployment_ids;
  repository_ids = v.repository_ids;
  log_ids = v.log_ids;
  alert_ids = v.alert_ids;
  container_agents =
      Refers-mono (λ (x : Container). x.agent_id) (has_agent db)
        (λ t. any (key_is (λ a. a.id) t) agents) db.containers m v.container_agents;
  repository_agents =
      Refers-mono (λ (x : Repository). x.agent_id) (has_agent db)
        (λ t. any (key_is (λ a. a.id) t) agents) db.repositories m v.repository_agents;
  deployment_agents =
      Refers-mono (λ (x : Deployment). x.agent_id) (has_agent db)
        (λ t. any (key_is (λ a. a.id) t) agents) db.deployments m v.deployment_agents;
  alert_agents =
      Refers-mono (λ (x : Alert). x.agent_id) (has_agent db)
        (λ t. any (key_is (λ a. a.id) t) agents) db.alerts m v.alert_agents;
  log_deployments = v.log_deployments;
}

pub replace_containers :
    (db : Db) (containers : List Container)
    → Keyed (λ x. x.id) containers
    → Refers (λ x. x.agent_id) (has_agent db) containers
    → IsValid db
    → IsValid (record db { containers = containers })
replace_containers db containers i r v = record {
  agent_ids = v.agent_ids;
  agent_names = v.agent_names;
  container_ids = i;
  repository_names = v.repository_names;
  deployment_ids = v.deployment_ids;
  repository_ids = v.repository_ids;
  log_ids = v.log_ids;
  alert_ids = v.alert_ids;
  container_agents = r;
  repository_agents = v.repository_agents;
  deployment_agents = v.deployment_agents;
  alert_agents = v.alert_agents;
  log_deployments = v.log_deployments;
}

pub replace_repositories :
    (db : Db) (repositories : List Repository) (next : ℕ)
    → Keyed (λ x. x.name) repositories
    → Numbered (λ x. x.id) pos next repositories
    → Refers (λ x. x.agent_id) (has_agent db) repositories
    → IsValid db
    → IsValid (record db { repositories = repositories; next_repository = next })
replace_repositories db repositories next i n r v = record {
  agent_ids = v.agent_ids;
  agent_names = v.agent_names;
  container_ids = v.container_ids;
  repository_names = i;
  deployment_ids = v.deployment_ids;
  repository_ids = n;
  log_ids = v.log_ids;
  alert_ids = v.alert_ids;
  container_agents = v.container_agents;
  repository_agents = r;
  deployment_agents = v.deployment_agents;
  alert_agents = v.alert_agents;
  log_deployments = v.log_deployments;
}

pub replace_alerts :
    (db : Db) (alerts : List Alert)
    → Keyed (λ x. x.id) alerts
    → Refers (λ x. x.agent_id) (has_agent db) alerts
    → IsValid db
    → IsValid (record db { alerts = alerts })
replace_alerts db alerts i r v = record {
  agent_ids = v.agent_ids;
  agent_names = v.agent_names;
  container_ids = v.container_ids;
  repository_names = v.repository_names;
  deployment_ids = v.deployment_ids;
  repository_ids = v.repository_ids;
  log_ids = v.log_ids;
  alert_ids = i;
  container_agents = v.container_agents;
  repository_agents = v.repository_agents;
  deployment_agents = v.deployment_agents;
  alert_agents = r;
  log_deployments = v.log_deployments;
}

pub replace_deployments :
    (db : Db) (deployments : List Deployment)
    → Keyed (λ x. x.id) deployments
    → Refers (λ x. x.agent_id) (has_agent db) deployments
    → ((t : Text) → has_deployment db t ≡ true → any (key_is (λ d. d.id) t) deployments ≡ true)
    → IsValid db
    → IsValid (record db { deployments = deployments })
replace_deployments db deployments i r m v = record {
  agent_ids = v.agent_ids;
  agent_names = v.agent_names;
  container_ids = v.container_ids;
  repository_names = v.repository_names;
  deployment_ids = i;
  repository_ids = v.repository_ids;
  log_ids = v.log_ids;
  alert_ids = v.alert_ids;
  container_agents = v.container_agents;
  repository_agents = v.repository_agents;
  deployment_agents = r;
  alert_agents = v.alert_agents;
  log_deployments =
      Refers-mono (λ (x : DeploymentLog). x.deployment_id) (has_deployment db)
        (λ t. any (key_is (λ d. d.id) t) deployments) db.logs m v.log_deployments;
}

pub replace_logs :
    (db : Db) (logs : List DeploymentLog) (next : ℕ)
    → Numbered (λ x. x.id) (λ n. n) next logs
    → Refers (λ x. x.deployment_id) (has_deployment db) logs
    → IsValid db
    → IsValid (record db { logs = logs; next_log = next })
replace_logs db logs next n r v = record {
  agent_ids = v.agent_ids;
  agent_names = v.agent_names;
  container_ids = v.container_ids;
  repository_names = v.repository_names;
  deployment_ids = v.deployment_ids;
  repository_ids = v.repository_ids;
  log_ids = n;
  alert_ids = v.alert_ids;
  container_agents = v.container_agents;
  repository_agents = v.repository_agents;
  deployment_agents = v.deployment_agents;
  alert_agents = v.alert_agents;
  log_deployments = r;
}
