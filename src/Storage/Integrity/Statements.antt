-- ===== src/Storage/Integrity/Statements.antt =====
-- Every writing statement of internal/storage/sqlite keeps the constraints of the schema.
use uruflow.Prelude.{
  ◌≡◌, refl, ap, subst, suc, ◌∙◌, eqb_iff, ◌⊎◌, update_where-none, any-false-find, Bool, true,
  false, not, ◌&&◌, ◌||◌, List, [], ◌∷◌, ◌++◌, none, Text, arith, any, filter, update_where, key_is,
  Keyed-snoc, any-append_left, any-update_where, eqb, Bool-cases, inl, inr,
}
use uruflow.Prelude.Refers.{
  Refers, Refers-snoc, Refers-mono, Refers-update_where, Refers-without, Refers-filter_without,
  any-filter_without,
}
use uruflow.Prelude.Numbered.{Numbered-snoc, Numbered-update_where}
use uruflow.Prelude.Int.{pos}
use uruflow.Models.{Agent, Container, Repository, Deployment, DeploymentLog, Alert, Time}
use uruflow.Storage.{AgentRow, Db, has_agent, has_deployment}
use uruflow.Storage.Agents.{agent_row, create_agent, delete_agent, is_referenced}
use uruflow.Storage.Alerts.{create_alert}
use uruflow.Storage.Containers.{upsert_container}
use uruflow.Storage.Deployments.{fresh_row, create_deployment, update_deployment, overwrite}
use uruflow.Storage.Logs.{add_deployment_log}
use uruflow.Storage.Repositories.{repository_row, create_repository, update_repository}
use uruflow.Storage.Integrity.{IsValid}
use uruflow.Storage.Integrity.Tables.{
  Keyed-update_where, Keyed-filter, replace_agents, replace_containers, replace_repositories,
  replace_deployments, replace_alerts, replace_logs,
}

pub create_agent-IsValid :
    (db : Db) (now : Time) (a : Agent) → IsValid db → IsValid (create_agent db now a).0
unfolding create_agent
create_agent-IsValid db now a v =
    elim (Bool-cases (has_agent db a.id || any (key_is (λ r. r.name) a.name) db.agents)) [
      | inl taken ↦ rw taken v
      | inr free ↦ rw free (
          replace_agents db (db.agents ++ agent_row now a ∷ [])
            (Keyed-snoc (λ r. r.id) db.agents (agent_row now a) (ground arith) v.agent_ids)
            (Keyed-snoc (λ r. r.name) db.agents (agent_row now a) (ground arith) v.agent_names)
            (λ t h. any-append_left (key_is (λ r. r.id) t) db.agents (agent_row now a ∷ []) h) v)
    ]

-- A change of agent rows that keeps their ids and names.
pub change_agents :
    (db : Db) (p : AgentRow → Bool) (f : AgentRow → AgentRow)
    → ((r : AgentRow) → (f r).id ≡ r.id)
    → ((r : AgentRow) → (f r).name ≡ r.name)
    → IsValid db
    → IsValid (record db { agents = update_where p f db.agents })
change_agents db p f i n v =
    replace_agents db (update_where p f db.agents)
      (Keyed-update_where (λ r. r.id) p f db.agents i v.agent_ids)
      (Keyed-update_where (λ r. r.name) p f db.agents n v.agent_names)
      (λ t h.
        any-update_where p (key_is (λ r. r.id) t) f db.agents (λ r. ap (λ k. eqb k t) (i r)) ∙ h)
      v

-- Without the row of an agent that nothing refers to but its containers, which go too.
module _ (db : Db) (id : Text) (v : IsValid db) (free : is_referenced db id ≡ false) where
  abbrev left : List AgentRow
  left = filter (λ r. not (eqb r.id id)) db.agents

  still_known :
      (t : Text)
      → (has_agent db t && not (eqb t id)) ≡ true
      → any (key_is (λ r. r.id) t) left ≡ true
  still_known t h = any-filter_without (λ (r : AgentRow). r.id) t id db.agents ∙ h

  unreferred {ℓ} :
      {A : Type ℓ} (f : A → Text) (xs : List A)
      → any (key_is f id) xs ≡ false
      → Refers f (has_agent db) xs
      → Refers f (λ t. any (key_is (λ (r : AgentRow). r.id) t) left) xs
  unreferred f xs n h =
      Refers-mono f (λ t. has_agent db t && not (eqb t id)) _ xs still_known
        (Refers-without f (has_agent db) id xs n h)

  without_agent : IsValid (record db {
    agents = left;
    containers = filter (λ c. not (eqb c.agent_id id)) db.containers;
  })
  without_agent = record {
    agent_ids = Keyed-filter (λ r. r.id) _ db.agents v.agent_ids;
    agent_names = Keyed-filter (λ r. r.name) _ db.agents v.agent_names;
    container_ids = Keyed-filter (λ r. r.id) _ db.containers v.container_ids;
    repository_names = v.repository_names;
    deployment_ids = v.deployment_ids;
    repository_ids = v.repository_ids;
    log_ids = v.log_ids;
    alert_ids = v.alert_ids;
    container_agents =
        Refers-mono (λ r. r.agent_id) (λ t. has_agent db t && not (eqb t id)) _ _ still_known
          (Refers-filter_without (λ r. r.agent_id) (has_agent db) id db.containers
            v.container_agents);
    repository_agents =
        unreferred (λ r. r.agent_id) db.repositories (ground arith) v.repository_agents;
    deployment_agents =
        unreferred (λ r. r.agent_id) db.deployments (ground arith) v.deployment_agents;
    alert_agents = unreferred (λ r. r.agent_id) db.alerts (ground arith) v.alert_agents;
    log_deployments = v.log_deployments;
  }

-- Deleting an agent that is not there.
without_none :
    (db : Db) (id : Text)
    → has_agent db id ≡ false
    → IsValid db
    → IsValid (record db { agents = filter (λ r. not (eqb r.id id)) db.agents })
without_none db id absent v =
    replace_agents db _ (Keyed-filter (λ r. r.id) _ db.agents v.agent_ids)
      (Keyed-filter (λ r. r.name) _ db.agents v.agent_names)
      (λ t h.
        any-filter_without (λ (r : AgentRow). r.id) t id db.agents
        ∙ other t h (Bool-cases (eqb t id)))
      v
  where
    other :
        (t : Text)
        → has_agent db t ≡ true
        → (eqb t id ≡ true) ⊎ (eqb t id ≡ false)
        → (has_agent db t && not (eqb t id)) ≡ true
    other t h (inl e) =
        let clash : has_agent db id ≡ true =
          subst (λ k. has_agent db k ≡ true) ((eqb_iff t id).0 e) h in
        cc
    other t h (inr e) = rw (h, e)

pub delete_agent-IsValid : (db : Db) (id : Text) → IsValid db → IsValid (delete_agent db id).0
unfolding delete_agent
delete_agent-IsValid db id v = elim (Bool-cases (has_agent db id)) [
  | inl there ↦ elim (Bool-cases (is_referenced db id)) [
    | inl held ↦ rw (there, held) v
    | inr free ↦ rw (there, free) (without_agent db id v free)
  ]
  | inr absent ↦ rw absent (without_none db id absent v)
]

pub upsert_container-IsValid :
    (db : Db) (c : Container) → IsValid db → IsValid (upsert_container db c).0
unfolding upsert_container
upsert_container-IsValid db c v = elim (Bool-cases (any (key_is (λ r. r.id) c.id) db.containers)) [
  | inl old ↦ rw old (
      replace_containers db _
        (Keyed-update_where (λ r. r.id) (key_is (λ r. r.id) c.id) _ db.containers (λ r. refl)
          v.container_ids)
        (Refers-update_where (λ r. r.agent_id) (has_agent db) (key_is (λ r. r.id) c.id) _
          db.containers (λ r h. h) v.container_agents)
        v)
  | inr new ↦ rw new (elim (Bool-cases (has_agent db c.agent_id)) [
    | inl known ↦ rw known (
        replace_containers db (db.containers ++ c ∷ [])
          (Keyed-snoc (λ r. r.id) db.containers c new v.container_ids)
          (Refers-snoc (λ r. r.agent_id) (has_agent db) db.containers c v.container_agents known) v)
    | inr unknown ↦ rw unknown v
  ])
]

pub create_repository-IsValid :
    (db : Db) (now : Time) (repo : Repository)
    → IsValid db
    → IsValid (create_repository db now repo).0
unfolding create_repository
create_repository-IsValid db now repo v =
    elim (Bool-cases (any (key_is (λ r. r.name) repo.name) db.repositories)) [
      | inl taken ↦ rw taken v
      | inr free ↦ rw free (elim (Bool-cases (has_agent db repo.agent_id)) [
        | inl known ↦ rw known (
            replace_repositories db (db.repositories ++ repository_row db now repo ∷ [])
              (suc db.next_repository)
              (Keyed-snoc (λ r. r.name) db.repositories (repository_row db now repo) free
                v.repository_names)
              (Numbered-snoc (λ r. r.id) pos db.next_repository db.repositories
                (repository_row db now repo) (λ i j e. cc) refl v.repository_ids)
              (Refers-snoc (λ r. r.agent_id) (has_agent db) db.repositories
                (repository_row db now repo) v.repository_agents known)
              v)
        | inr unknown ↦ rw unknown v
      ])
    ]

pub update_repository-IsValid :
    (db : Db) (repo : Repository) → IsValid db → IsValid (update_repository db repo).0
unfolding update_repository
update_repository-IsValid db repo v =
    elim (Bool-cases (any (key_is (λ r. r.name) repo.name) db.repositories)) [
      | inl old ↦ elim (Bool-cases (has_agent db repo.agent_id)) [
        | inl known ↦
            rw (old, known)
              (replace_repositories db _ db.next_repository
                (Keyed-update_where (λ r. r.name) (key_is (λ r. r.name) repo.name) _ db.repositories
                  (λ r. refl) v.repository_names)
                (Numbered-update_where (λ r. r.id) pos db.next_repository
                  (key_is (λ r. r.name) repo.name) _ db.repositories (λ r. refl) v.repository_ids)
                (Refers-update_where (λ r. r.agent_id) (has_agent db)
                  (key_is (λ r. r.name) repo.name) _ db.repositories (λ r h. known)
                  v.repository_agents)
                v)
        | inr unknown ↦ rw (old, unknown) v
      ]
      | inr new ↦
          rw
            (
              new,
              update_where-none (key_is (λ r. r.name) repo.name) _ db.repositories
                  (any-false-find _ db.repositories new),
            )
            v
    ]

pub create_deployment-IsValid :
    (db : Db) (d : Deployment) → IsValid db → IsValid (create_deployment db d).0
unfolding create_deployment
create_deployment-IsValid db d v = elim (Bool-cases (has_deployment db d.id)) [
  | inl taken ↦ rw taken v
  | inr free ↦ rw free (elim (Bool-cases (has_agent db d.agent_id)) [
    | inl known ↦ rw known (
        replace_deployments db (db.deployments ++ fresh_row d ∷ [])
          (Keyed-snoc (λ r. r.id) db.deployments (fresh_row d) free v.deployment_ids)
          (Refers-snoc (λ r. r.agent_id) (has_agent db) db.deployments (fresh_row d)
            v.deployment_agents known)
          (λ t h. any-append_left (key_is (λ r. r.id) t) db.deployments (fresh_row d ∷ []) h) v)
    | inr unknown ↦ rw unknown v
  ])
]

pub update_deployment-IsValid :
    (db : Db) (d : Deployment) → IsValid db → IsValid (update_deployment db d)
unfolding update_deployment
update_deployment-IsValid db d v =
    replace_deployments db _
      (Keyed-update_where (λ r. r.id) (key_is (λ r. r.id) d.id) (overwrite d) db.deployments
        (λ r. refl) v.deployment_ids)
      (Refers-update_where (λ r. r.agent_id) (has_agent db) (key_is (λ r. r.id) d.id) (overwrite d)
        db.deployments (λ r h. h) v.deployment_agents)
      (λ t h.
        any-update_where (key_is (λ r. r.id) d.id) (key_is (λ r. r.id) t) (overwrite d)
          db.deployments (λ r. refl)
        ∙ h)
      v

pub add_deployment_log-IsValid :
    (db : Db) (l : DeploymentLog) → IsValid db → IsValid (add_deployment_log db l).0
unfolding add_deployment_log
add_deployment_log-IsValid db l v = elim (Bool-cases (has_deployment db l.deployment_id)) [
  | inl known ↦ rw known (
      replace_logs db (db.logs ++ record l { id = db.next_log } ∷ []) (suc db.next_log)
        (Numbered-snoc (λ l. l.id) (λ n. n) db.next_log db.logs (record l { id = db.next_log })
          (λ i j e. e) refl v.log_ids)
        (Refers-snoc (λ r. r.deployment_id) (has_deployment db) db.logs
          (record l { id = db.next_log }) v.log_deployments known)
        v)
  | inr unknown ↦ rw unknown v
]

pub create_alert-IsValid : (db : Db) (a : Alert) → IsValid db → IsValid (create_alert db a).0
unfolding create_alert
create_alert-IsValid db a v = elim (Bool-cases (any (key_is (λ r. r.id) a.id) db.alerts)) [
  | inl taken ↦ rw taken v
  | inr free ↦ rw free (elim (Bool-cases (has_agent db a.agent_id)) [
    | inl known ↦ rw known (
        replace_alerts db (db.alerts ++ record a { resolved_at = none } ∷ [])
          (Keyed-snoc (λ r. r.id) db.alerts (record a { resolved_at = none }) free v.alert_ids)
          (Refers-snoc (λ r. r.agent_id) (has_agent db) db.alerts (record a { resolved_at = none })
            v.alert_agents known)
          v)
    | inr unknown ↦ rw unknown v
  ])
]
