-- ===== src/Services/Trigger.antt =====
-- What `TriggerDeploy` of internal/services/deployment.go leaves in the tables, on each of its
-- ways out.
use mathlib.Core.Option
use uruflow.Prelude.{
  ◌≡◌, ◌≢◌, ◌⊎◌, refl, ap, ◌∙◌, Bool, true, false, Option, none, some, Text, arith, eqb, eqb_iff,
  eqb_self, Bool-cases, Option-cases, inl, inr, if◌then◌else◌,
}
use uruflow.Prelude.Maps.{lookup}
use uruflow.Models.{Time, Repository, Command, Deployment, DeployStatus}
use uruflow.Config.{get_repository}
use uruflow.Protocol.{Message}
use uruflow.Storage.{Db, StoreError, has_agent}
use uruflow.Storage.Deployments.{get_deployment, create_deployment, fresh_row, overwrite}
use uruflow.Storage.Lookup.{get_deployment-update_deployment, create_deployment_lem}
use uruflow.Server.{Server, Env, with_db, next_id, drawn}
use uruflow.Server.Connections.{send, modify}
use uruflow.Server.Registry.{is_agent_connected, send_command}
use uruflow.Services.{
  send_failed, Outcome, failed, triggered, DeployRequest, new_deployment, deploy_command, unsent,
  sent, created, found, trigger_deploy,
}

send-db : (s : Server) (c : Text) (m : Message) → (send s c m).0.db ≡ s.db
unfolding send modify
send-db s c m = ground arith

send_command-db :
    (env : Env) (s : Server) (agent_id : Text) (cmd : Command)
    → (send_command env s agent_id cmd).0.db ≡ s.db
unfolding send_command
send_command-db env s agent_id cmd = elim (Option-cases (lookup agent_id s.registry)) [
  | inl e ↦ rw (send_command, e)
  | inr (c, e) ↦ rw (send_command, e) (send-db s c _)
]

-- What an outcome says of the deployment with the id that the request drew.
unfoldable pub Recorded : Db → Db → Text → Outcome → Type 0
Recorded db db' id (triggered d) =
    (d.id ≡ id)
    × (d.status ≡ DeployStatus.pending)
    × (get_deployment db id ≡ none)
    × (get_deployment db' id ≡ some d)
Recorded db db' id (failed send_failed) =
    (d : Deployment) × (get_deployment db' id ≡ some d)
    × (d.status ≡ DeployStatus.failed)
    × (d.ended_at ≡ some d.started_at)
    × (get_deployment db id ≡ none)
Recorded db db' id (failed _) = db' ≡ db

-- The tables of other deployments.
abbrev Others : Db → Db → Text → Type 0
Others db db' id = (k : Text) → id ≢ k → get_deployment db' k ≡ get_deployment db k

sent-Recorded :
    (why : Text) (db : Db) (d : Deployment) (p : Server × Bool)
    → d.status ≡ DeployStatus.pending
    → get_deployment db d.id ≡ none
    → get_deployment p.0.db d.id ≡ some d
    → Recorded db (sent why d p).0.db d.id (sent why d p).1
unfolding sent Recorded
sent-Recorded why db d (s, true) pending free e = (refl, pending, free, e)
sent-Recorded why db d (s, false) pending free e = (
  unsent why d,
  ground (arith, e, get_deployment-update_deployment s.db (unsent why d) d.id, eqb_self d.id),
  refl,
  refl,
  free,
)

sent-Others :
    (why : Text) (d : Deployment) (p : Server × Bool) → Others p.0.db (sent why d p).0.db d.id
unfolding sent
sent-Others why d (s, true) k ne = refl
sent-Others why d (s, false) k ne =
    get_deployment-update_deployment s.db (unsent why d) k ∙ unchanged (get_deployment s.db k)
  where
    unchanged :
        (o : Option Deployment)
        → Option.map (λ r. if eqb d.id k then overwrite (unsent why d) r else r) o ≡ o
    unchanged none = refl
    unchanged (some r) = ground (arith, eqb_iff d.id k, ne)

-- What the outcome and the other deployments are after an attempt.
abbrev Attempt : Db → Text → Server × Outcome → Type 0
Attempt db id r = Recorded db r.0.db id r.1 × Others db r.0.db id

abbrev Created : Db → Db → Deployment → Option StoreError → Type 0
Created db db' d none =
    (get_deployment db d.id ≡ none) × (get_deployment db' d.id ≡ some d) × Others db db' d.id
Created db db' d (some e) = db' ≡ db

created-Attempt :
    (env : Env) (why : Text) (s : Server) (db db' : Db) (repo : Repository) (r : DeployRequest)
    (d : Deployment) (result : Option StoreError)
    → d.status ≡ DeployStatus.pending
    → Created db db' d result
    → Attempt db d.id (created env why s repo r d (db', result))
unfolding created Recorded
created-Attempt env why s db db' repo r d (some e) pending same =
    (same, λ k ne. ap (λ t. get_deployment t k) same)
created-Attempt env why s db db' repo r d none pending (free, e, others) =
    let t = with_db s db' in
    let cmd = deploy_command d.id repo r in
    let p = send_command env t r.agent_id cmd in
    let same = send_command-db env t r.agent_id cmd in
    (
      sent-Recorded why db d p pending free (ap (λ x. get_deployment x d.id) same ∙ e),
      λ k ne. sent-Others why d p k ne ∙ ap (λ x. get_deployment x k) same ∙ others k ne,
    )

create_deployment-Created :
    (db : Db) (d : Deployment)
    → fresh_row d ≡ d
    → Created db (create_deployment db d).0 d (create_deployment db d).1
create_deployment-Created db d fresh = cases (create_deployment db d) (create_deployment_lem db d)
  where
    cases :
        (p : Db × Option StoreError)
        → ((get_deployment db d.id ≢ none) ⊎ (has_agent db d.agent_id ≡ false))
            × (p.1 ≢ none)
            × (p.0 ≡ db)
          ⊎ (p.1 ≡ none)
            × (get_deployment db d.id ≡ none)
            × (has_agent db d.agent_id ≡ true)
            × (get_deployment p.0 d.id ≡ some (fresh_row d))
            × ((id : Text) → d.id ≢ id → get_deployment p.0 id ≡ get_deployment db id)
        → Created db p.0 d p.1
    cases (db', none) (inl (why, error, same)) = absurd (error refl)
    cases (db', some e) (inl (why, error, same)) = same
    cases (db', none) (inr (ok, free, known, e, others)) = (free, e ∙ ap some fresh, others)
    cases (db', some e) (inr (ok, free, known, f, others)) = ground (arith, ok)

found-Attempt :
    (env : Env) (now : Time) (why : Text) (s : Server) (r : DeployRequest)
    (repo : Option Repository)
    → Attempt s.db (next_id env s) (found env now why s r repo)
unfolding found Recorded new_deployment
found-Attempt env now why s r none = (refl, λ k ne. refl)
found-Attempt env now why s r (some repo) =
    let d = new_deployment (next_id env s) now s.db r in
    let p = create_deployment s.db d in
    created-Attempt env why (drawn s) s.db p.0 repo r d p.1 refl
      (create_deployment-Created s.db d refl)

pub trigger_deploy-Recorded :
    (env : Env) (now : Time) (why : Text) (s : Server) (r : DeployRequest) (k : Text)
    → let (s', outcome) = trigger_deploy env now why s r in
      Recorded s.db s'.db (next_id env s) outcome
      × ((next_id env s ≡ k) ⊎ (get_deployment s'.db k ≡ get_deployment s.db k))
unfolding trigger_deploy Recorded
trigger_deploy-Recorded env now why s r k = elim (Bool-cases (is_agent_connected s r.agent_id)) [
  | inl e ↦
      rw (trigger_deploy, e)
        (at_id s.db k (found env now why s r (get_repository s.config r.repo_name))
          (found-Attempt env now why s r (get_repository s.config r.repo_name)))
  | inr e ↦ rw (trigger_deploy, e) (refl, inr refl)
]
  where
    at_id :
        (db : Db) (k : Text) (result : Server × Outcome)
        → Attempt db (next_id env s) result
        → Recorded db result.0.db (next_id env s) result.1
          × ((next_id env s ≡ k) ⊎ (get_deployment result.0.db k ≡ get_deployment db k))
    at_id db k result (recorded, others) = elim (Bool-cases (eqb (next_id env s) k)) [
      | inl same ↦ (recorded, inl ((eqb_iff (next_id env s) k).0 same))
      | inr other ↦ (recorded, inr (others k (ground (arith, other, eqb_self k))))
    ]
