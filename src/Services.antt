-- ===== src/Services.antt =====
-- internal/services and internal/api/handlers: deployments, and the webhooks that trigger them.
-- `TriggerDeploy` reads the clock once; it runs here with no other handler in between.
pub mod Sending
pub mod Trigger
pub mod Webhook
use uruflow.Prelude.{
  ℕ, Bool, true, false, List, [], ◌∷◌, ◌++◌, Option, none, some, Text, bytes, if◌then◌else◌,
}
use uruflow.Prelude.Int.{ℤ, pos}
use uruflow.Models.{Time, Agent, Repository, Command, Deployment, DeployStatus}
use uruflow.Config.{get_repository}
use uruflow.Storage.{Db, StoreError}
use uruflow.Storage.Agents.{get_agent}
use uruflow.Storage.Deployments.{create_deployment, update_deployment, get_recent_deployments}
use uruflow.Server.{Server, Env, with_db, next_id, drawn}
use uruflow.Server.Registry.{is_agent_connected, send_command}

-- The errors of `TriggerDeploy`, of internal/services/errors.go and those that it wraps.
pub data ServiceError : Type 0 where
  agent_not_connected : ServiceError
  repo_not_found : ServiceError
  create_failed : StoreError → ServiceError
  send_failed : ServiceError

pub data Outcome : Type 0 where
  failed : ServiceError → Outcome
  triggered : Deployment → Outcome

agent_name_of : Option Agent → Text
agent_name_of none = bytes "unknown"
agent_name_of (some agent) = agent.name

-- What a deployment is asked for with.
pub record DeployRequest : Type 0 where
  pub agent_id : Text
  pub repo_name : Text
  pub branch : Text
  pub commit : Text
  pub trigger : Text

unfoldable pub new_deployment : Text → Time → Db → DeployRequest → Deployment
unfolding agent_name_of
new_deployment id now db r = record {
  id = id;
  repository = r.repo_name;
  branch = r.branch;
  commit = r.commit;
  agent_id = r.agent_id;
  agent_name = agent_name_of (get_agent db r.agent_id);
  status = DeployStatus.pending;
  output = [];
  duration = pos 0;
  started_at = now;
  ended_at = none;
  trigger = r.trigger;
}

unfoldable pub deploy_command : Text → Repository → DeployRequest → Command
deploy_command id repo r = record {
  id = id;
  type = bytes "deploy";
  agent_id = r.agent_id;
  payload =
      (bytes "url", repo.url)
      ∷ (bytes "name", repo.name)
      ∷ (bytes "branch", r.branch)
      ∷ (bytes "commit", r.commit)
      ∷ (bytes "path", repo.path)
      ∷ (bytes "build_system", repo.build_system)
      ∷ (bytes "build_file", repo.build_file)
      ∷ (bytes "build_cmd", repo.build_cmd)
      ∷ [];
}

-- The deployment as it is recorded when its command could not be sent; `why` is the text of the
-- error.
abbrev pub unsent : Text → Deployment → Deployment
unsent why d = record d {
  status = DeployStatus.failed;
  output = bytes "Failed to send command: " ++ why;
  ended_at = some d.started_at;
}

unfoldable pub sent : Text → Deployment → Server × Bool → Server × Outcome
sent why d (s, true) = (s, triggered d)
sent why d (s, false) = (with_db s (update_deployment s.db (unsent why d)), failed send_failed)

unfoldable pub created :
    Env
    → Text
    → Server
    → Repository
    → DeployRequest
    → Deployment
    → Db × Option StoreError
    → Server × Outcome
unfolding sent
created env why s repo r d (db, some e) = (with_db s db, failed (create_failed e))
created env why s repo r d (db, none) =
    sent why d (send_command env (with_db s db) r.agent_id (deploy_command d.id repo r))

unfoldable pub found :
    Env → Time → Text → Server → DeployRequest → Option Repository → Server × Outcome
unfolding created
found env now why s r none = (s, failed repo_not_found)
found env now why s r (some repo) =
    let d = new_deployment (next_id env s) now s.db r in
    created env why (drawn s) repo r d (create_deployment s.db d)

-- `TriggerDeploy`
unfoldable pub trigger_deploy : Env → Time → Text → Server → DeployRequest → Server × Outcome
unfolding found
trigger_deploy env now why s r =
    if is_agent_connected s r.agent_id
    then found env now why s r (get_repository s.config r.repo_name)
    else (s, failed agent_not_connected)
