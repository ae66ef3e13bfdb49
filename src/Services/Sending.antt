-- ===== src/Services/Sending.antt =====
-- Why `TriggerDeploy` of internal/services/deployment.go ends as it does: the map of connections, the
-- agent's connection, the configuration and the tables when it is called.
use uruflow.Prelude.{
  ◌≡◌, ◌≢◌, ◌⊎◌, refl, sym, Bool, true, false, not, ◌&&◌, Option, none, some, Text, arith,
  Option-cases, inl, inr,
}
use uruflow.Prelude.Maps.{lookup}
use uruflow.Models.{Time, Repository, Command, Deployment}
use uruflow.Config.{get_repository}
use uruflow.Protocol.{Message}
use uruflow.Storage.{Db, StoreError, has_agent}
use uruflow.Storage.Deployments.{get_deployment, create_deployment}
use uruflow.Storage.Lookup.{create_deployment_lem}
use uruflow.Server.{Connection, Server, Env, with_db, next_id, drawn}
use uruflow.Server.Connections.{get_connection, send}
use uruflow.Server.Registry.{is_agent_connected, send_command}
use uruflow.Services.{
  agent_not_connected, repo_not_found, create_failed, send_failed, Outcome, failed, triggered,
  DeployRequest, new_deployment, deploy_command, sent, created, found, trigger_deploy,
}

-- The object of a connection that takes a message: it was not closed, and its socket writes.
abbrev pub takes : Option Connection → Bool
takes none = false
takes (some c) = not c.closed && c.reachable

abbrev takes_from : Server → Option Text → Bool
takes_from s none = false
takes_from s (some conn_id) = takes (get_connection s conn_id)

abbrev pub takes_command : Server → Text → Bool
takes_command s agent_id = takes_from s (lookup agent_id s.registry)

-- The reason for an outcome, for the id that is drawn.
unfoldable pub Explained : Server → Text → DeployRequest → Outcome → Type 0
Explained s id r (triggered d) = takes_command s r.agent_id ≡ true
Explained s id r (failed send_failed) =
    (lookup r.agent_id s.registry ≢ none) × (takes_command s r.agent_id ≡ false)
Explained s id r (failed agent_not_connected) = lookup r.agent_id s.registry ≡ none
Explained s id r (failed repo_not_found) = get_repository s.config r.repo_name ≡ none
Explained s id r (failed (create_failed e)) =
    (get_deployment s.db id ≢ none) ⊎ (has_agent s.db r.agent_id ≡ false)

send-takes : (s : Server) (id : Text) (m : Message) → (send s id m).1 ≡ takes (get_connection s id)
unfolding send
send-takes s id m = elim (Option-cases (get_connection s id)) [
  | inl e ↦ ground (arith, e)
  | inr (c, e) ↦ ground (arith, e)
]

send_command-takes :
    (env : Env) (s : Server) (agent_id : Text) (cmd : Command)
    → (send_command env s agent_id cmd).1 ≡ takes_command s agent_id
unfolding send_command
send_command-takes env s agent_id cmd = elim (Option-cases (lookup agent_id s.registry)) [
  | inl e ↦ rw (send_command, e) refl
  | inr (c, e) ↦ rw (send_command, e) (send-takes s c _)
]

sent-Explained :
    (why : Text) (s : Server) (id : Text) (r : DeployRequest) (d : Deployment) (p : Server × Bool)
    → lookup r.agent_id s.registry ≢ none
    → p.1 ≡ takes_command s r.agent_id
    → Explained s id r (sent why d p).1
unfolding sent Explained
sent-Explained why s id r d (t, true) known e = sym e
sent-Explained why s id r d (t, false) known e = (known, sym e)

created-Explained :
    (env : Env) (why : Text) (s : Server) (id : Text) (repo : Repository) (r : DeployRequest)
    (d : Deployment) (p : Db × Option StoreError)
    → lookup r.agent_id s.registry ≢ none
    → ((p.1 ≢ none) → (get_deployment s.db id ≢ none) ⊎ (has_agent s.db r.agent_id ≡ false))
    → Explained s id r (created env why (drawn s) repo r d p).1
unfolding created Explained get_connection
created-Explained env why s id repo r d (db, some e) known refused = refused (λ n. cc)
created-Explained env why s id repo r d (db, none) known refused =
    let t = with_db (drawn s) db in
    let cmd = deploy_command d.id repo r in
    sent-Explained why s id r d (send_command env t r.agent_id cmd) known
      (send_command-takes env t r.agent_id cmd)

create_refused :
    (db : Db) (d : Deployment)
    → (create_deployment db d).1 ≢ none
    → (get_deployment db d.id ≢ none) ⊎ (has_agent db d.agent_id ≡ false)
create_refused db d ne = elim (create_deployment_lem db d) [
  | inl (why, error, same) ↦ why
  | inr (ok, free, known, row, others) ↦ absurd (ne ok)
]

found-Explained :
    (env : Env) (now : Time) (why : Text) (s : Server) (r : DeployRequest)
    (repo : Option Repository)
    → lookup r.agent_id s.registry ≢ none
    → get_repository s.config r.repo_name ≡ repo
    → Explained s (next_id env s) r (found env now why s r repo).1
unfolding found Explained new_deployment
found-Explained env now why s r none known e = e
found-Explained env now why s r (some repo) known e =
    let d = new_deployment (next_id env s) now s.db r in
    created-Explained env why s (next_id env s) repo r d (create_deployment s.db d) known
      (create_refused s.db d)

pub trigger_deploy-Explained :
    (env : Env) (now : Time) (why : Text) (s : Server) (r : DeployRequest)
    → Explained s (next_id env s) r (trigger_deploy env now why s r).1
unfolding trigger_deploy Explained is_agent_connected
trigger_deploy-Explained env now why s r = elim (Option-cases (lookup r.agent_id s.registry)) [
  | inl e ↦ rw (trigger_deploy, is_agent_connected, e) e
  | inr (c, e) ↦
      rw (trigger_deploy, is_agent_connected, e)
        (found-Explained env now why s r (get_repository s.config r.repo_name) (λ n. cc (n, e))
          refl)
]
