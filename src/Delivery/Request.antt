-- ===== src/Delivery/Request.antt =====
-- The message that `TriggerDeploy` of internal/services/deployment.go leaves for the agent.
use uruflow.Prelude.{
  ◌≡◌, refl, sym, ap, ◌∙◌, subst, Bool, true, false, [], Option, none, some, Text, arith, eqb,
  eqb_self, Bool-cases, Option-cases, inl, inr, if◌then◌else◌,
}
use uruflow.Prelude.Maps.{lookup}
use uruflow.Models.{Time, Repository, Command, Deployment}
use uruflow.Config.{get_repository}
use uruflow.Protocol.{Message}
use uruflow.Protocol.MessageType
use uruflow.Protocol.Payloads.{CommandPayload, new_message}
use uruflow.Storage.{Db, StoreError}
use uruflow.Storage.Deployments.{create_deployment}
use uruflow.Server.{Connection, Server, Env, with_db, next_id, drawn}
use uruflow.Server.Connections.{get_connection, send, append_sent}
use uruflow.Server.Registry.{send_command, is_agent_connected}
use uruflow.Server.Registry.Liveness.{get_connection-modify}
use uruflow.Services.{
  triggered, failed, agent_not_connected, DeployRequest, new_deployment, deploy_command, sent,
  created, found, trigger_deploy,
}
use uruflow.Agent.Deploy.{DeployConfig}
use uruflow.Agent.Daemon.Tasks.{config_of}

-- A command as it is sent.
abbrev pub payload_of : Command → CommandPayload
payload_of cmd = record { id = cmd.id; type = cmd.type; payload = cmd.payload }

abbrev pub command_message : Env → Command → Message
command_message env cmd = new_message env.json.command MessageType.command (payload_of cmd)

-- What a repository and a request ask the agent to do.
abbrev pub asked : Repository → DeployRequest → DeployConfig
asked repo r = record {
  url = repo.url;
  name = repo.name;
  branch = r.branch;
  commit = r.commit;
  path = repo.path;
  build_system = repo.build_system;
  build_file = repo.build_file;
  build_cmd = repo.build_cmd;
  env = [];
}

-- The agent reads the fields that the server writes.
config_of-deploy_command :
    (id : Text) (repo : Repository) (r : DeployRequest)
    → config_of (deploy_command id repo r).payload ≡ asked repo r
unfolding deploy_command lookup eqb
config_of-deploy_command id repo r = refl

-- The object of an open connection, and that it is the agent's; the message is its last.
abbrev pub Delivered : Server → Server → Text → Message → Text → Connection → Type 0
Delivered s s' agent_id m conn_id conn =
    (lookup agent_id s.registry ≡ some conn_id)
    × (conn.closed ≡ false)
    × (get_connection s' conn_id ≡ some (append_sent m conn))

send-true :
    (s : Server) (id : Text) (m : Message)
    → (send s id m).1 ≡ true
    → (conn : Connection) × (conn.closed ≡ false)
      × (get_connection (send s id m).0 id ≡ some (append_sent m conn))
unfolding send
send-true s id m ok = elim (Option-cases (get_connection s id)) [
  | inl e ↦ absurd (ground (arith, ok, e))
  | inr (conn, e) ↦ (
    conn,
    ground (arith, ok, e),
    ground (arith, ok, e, get_connection-modify s id id (append_sent m) (λ c. refl), eqb_self id),
  )
]

send_command-to :
    (env : Env) (s : Server) (agent_id : Text) (cmd : Command) {conn_id : Text}
    → lookup agent_id s.registry ≡ some conn_id
    → send_command env s agent_id cmd ≡ send s conn_id (command_message env cmd)
unfolding send_command
send_command-to env s agent_id cmd e =
    ap (λ o. elim o [ none ↦ (s, false) | some c ↦ send s c (command_message env cmd) ]) e

send_command-true :
    (env : Env) (s : Server) (agent_id : Text) (cmd : Command)
    → (send_command env s agent_id cmd).1 ≡ true
    → (conn_id : Text) × (conn : Connection) × Delivered s
        (send_command env s agent_id cmd).0
        agent_id
        (command_message env cmd)
        conn_id
        conn
unfolding send_command
send_command-true env s agent_id cmd ok = elim (Option-cases (lookup agent_id s.registry)) [
  | inl e ↦ absurd (ground (arith, ok, e))
  | inr (conn_id, e) ↦
      let m = command_message env cmd in
      let ok' : (send s conn_id m).1 ≡ true =
        ap (λ p. p.1) (sym (send_command-to env s agent_id cmd e)) ∙ ok in
      let (conn, up, said) = send-true s conn_id m ok' in
      (
        conn_id,
        conn,
        (e, up, ap (λ p. get_connection p.0 conn_id) (send_command-to env s agent_id cmd e) ∙ said),
      )
]

-- A deployment that `TriggerDeploy` returns was sent to its agent.
sent-triggered :
    (why : Text) (d d' : Deployment) (p : Server × Bool)
    → (sent why d p).1 ≡ triggered d'
    → (d ≡ d') × (p.1 ≡ true) × ((sent why d p).0 ≡ p.0)
unfolding sent
sent-triggered why d d' (s, true) e = (cc, refl, refl)
sent-triggered why d d' (s, false) e = absurd cc

abbrev Request : Env → Server → Server → DeployRequest → Repository → Deployment → Type 0
Request env s s' r repo d =
    (conn_id : Text) × (conn : Connection) × Delivered s s' r.agent_id
      (command_message env (deploy_command d.id repo r)) conn_id conn

created-Request :
    (env : Env) (why : Text) (s : Server) (repo : Repository) (r : DeployRequest)
    (d d' : Deployment) (p : Db × Option StoreError)
    → (created env why s repo r d p).1 ≡ triggered d'
    → Request env s (created env why s repo r d p).0 r repo d'
unfolding created
created-Request env why s repo r d d' (db, some e) t = absurd cc
created-Request env why s repo r d d' (db, none) t =
    let p = send_command env (with_db s db) r.agent_id (deploy_command d.id repo r) in
    let (same, ok, last) = sent-triggered why d d' p t in
    let (conn_id, conn, (known, up, said)) =
      send_command-true env (with_db s db) r.agent_id (deploy_command d.id repo r) ok in
    (
      conn_id,
      conn,
      (
        known,
        up,
        subst
            (λ x.
              get_connection (sent why d p).0 conn_id
              ≡ some (append_sent (command_message env (deploy_command x.id repo r)) conn))
            same (ap (λ q. get_connection q conn_id) last ∙ said),
      ),
    )

pub trigger_deploy-Request :
    (env : Env) (now : Time) (why : Text) (s : Server) (r : DeployRequest) {repo : Repository}
    {d : Deployment}
    → get_repository s.config r.repo_name ≡ some repo
    → (trigger_deploy env now why s r).1 ≡ triggered d
    → Request env s (trigger_deploy env now why s r).0 r repo d
unfolding trigger_deploy found
trigger_deploy-Request env now why s r {repo} {d} e t =
    elim (Bool-cases (is_agent_connected s r.agent_id)) [
      | inl c ↦
          let dd = new_deployment (next_id env s) now s.db r in
          let p = create_deployment s.db dd in
          let way : trigger_deploy env now why s r ≡ created env why (drawn s) repo r dd p =
            ap
              (λ b.
                if b
                then found env now why s r (get_repository s.config r.repo_name)
                else (s, failed agent_not_connected))
              c
            ∙ ap (found env now why s r) e in
          subst (λ q. q.1 ≡ triggered d → Request env s q.0 r repo d) (sym way)
            (created-Request env why (drawn s) repo r dd d p) t
      | inr c ↦ absurd (ground (arith, t, c))
    ]
