-- ===== src/Delivery/Completion.antt =====
-- From `TriggerDeploy` of internal/services/deployment.go to the tables that a deployment ends in.
use uruflow.Prelude.{
  ◌⊎◌, inl, inr, none, Option, [], ◌≡◌, refl, sym, ap, ◌∙◌, subst, ℕ, true, ◌-◌, some, Text, length,
  drop, eqb,
}
use uruflow.Prelude.Int.{ℤ, quot, ◌-ℤ◌}
use uruflow.Prelude.Maps.{lookup}
use uruflow.Models.{DeployStatus, Time, Repository, Command, Deployment}
use uruflow.Config.{get_repository}
use uruflow.Protocol.Payloads.{
  CommandDonePayload, new_message, decode, zero_command, zero_command_done,
}
use uruflow.Storage.Deployments.{get_deployment}
use uruflow.Server.{Connection, Server, Env, next_id}
use uruflow.Server.Commands.{finish}
use uruflow.Server.Dispatch.{handle_messages}
use uruflow.Services.{triggered, DeployRequest, deploy_command, trigger_deploy}
use uruflow.Services.Trigger.{Recorded, trigger_deploy-Recorded}
use uruflow.Agent.Deploy.{Host}
use uruflow.Agent.Deploy.Plan.{reference}
use uruflow.Agent.Daemon.{Agent, run_command, handle_message}
use uruflow.Agent.Daemon.Tasks.{handle_command}
use uruflow.Agent.Daemon.Verdict.{verdict_on, verdict_message, verdict}
use uruflow.Delivery.{arriving, deployment_ends}
use uruflow.Delivery.Request.{payload_of, command_message, asked, Delivered, trigger_deploy-Request}

verdict-deploy_command :
    {W : Type 0} (h : Host W) (work_dir id : Text) (repo : Repository) (r : DeployRequest) (w : W)
    → verdict h work_dir (payload_of (deploy_command id repo r)) w
      ≡ verdict_on id (reference h work_dir (asked repo r) w).1
unfolding verdict deploy_command lookup eqb
verdict-deploy_command h work_dir id repo r w = refl

trigger_deploy-known :
    (env : Env) (now : Time) (why : Text) (s : Server) (r : DeployRequest) {d : Deployment}
    → (trigger_deploy env now why s r).1 ≡ triggered d
    → get_deployment (trigger_deploy env now why s r).0.db d.id ≡ some d
unfolding Recorded
trigger_deploy-known env now why s r {d} t =
    let s' = (trigger_deploy env now why s r).0 in
    let (id, pending, free, known) =
      subst (Recorded s.db s'.db (next_id env s)) t
        (trigger_deploy-Recorded env now why s r d.id).0 in
    ap (get_deployment s'.db) id ∙ known

handle_message-command :
    (env : Env) (a : Agent) (cmd : Command)
    → decode env.json.command zero_command (command_message env cmd) ≡ some (payload_of cmd)
    → (handle_message env.json a (command_message env cmd)).1 ≡ some (run_command (payload_of cmd))
unfolding handle_message new_message
handle_message-command env a cmd e = rw e refl

-- What an error of the plan, or none, makes of a deployment: its status, its output, the end and the
-- milliseconds since the start; the other columns stay.
abbrev pub EndsWith : Time → Option Text → Deployment → Deployment → Type 0
EndsWith now error d ended =
    ((error ≡ none) × (ended.status ≡ DeployStatus.success) × (ended.output ≡ [])
      ⊎ ((e : Text) × (error ≡ some e) × (ended.status ≡ DeployStatus.failed) × (ended.output ≡ e)))
    × (ended.ended_at ≡ some now)
    × (ended.duration ≡ quot (now -ℤ d.started_at) 1000000)
    × (record ended {
      status = d.status;
      output = d.output;
      ended_at = d.ended_at;
      duration = d.duration;
    }
        ≡ d)

finish-EndsWith :
    (now : Time) (id : Text) (error : Option Text) (d : Deployment)
    → EndsWith now error d (finish now (verdict_on id error) d)
unfolding eqb
finish-EndsWith now id none d = (inl (refl, refl, refl), refl, refl, refl)
finish-EndsWith now id (some e) d = (inr (e, refl, refl, refl), refl, refl, refl)

abbrev Reads : Env → CommandDonePayload → Type 0
Reads env p = decode env.json.command_done zero_command_done (verdict_message env.json p) ≡ some p

-- A deployment that `TriggerDeploy` returns is carried out and recorded. Its command is the last
-- message on the agent's open connection; an agent that reads it starts a task, and if the task
-- runs alone on an open socket and the server handles what it sends, each message at a time of its
-- own, the deployment ends when the last of them arrives: with success if the plan for the
-- repository and the request (clone or pull, checkout, build) succeeds on the agent's machine, and
-- otherwise failed, with the plan's error as its output; it has the time of that message as its end
-- and the milliseconds from its start to then as its duration. The JSON must read back the command
-- and the verdict.
pub trigger-finish :
    {W : Type 0} (env : Env) (h : Host W) (asked_at : Time) (why : Text) (s : Server)
    (r : DeployRequest) (now took : ℤ) (work_dir : Text) (a : Agent) (w : W) (clock : ℕ → Time)
    {repo : Repository} {d : Deployment}
    → get_repository s.config r.repo_name ≡ some repo
    → (trigger_deploy env asked_at why s r).1 ≡ triggered d
    → a.socket_open ≡ true
    → decode env.json.command zero_command (command_message env (deploy_command d.id repo r))
      ≡ some (payload_of (deploy_command d.id repo r))
    → Reads env (verdict_on d.id (reference h work_dir (asked repo r) w).1)
    → let s' = (trigger_deploy env asked_at why s r).0 in
      let cmd = deploy_command d.id repo r in
      let m = command_message env cmd in
      let a' = (handle_command env.json h now took work_dir (payload_of cmd) a w).0 in
      let sent = drop (length a.sent) a'.sent in
      let end = clock (length sent - 1) in
      (conn_id : Text) × (conn : Connection) × Delivered s s' r.agent_id m conn_id conn
      × ((handle_message env.json a m).1 ≡ some (run_command (payload_of cmd)))
      × ((ended : Deployment) × (get_deployment
              (handle_messages env s' conn_id (arriving clock sent)).db
              d.id
            ≡ some ended)
          × EndsWith end (reference h work_dir (asked repo r) w).1 d ended)
unfolding deploy_command
trigger-finish env h asked_at why s r now took work_dir a w clock {repo} {d} e t o reads back =
    let (conn_id, conn, delivered) = trigger_deploy-Request env asked_at why s r e t in
    let cmd = deploy_command d.id repo r in
    let same = verdict-deploy_command h work_dir d.id repo r w in
    let (known, up, last) = delivered in
    let s' = (trigger_deploy env asked_at why s r).0 in
    let a' = (handle_command env.json h now took work_dir (payload_of cmd) a w).0 in
    let sent = drop (length a.sent) a'.sent in
    let error = (reference h work_dir (asked repo r) w).1 in
    let ends : CommandDonePayload → Type 0 = λ p.
      get_deployment (handle_messages env s' conn_id (arriving clock sent)).db d.id
      ≡ some (finish (clock (length sent - 1)) p d) in
    (
      conn_id,
      conn,
      delivered,
      handle_message-command env a cmd reads,
      (
        finish (clock (length sent - 1)) (verdict_on d.id error) d,
        subst ends same (
            deployment_ends env h now took work_dir (payload_of cmd) a w s' conn_id clock o last up
              (trigger_deploy-known env asked_at why s r t) (subst (Reads env) (sym same) back)),
        finish-EndsWith (clock (length sent - 1)) d.id error d,
      ),
    )
