-- ===== src/Delivery.antt =====
-- The way of a deployment through the program: internal/services/deployment.go triggers it,
-- internal/agent/daemon/daemon.go runs it, and internal/tcp/server.go records what is reported.
pub mod Request
pub mod Completion
pub mod Streaming
use mathlib.Core.List.{append_assoc}
use uruflow.Prelude.{
  ◌≡◌, ◌⊎◌, refl, sym, ap, ◌∙◌, subst, ℕ, suc, Bool, true, false, List, [], ◌∷◌, ◌++◌, ◌-◌, map,
  length-append, Option, none, some, Text, bytes, All, All-append, arith, length, drop,
  drop-append_length, eqb, Bool-cases, Option-cases, inl, inr, if◌then◌else◌,
}
use uruflow.Prelude.Int.{ℤ, pos}
use uruflow.Models.{Time, Deployment}
use uruflow.Protocol.{Message}
use uruflow.Protocol.Payloads.{
  Json, CommandPayload, CommandDonePayload, new_message, decode, zero_command_done,
}
use uruflow.Storage.Deployments.{get_deployment}
use uruflow.Server.{Connection, Server, Env}
use uruflow.Server.Connections.{get_connection}
use uruflow.Server.Commands.{finish}
use uruflow.Server.Commands.Lifecycle.{Report, finished, apply_all, verdict_last}
use uruflow.Server.Dispatch.{handle_messages}
use uruflow.Server.Dispatch.Reports.{IsReport, read_report, read_reports, handle_messages-reports}
use uruflow.Agent.Deploy.{Host, LogLine}
use uruflow.Agent.Deploy.Plan.{reference}
use uruflow.Agent.Daemon.{Agent}
use uruflow.Agent.Daemon.Tasks.{handle_command, config_of, log_message}
use uruflow.Agent.Daemon.Verdict.{
  verdict_on, is_deploy, verdict_message, told, verdict, handle_command-sent,
}

-- Messages in their order, each handled at its own time.
unfoldable pub arriving : (ℕ → Time) → List Message → List (Time × Message)
arriving clock [] = []
arriving clock (m ∷ ms) = (clock 0, m) ∷ arriving (λ n. clock (suc n)) ms

arriving-append :
    (clock : ℕ → Time) (ms : List Message) (m : Message)
    → arriving clock (ms ++ m ∷ []) ≡ arriving clock ms ++ (clock (length ms), m) ∷ []
unfolding arriving
arriving-append clock [] m = refl
arriving-append clock (x ∷ ms) m = ap (◌∷◌ (clock 0, x)) (arriving-append (λ n. clock (suc n)) ms m)

arriving-All :
    (clock : ℕ → Time) (ms : List Message)
    → All IsReport ms
    → All (λ e. IsReport e.1) (arriving clock ms)
unfolding arriving
arriving-All clock [] h = tt
arriving-All clock (m ∷ ms) h = (h.0, arriving-All (λ n. clock (suc n)) ms h.1)

read_reports-append :
    (env : Env) (xs ys : List (Time × Message))
    → read_reports env (xs ++ ys) ≡ read_reports env xs ++ read_reports env ys
unfolding read_reports
read_reports-append env [] ys = refl
read_reports-append env ((now, m) ∷ xs) ys =
    ap (◌++◌ (read_report env now m)) (read_reports-append env xs ys)
    ∙ sym (append_assoc (read_report env now m) (read_reports env xs) (read_reports env ys))

logs-All :
    (json : Json) (now : ℤ) (id : Text) (ls : List LogLine)
    → All IsReport (map (log_message json now id) ls)
unfolding new_message
logs-All json now id [] = tt
logs-All json now id (l ∷ ls) = (inr (inr (inl refl)), logs-All json now id ls)

told-All :
    {W : Type 0} (env : Env) (h : Host W) (now took : ℤ) (work_dir : Text) (cmd : CommandPayload)
    (w : W)
    → All IsReport (told env.json h now took work_dir cmd w)
unfolding told new_message
told-All env h now took work_dir cmd w = elim (Bool-cases (is_deploy cmd)) [
  | inl d ↦ rw (told, d) (inl refl, (inr (inl refl), logs-All env.json now cmd.id _))
  | inr d ↦ rw (told, d) (inl refl, tt)
]

verdict-command_id :
    {W : Type 0} (h : Host W) (work_dir : Text) (cmd : CommandPayload) (w : W)
    → (verdict h work_dir cmd w).command_id ≡ cmd.id
unfolding verdict
verdict-command_id h work_dir cmd w =
    elim (Option-cases (reference h work_dir (config_of cmd.payload) w).1) [
      | inl e ↦ ground (arith, e)
      | inr (t, e) ↦ ground (arith, e)
    ]

-- The reports of an agent, as the tables take them, end in the verdict.
reports_end :
    (env : Env) (clock : ℕ → Time) (ms : List Message) (p : CommandDonePayload)
    → decode env.json.command_done zero_command_done (verdict_message env.json p) ≡ some p
    → read_reports env (arriving clock (ms ++ verdict_message env.json p ∷ []))
      ≡ read_reports env (arriving clock ms) ++ finished (clock (length ms)) p ∷ []
unfolding read_reports read_report new_message
reports_end env clock ms p e =
    ap (read_reports env) (arriving-append clock ms (verdict_message env.json p))
    ∙ read_reports-append env (arriving clock ms)
        ((clock (length ms), verdict_message env.json p) ∷ [])
    ∙ rw e refl

-- The reports that end in a verdict, on their way to the tables.
delivered :
    (env : Env) (ms : List Message) (p : CommandDonePayload) (s : Server) (conn_id : Text)
    (clock : ℕ → Time) {conn : Connection} {d : Deployment}
    → All IsReport ms
    → get_connection s conn_id ≡ some conn
    → conn.closed ≡ false
    → get_deployment s.db p.command_id ≡ some d
    → decode env.json.command_done zero_command_done (verdict_message env.json p) ≡ some p
    → get_deployment
        (handle_messages env s conn_id (arriving clock (ms ++ verdict_message env.json p ∷ []))).db
        p.command_id
      ≡ some (finish (clock (length ms)) p d)
unfolding new_message
delivered env ms p s conn_id clock are here up known e =
    let m = verdict_message env.json p in
    let all =
      arriving-All clock (ms ++ m ∷ [])
        (All-append IsReport ms (m ∷ []) are (inr (inr (inr refl)), tt)) in
    ap (λ db. get_deployment db p.command_id)
      (handle_messages-reports env (arriving clock (ms ++ m ∷ [])) s conn_id here up all
        ∙ ap (apply_all s.db) (reports_end env clock ms p e))
    ∙ verdict_last (read_reports env (arriving clock ms)) [] (clock (length ms)) p s.db known tt

last_index : (ms : List Message) (m : Message) → length (ms ++ m ∷ []) - 1 ≡ length ms
last_index ms m = omega (arith, length-append ms (m ∷ []))

-- What an agent with an open socket writes for a command.
sent-told :
    {W : Type 0} (env : Env) (h : Host W) (now took : ℤ) (work_dir : Text) (cmd : CommandPayload)
    (a : Agent) (w : W)
    → a.socket_open ≡ true
    → drop (length a.sent) (handle_command env.json h now took work_dir cmd a w).0.sent
      ≡ told env.json h now took work_dir cmd w
        ++ verdict_message env.json (verdict h work_dir cmd w) ∷ []
sent-told env h now took work_dir cmd a w o =
    let ms = told env.json h now took work_dir cmd w in
    let m = verdict_message env.json (verdict h work_dir cmd w) in
    ap (drop (length a.sent)) (
      (handle_command-sent env.json h now took work_dir cmd a w o).0
      ∙ append_assoc a.sent ms (m ∷ []))
    ∙ drop-append_length a.sent (ms ++ m ∷ [])

-- A command that an agent with an open socket handles alone ends its deployment, when the server
-- handles what the agent sends for it, each message at a time of its own, on an open connection:
-- the deployment has the status and the output of the agent's verdict, and ends when that arrives.
-- The JSON must read the verdict back, and the server have the deployment; whether acknowledgement,
-- start and lines can be read does not matter.
pub deployment_ends :
    {W : Type 0} (env : Env) (h : Host W) (now took : ℤ) (work_dir : Text) (cmd : CommandPayload)
    (a : Agent) (w : W) (s : Server) (conn_id : Text) (clock : ℕ → Time) {conn : Connection}
    {d : Deployment}
    → a.socket_open ≡ true
    → get_connection s conn_id ≡ some conn
    → conn.closed ≡ false
    → get_deployment s.db cmd.id ≡ some d
    → decode env.json.command_done zero_command_done
        (verdict_message env.json (verdict h work_dir cmd w))
      ≡ some (verdict h work_dir cmd w)
    → let a' = (handle_command env.json h now took work_dir cmd a w).0 in
      let sent = drop (length a.sent) a'.sent in
      let s' = handle_messages env s conn_id (arriving clock sent) in
      get_deployment s'.db cmd.id
      ≡ some (finish (clock (length sent - 1)) (verdict h work_dir cmd w) d)
deployment_ends env h now took work_dir cmd a w s conn_id clock {conn} {d} o here up known e =
    let ms = told env.json h now took work_dir cmd w in
    let p = verdict h work_dir cmd w in
    let id = verdict-command_id h work_dir cmd w in
    let arrived =
      delivered env ms p s conn_id clock (told-All env h now took work_dir cmd w) here up
        (ap (get_deployment s.db) id ∙ known) e in
    subst
      (λ l.
        get_deployment (handle_messages env s conn_id (arriving clock l)).db cmd.id
        ≡ some (finish (clock (length l - 1)) p d))
      (sym (sent-told env h now took work_dir cmd a w o))
      (ap (get_deployment _) (sym id)
        ∙ arrived
        ∙ ap (λ n. some (finish (clock n) p d)) (sym (last_index ms (verdict_message env.json p))))
