-- ===== src/Agent/Daemon/Verdict.antt =====
-- What an agent sends for a command (`handleCommand` of internal/agent/daemon/daemon.go).
use mathlib.Core.List.{append-nil, append_assoc}
use uruflow.Prelude.{
  ◌≡◌, refl, sym, ap, ◌∙◌, subst, Bool, true, false, List, [], ◌∷◌, ◌++◌, map, Option, none, some,
  Text, bytes, arith, eqb, if◌then◌else◌,
}
use uruflow.Prelude.Int.{ℤ, pos}
use uruflow.Protocol.{Message}
use uruflow.Protocol.MessageType
use uruflow.Protocol.Payloads.{Json, CommandPayload, CommandDonePayload, new_message}
use uruflow.Agent.Deploy.{Host, LogLine, execute}
use uruflow.Agent.Deploy.Plan.{reference, execute-reference}
use uruflow.Agent.Daemon.{Agent, safe_write}
use uruflow.Agent.Daemon.Tasks.{
  done_message, send_command_done, config_of, start_message, begin_deploy, log_message, emit_log,
  emit_logs, end_deploy, handle_deploy, ack_message, handle_command,
}

-- The verdict on a deployment, of its error.
abbrev pub verdict_on : Text → Option Text → CommandDonePayload
verdict_on id none = record {
  command_id = id;
  status = bytes "success";
  exit_code = pos 0;
  duration = pos 0;
  output = [];
}
verdict_on id (some e) = record {
  command_id = id;
  status = bytes "failed";
  exit_code = pos 1;
  duration = pos 0;
  output = e;
}

abbrev pub is_deploy : CommandPayload → Bool
is_deploy cmd = eqb cmd.type (bytes "deploy")

abbrev pub verdict_message : Json → CommandDonePayload → Message
verdict_message json p = new_message json.command_done MessageType.command_done p

-- An open socket, and what was written to it.
abbrev pub Wrote : Agent → List Message → Type 0
Wrote a ms = (a.socket_open ≡ true) × (a.sent ≡ ms)

pub safe_write-Wrote :
    (a : Agent) (m : Message) {ms : List Message}
    → Wrote a ms
    → Wrote (safe_write a m) (ms ++ m ∷ [])
unfolding safe_write
safe_write-Wrote a m {ms} (o, e) = rw (safe_write, o) (refl, ap (◌++ (m ∷ [])) e)

pub safe_write-log_target : (a : Agent) (m : Message) → (safe_write a m).log_target ≡ a.log_target
unfolding safe_write
safe_write-log_target a m = ground arith

pub emit_log_target :
    (json : Json) (now : ℤ) (a : Agent) (l : LogLine) {id : Text}
    → a.log_target ≡ some id
    → emit_log json now a l ≡ safe_write a (log_message json now id l)
unfolding emit_log
emit_log_target json now a l e =
    ap (λ o. elim o [ none ↦ a | some id ↦ safe_write a (log_message json now id l) ]) e

emit_logs-Wrote :
    (json : Json) (now : ℤ) (id : Text) (ls : List LogLine) (a : Agent) {ms : List Message}
    → Wrote a ms
    → a.log_target ≡ some id
    → Wrote (emit_logs json now a ls) (ms ++ map (log_message json now id) ls)
unfolding emit_logs
emit_logs-Wrote json now id [] a {ms} (o, s) e = (o, s ∙ sym (append-nil ms))
emit_logs-Wrote json now id (l ∷ ls) a {ms} h e =
    let m = log_message json now id l in
    let later =
      emit_logs-Wrote json now id ls (safe_write a m) (safe_write-Wrote a m h)
        (safe_write-log_target a m ∙ e) in
    subst (λ b. Wrote (emit_logs json now b ls) (ms ++ map (log_message json now id) (l ∷ ls)))
      (sym (emit_log_target json now a l e))
      (subst (Wrote (emit_logs json now (safe_write a m) ls))
        (append_assoc ms (m ∷ []) (map (log_message json now id) ls)) later)

-- What is sent before the verdict.
unfoldable pub told :
    {W : Type 0} → Json → Host W → ℤ → ℤ → Text → CommandPayload → W → List Message
told json h now took work_dir cmd w =
    let lines = (execute h took work_dir (config_of cmd.payload) w).0.lines in
    let reports = start_message json now cmd.id ∷ map (log_message json now cmd.id) lines in
    ack_message json cmd.id ∷ (if is_deploy cmd then reports else [])

-- The verdict: the error of the deployment's plan, or that the command is not known.
unfoldable pub verdict : {W : Type 0} → Host W → Text → CommandPayload → W → CommandDonePayload
verdict h work_dir cmd w =
    if is_deploy cmd
    then verdict_on cmd.id (reference h work_dir (config_of cmd.payload) w).1
    else verdict_on cmd.id (some (bytes "unknown command type: " ++ cmd.type))

end_deploy-Wrote :
    (json : Json) (a : Agent) (id : Text) (e : Option Text) {ms : List Message}
    → Wrote a ms
    → (end_deploy json a id e).sent ≡ ms ++ verdict_message json (verdict_on id e) ∷ []
unfolding end_deploy send_command_done
end_deploy-Wrote json a id none h = (safe_write-Wrote a _ h).1
end_deploy-Wrote json a id (some e) h = (safe_write-Wrote a _ h).1

handle_deploy-Wrote :
    {W : Type 0} (json : Json) (h : Host W) (now took : ℤ) (work_dir : Text) (cmd : CommandPayload)
    (a : Agent) (w : W) {ms : List Message}
    → Wrote a ms
    → let cfg = config_of cmd.payload in
      let lines = (execute h took work_dir cfg w).0.lines in
      let (a', w') = handle_deploy json h now took work_dir cmd a w in
      (a'.sent
        ≡ (ms ++ start_message json now cmd.id ∷ map (log_message json now cmd.id) lines)
          ++ verdict_message json (verdict_on cmd.id (reference h work_dir cfg w).1) ∷ [])
      × (w' ≡ (reference h work_dir cfg w).0)
unfolding handle_deploy begin_deploy
handle_deploy-Wrote json h now took work_dir cmd a w {ms} wrote =
    let cfg = config_of cmd.payload in
    let (r, result) = execute h took work_dir cfg w in
    let (world, error, success) = execute-reference h took work_dir cfg w in
    let start = start_message json now cmd.id in
    let logs = map (log_message json now cmd.id) r.lines in
    let begun = begin_deploy json now a cmd.id in
    let after =
      emit_logs-Wrote json now cmd.id r.lines begun (safe_write-Wrote a start wrote) refl in
    (
      end_deploy-Wrote json (emit_logs json now begun r.lines) cmd.id result.error after
          ∙ ap
              (λ e. ((ms ++ start ∷ []) ++ logs) ++ verdict_message json (verdict_on cmd.id e) ∷ [])
              error
          ∙ ap
              (λ t.
                t ++ verdict_message json (verdict_on cmd.id (reference h work_dir cfg w).1) ∷ [])
              (append_assoc ms (start ∷ []) logs),
      world,
    )

branches :
    {W : Type 0} (b : Bool) (p q : Agent × W) (ms : List Message) (m : Message)
    (reports : List Message) (f : CommandDonePayload → Message) (x y : CommandDonePayload) {v w : W}
    → (p.0.sent ≡ ((ms ++ m ∷ []) ++ reports) ++ f x ∷ []) × (p.1 ≡ v)
    → (q.0.sent ≡ (ms ++ m ∷ []) ++ f y ∷ []) × (q.1 ≡ w)
    → ((if b then p else q).0.sent
        ≡ (ms ++ m ∷ (if b then reports else [])) ++ f (if b then x else y) ∷ [])
      × ((if b then p else q).1 ≡ (if b then v else w))
branches true p q ms m reports f x y (s, e) _ =
    (s ∙ ap (◌++ (f x ∷ [])) (append_assoc ms (m ∷ []) reports), e)
branches false p q ms m reports f x y _ h = h

-- On an open socket an agent answers a command with its receipt, then, for a deployment, the start and the lines that the run hands on, in their order, and last of all exactly one verdict: success if the plan of the deployment succeeds, and otherwise the error of the first of its commands that failed, or of the command's type. The machine is left as the plan leaves it, and a command of another type does not touch it.
pub handle_command-sent :
    {W : Type 0} (json : Json) (h : Host W) (now took : ℤ) (work_dir : Text) (cmd : CommandPayload)
    (a : Agent) (w : W)
    → a.socket_open ≡ true
    → let (a', w') = handle_command json h now took work_dir cmd a w in
      (a'.sent
        ≡ (a.sent ++ told json h now took work_dir cmd w)
          ++ verdict_message json (verdict h work_dir cmd w) ∷ [])
      × (w' ≡ (if is_deploy cmd then (reference h work_dir (config_of cmd.payload) w).0 else w))
unfolding handle_command told verdict handle_deploy begin_deploy send_command_done
handle_command-sent json h now took work_dir cmd a w o =
    let acked = safe_write a (ack_message json cmd.id) in
    let wrote = safe_write-Wrote a (ack_message json cmd.id) (o, refl) in
    let lines = (execute h took work_dir (config_of cmd.payload) w).0.lines in
    let reports = start_message json now cmd.id ∷ map (log_message json now cmd.id) lines in
    let unknown = bytes "unknown command type: " ++ cmd.type in
    let (said, left) = handle_deploy-Wrote json h now took work_dir cmd acked w wrote in
    branches (is_deploy cmd) (handle_deploy json h now took work_dir cmd acked w)
      (send_command_done json acked cmd.id (bytes "failed") 1 unknown, w) a.sent
      (ack_message json cmd.id) reports (verdict_message json)
      (verdict_on cmd.id (reference h work_dir (config_of cmd.payload) w).1)
      (verdict_on cmd.id (some unknown)) (said, left)
      ((safe_write-Wrote acked (done_message json cmd.id (bytes "failed") 1 unknown) wrote).1, refl)
