-- ===== src/Delivery/Streaming.antt =====
-- The lines of a container from the agent (internal/agent/daemon/daemon.go) over the server
-- (internal/tcp/server.go) and the channel of internal/tui/model.go to the view of
-- internal/tui/views/container_logs.go.
use mathlib.Core.List.{append-nil, append_assoc}
use uruflow.Prelude.{
  ltb, eqb, ◌≡◌, refl, sym, ap, ◌∙◌, subst, ℕ, suc, ◌+◌, ◌-◌, ◌≤◌, true, false, List, [], ◌∷◌, ◌++◌,
  map, none, some, Text, All, arith, length, drop, drop-append_length, length-append, eqb_self,
  if◌then◌else◌,
}
use uruflow.Prelude.Int.{ℤ}
use uruflow.Models.{Time}
use uruflow.Protocol.{Message}
use uruflow.Protocol.MessageType
use uruflow.Protocol.Payloads.{Json, ContainerLogsDataPayload, new_message, decode, zero_logs_data}
use uruflow.Server.{Connection, Server, Env, Callback, container_log, call}
use uruflow.Server.Connections.{get_connection}
use uruflow.Server.Dispatch.{process_message, handle_messages}
use uruflow.Server.Dispatch.Reports.{handle_messages_cons}
use uruflow.Agent.Daemon.{Agent, safe_write}
use uruflow.Agent.Daemon.Tasks.{payload_of_line, emit_line, emit_lines}
use uruflow.Agent.Daemon.Verdict.{Wrote, safe_write-Wrote}
use uruflow.Tui.Run.{every}
use uruflow.Tui.Channel.{offered}
use uruflow.Tui.Logs.{LogRow}
use uruflow.Tui.ContainerLogs.{ContainerLogsModel, log_line, row_of, set_container}
use uruflow.Tui.ContainerLogs.Buffer.{keep_last}
use uruflow.Tui.ContainerLogs.Running.{after, lines_for, is_quiet, buffer_lem}
use uruflow.Delivery.{arriving}

-- The messages for lines of a container.
abbrev line_message : Json → ℤ → Text → Text → Message
line_message json now id line =
    new_message json.logs_data MessageType.container_logs_data (payload_of_line now id line)

emit_lines-Wrote :
    (json : Json) (now : ℤ) (id : Text) (lines : List Text) (a : Agent) {ms : List Message}
    → Wrote a ms
    → Wrote (emit_lines json now a id lines) (ms ++ map (line_message json now id) lines)
unfolding emit_lines emit_line
emit_lines-Wrote json now id [] a {ms} (o, e) = (o, e ∙ sym (append-nil ms))
emit_lines-Wrote json now id (line ∷ lines) a {ms} wrote =
    let m = line_message json now id line in
    subst (Wrote (emit_lines json now (safe_write a m) id lines))
      (append_assoc ms (m ∷ []) (map (line_message json now id) lines))
      (emit_lines-Wrote json now id lines (safe_write a m) (safe_write-Wrote a m wrote))

-- JSON gives back the payload of a line.
abbrev pub ReadsLine : Json → ℤ → Text → Text → Type 0
ReadsLine json now id line =
    decode json.logs_data zero_logs_data (line_message json now id line)
    ≡ some (payload_of_line now id line)

abbrev with_call : Server → Callback → Server
with_call s c = record s { calls = s.calls ++ c ∷ [] }

line_called :
    (env : Env) (at : Time) (now : ℤ) (s : Server) (conn : Connection) (id line : Text)
    → s.has_on_container_log ≡ true
    → ReadsLine env.json now id line
    → process_message env at s conn (line_message env.json now id line)
      ≡ with_call s (container_log conn.agent_id (payload_of_line now id line))
unfolding process_message new_message
line_called env at now s conn id line set reads =
    ap
      (λ o. elim o [
        | none ↦ s
        | some p ↦ call s.has_on_container_log (container_log conn.agent_id p) s
      ])
      reads
    ∙ ap
        (λ b.
          if b then with_call s (container_log conn.agent_id (payload_of_line now id line)) else s)
        set

abbrev call_of : Text → ℤ → Text → Text → Callback
call_of agent_id now id line = container_log agent_id (payload_of_line now id line)

lines_called :
    (env : Env) (clock : ℕ → Time) (now : ℤ) (id : Text) (lines : List Text) (s : Server)
    (conn_id : Text) {conn : Connection}
    → get_connection s conn_id ≡ some conn
    → conn.closed ≡ false
    → s.has_on_container_log ≡ true
    → All (ReadsLine env.json now id) lines
    → (handle_messages env s conn_id
        (arriving clock (map (line_message env.json now id) lines))).calls
      ≡ s.calls ++ map (call_of conn.agent_id now id) lines
unfolding handle_messages arriving get_connection
lines_called env clock now id [] s conn_id here up set reads = sym (append-nil s.calls)
lines_called env clock now id (line ∷ lines) s conn_id {conn} here up set reads =
    let c = call_of conn.agent_id now id line in
    let later = arriving (λ n. clock (suc n)) (map (line_message env.json now id) lines) in
    ap (λ t. t.calls)
      (handle_messages_cons env (clock 0) (line_message env.json now id line) later s conn_id here
          up
        ∙ ap (λ t. handle_messages env t conn_id later)
            (line_called env (clock 0) now s conn id line set reads.0))
    ∙ lines_called env (λ n. clock (suc n)) now id lines (with_call s c) conn_id here up set reads.1
    ∙ append_assoc s.calls (c ∷ []) (map (call_of conn.agent_id now id) lines)

lines_offered :
    (agent_id : Text) (now : ℤ) (id : Text) (lines : List Text)
    (queue : List ContainerLogsDataPayload)
    → length queue + length lines ≤ 100
    → offered queue (map (call_of agent_id now id) lines)
      ≡ queue ++ map (payload_of_line now id) lines
unfolding offered
lines_offered agent_id now id [] queue fits = sym (append-nil queue)
lines_offered agent_id now id (line ∷ lines) queue fits =
    let p = payload_of_line now id line in
    let room : ltb (length queue) 100 ≡ true = ground (arith, fits) in
    rw room (
      lines_offered agent_id now id lines (queue ++ p ∷ [])
        (omega (arith, fits, length-append queue (p ∷ [])))
      ∙ append_assoc queue (p ∷ []) (map (payload_of_line now id) lines))

payload-mine : (now : ℤ) (id line : Text) → eqb (payload_of_line now id line).container_id id ≡ true
unfolding payload_of_line
payload-mine now id line = ground (arith, eqb_self id)

lines_shown :
    (time_of_day : ℤ → Text) (now : ℤ) (id : Text) (lines : List Text)
    → lines_for time_of_day id (map log_line (map (payload_of_line now id) lines))
      ≡ map (λ line. row_of time_of_day (payload_of_line now id line)) lines
unfolding lines_for
lines_shown t now id [] = refl
lines_shown t now id (line ∷ lines) =
    rw (payload-mine now id line)
      (ap (◌∷◌ (row_of t (payload_of_line now id line))) (lines_shown t now id lines))

lines_quiet : (ps : List ContainerLogsDataPayload) → every is_quiet (map log_line ps) ≡ true
unfolding every
lines_quiet [] = refl
lines_quiet (p ∷ ps) = lines_quiet ps

length-map : {A B : Type 0} (f : A → B) (xs : List A) → length (map f xs) ≡ length xs
length-map f [] = refl
length-map f (x ∷ xs) = ap suc (length-map f xs)

drop-take_all : (rows : List LogRow) → length rows ≤ 100 → keep_last 2000 rows ≡ rows
drop-take_all rows few = ap (λ n. drop n rows) (none_over (length rows) few)
  where
    none_over : (n : ℕ) → n ≤ 100 → n - 2000 ≡ 0
    none_over n h = omega arith

-- At most a hundred lines of a container that an agent sends over its open connection, in one go, come
-- onto the screen in order and complete, as the lines that the view holds which has just opened the
-- log of a container of that name: where the server has the handler of the terminal, and JSON gives
-- back the payloads of the lines.
pub lines_arrive :
    (env : Env) (a : Agent) (s : Server) (conn_id : Text) (clock : ℕ → Time) (now : ℤ)
    (id name : Text) (lines : List Text) (time_of_day : ℤ → Text) (m : ContainerLogsModel)
    {conn : Connection}
    → a.socket_open ≡ true
    → get_connection s conn_id ≡ some conn
    → conn.closed ≡ false
    → s.has_on_container_log ≡ true
    → length lines ≤ 100
    → All (ReadsLine env.json now id) lines
    → let a' = emit_lines env.json now a id lines in
      let sent = drop (length a.sent) a'.sent in
      let s' = handle_messages env s conn_id (arriving clock sent) in
      let queue = offered [] (drop (length s.calls) s'.calls) in
      (m' : ContainerLogsModel) × (after time_of_day
          (set_container m id name).0
          (map log_line queue)
        ≡ some m')
      × (m'.logs ≡ map (λ line. row_of time_of_day (payload_of_line now id line)) lines)
unfolding set_container
lines_arrive env a s conn_id clock now id name lines t m {conn} open_socket here up set few reads =
    let messages = map (line_message env.json now id) lines in
    let (_, wrote) = emit_lines-Wrote env.json now id lines a (open_socket, refl) in
    let sent = ap (drop (length a.sent)) wrote ∙ drop-append_length a.sent messages in
    let called = lines_called env clock now id lines s conn_id here up set reads in
    let calls = map (call_of conn.agent_id now id) lines in
    let ps = map (payload_of_line now id) lines in
    let queue =
      ap
        (λ ms.
          offered []
            (drop (length s.calls) (handle_messages env s conn_id (arriving clock ms)).calls))
        sent
      ∙ ap (λ cs. offered [] (drop (length s.calls) cs)) called
      ∙ ap (offered []) (drop-append_length s.calls calls)
      ∙ lines_offered conn.agent_id now id lines [] (omega (arith, few)) in
    let opened = (set_container m id name).0 in
    let (m', ran, kept) =
      buffer_lem t opened (map log_line ps) refl (omega arith) (lines_quiet ps) in
    (
      m',
      ap (λ q. after t opened (map log_line q)) queue ∙ ran,
      kept
          ∙ ap (keep_last 2000) (lines_shown t now id lines)
          ∙ drop-take_all (map (λ line. row_of t (payload_of_line now id line)) lines) (
              omega
                (arith, few, length-map (λ line. row_of t (payload_of_line now id line)) lines)),
    )
