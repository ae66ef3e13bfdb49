-- ===== src/Server/Dispatch/Reports.antt =====
-- What the message loop of internal/tcp/server.go makes of the reports of a command, up to the
-- tables.
use uruflow.Prelude.{
  ◌≡◌, ◌⊎◌, refl, sym, ap, ◌∙◌, ◌==◌, Bool, false, List, [], ◌∷◌, ◌++◌, Option, none, some, Text,
  All, Bool-cases, Option-cases, find, key_is, inl, inr, if◌then◌else◌,
}
use uruflow.Models.{Time}
use uruflow.Protocol.{Message}
use uruflow.Protocol.MessageType
use uruflow.Protocol.Payloads.{
  decode, zero_command_ack, zero_command_start, zero_command_log, zero_command_done,
}
use uruflow.Storage.{Db}
use uruflow.Server.{Connection, Server, Env}
use uruflow.Server.Connections.{get_connection}
use uruflow.Server.Commands.{
  handle_command_ack, handle_command_start, handle_command_log, handle_command_done, command_log,
}
use uruflow.Server.Commands.Lifecycle.{Report, acked, started, logged, finished, apply, apply_all}
use uruflow.Server.Dispatch.{process_message, handle_messages}

-- The four messages about a command.
abbrev pub IsReport : Message → Type 0
IsReport m =
    (m.type ≡ MessageType.command_ack)
    ⊎ (m.type ≡ MessageType.command_start)
    ⊎ (m.type ≡ MessageType.command_log)
    ⊎ (m.type ≡ MessageType.command_done)

abbrev one_of {ℓ} : {A : Type ℓ} → (A → Report) → Option A → List Report
one_of f none = []
one_of f (some p) = f p ∷ []

-- What is reported, if the payload can be read.
unfoldable pub read_report : Env → Time → Message → List Report
read_report env now m =
    if m.type == MessageType.command_ack
    then one_of acked (decode env.json.command_ack zero_command_ack m)
    else if m.type == MessageType.command_start
    then one_of started (decode env.json.command_start zero_command_start m)
    else if m.type == MessageType.command_log
    then one_of logged (decode env.json.command_log zero_command_log m)
    else if m.type == MessageType.command_done
    then one_of (finished now) (decode env.json.command_done zero_command_done m)
    else []

unfoldable pub read_reports : Env → List (Time × Message) → List Report
read_reports env [] = []
read_reports env ((now, m) ∷ later) = read_report env now m ++ read_reports env later

-- The reports reach the tables, and the connections stay as they are.
abbrev Applied : Server → Server → List Report → Type 0
Applied s t rs = (t.db ≡ apply_all s.db rs) × (t.conns ≡ s.conns)

command_log-Applied :
    (env : Env) (s : Server) (conn : Connection) (m : Message)
    → Applied s
        (handle_command_log env s conn m)
        (one_of logged (decode env.json.command_log zero_command_log m))
unfolding handle_command_log command_log apply_all apply
command_log-Applied env s conn m =
    elim (Option-cases (decode env.json.command_log zero_command_log m)) [
      | inl e ↦ rw (handle_command_log, e) (refl, refl)
      | inr (p, e) ↦ elim (Bool-cases s.has_on_log) [
        | inl c ↦ rw (handle_command_log, e, c) (refl, refl)
        | inr c ↦ rw (handle_command_log, e, c) (refl, refl)
      ]
    ]

process_message-Applied :
    (env : Env) (now : Time) (s : Server) (conn : Connection) (m : Message)
    → IsReport m
    → Applied s (process_message env now s conn m) (read_report env now m)
unfolding process_message read_report handle_command_ack handle_command_start handle_command_done
    handle_command_log decode apply_all apply
process_message-Applied env now s conn m (inl t) =
    rw (process_message, read_report, t)
      (elim (Option-cases (decode env.json.command_ack zero_command_ack m)) [
        | inl e ↦ rw (handle_command_ack, e) (refl, refl)
        | inr (p, e) ↦ rw (handle_command_ack, e) (refl, refl)
      ])
process_message-Applied env now s conn m (inr (inl t)) =
    rw (process_message, read_report, t)
      (elim (Option-cases (decode env.json.command_start zero_command_start m)) [
        | inl e ↦ rw (handle_command_start, e) (refl, refl)
        | inr (p, e) ↦ rw (handle_command_start, e) (refl, refl)
      ])
process_message-Applied env now s conn m (inr (inr (inl t))) =
    rw (process_message, read_report, t) (command_log-Applied env s conn m)
process_message-Applied env now s conn m (inr (inr (inr t))) =
    rw (process_message, read_report, t)
      (elim (Option-cases (decode env.json.command_done zero_command_done m)) [
        | inl e ↦ rw (handle_command_done, e) (refl, refl)
        | inr (p, e) ↦ rw (handle_command_done, e) (refl, refl)
      ])

apply_all-append :
    (rs ss : List Report) (db : Db) → apply_all db (rs ++ ss) ≡ apply_all (apply_all db rs) ss
unfolding apply_all
apply_all-append [] ss db = refl
apply_all-append (r ∷ rs) ss db = apply_all-append rs ss (apply db r)

if_false {ℓ} : {A : Type ℓ} (b : Bool) (x y : A) → b ≡ false → (if b then x else y) ≡ y
if_false b x y e = rw e refl

pub handle_messages_cons :
    (env : Env) (now : Time) (m : Message) (later : List (Time × Message)) (s : Server)
    (conn_id : Text) {conn : Connection}
    → get_connection s conn_id ≡ some conn
    → conn.closed ≡ false
    → handle_messages env s conn_id ((now, m) ∷ later)
      ≡ handle_messages env (process_message env now s conn m) conn_id later
unfolding handle_messages
handle_messages_cons env now m later s conn_id {conn} here up = rw (handle_messages, here)

-- On an open connection that brings only reports about commands, the message loop leaves the tables as the reports that can be read leave them, handled in their order.
pub handle_messages-reports :
    (env : Env) (arrivals : List (Time × Message)) (s : Server) (conn_id : Text) {conn : Connection}
    → get_connection s conn_id ≡ some conn
    → conn.closed ≡ false
    → All (λ e. IsReport e.1) arrivals
    → (handle_messages env s conn_id arrivals).db ≡ apply_all s.db (read_reports env arrivals)
unfolding handle_messages read_reports get_connection apply_all
handle_messages-reports env [] s conn_id here up are = refl
handle_messages-reports env ((now, m) ∷ later) s conn_id {conn} here up are =
    let (tables, conns) = process_message-Applied env now s conn m are.0 in
    ap (λ t. t.db) (handle_messages_cons env now m later s conn_id here up)
    ∙ handle_messages-reports env later (process_message env now s conn m) conn_id
        (ap (find (key_is (λ c. c.id) conn_id)) conns ∙ here) up are.1
    ∙ ap (λ db. apply_all db (read_reports env later)) tables
    ∙ sym (apply_all-append (read_report env now m) (read_reports env later) s.db)
