-- ===== src/Server/Sessions/Effects.antt =====
-- What the handlers of internal/tcp/server.go do to the map and to the connection objects.
use uruflow.Prelude.{
  ◌≡◌, refl, sym, ap, ◌∙◌, Bool, true, false, List, [], ◌∷◌, Option, none, some, Text, arith, ◌==◌,
  Bool-cases, Option-cases, inl, inr, if◌then◌else◌,
}
use uruflow.Prelude.Maps.{lookup}
use uruflow.Models.{Time, Alert}
use uruflow.Protocol.{Message}
use uruflow.Protocol.Payloads.{
  SystemMetrics, MetricsPayload, ContainerStatus, bare, decode, zero_metrics, zero_logs_data,
  ContainerLogsDataPayload, AuthPayload, zero_auth,
}
use uruflow.Alerts.{check_cpu, check_memory, check_disk}
use uruflow.Storage.Alerts.{get_active_alerts}
use uruflow.Protocol.MessageType
use uruflow.Server.{Connection, Server, Env, with_db, call, next_id, container_log}
use uruflow.Server.Connections.{get_connection, send, close, update_ping, modify, set_agent}
use uruflow.Server.Registry.Liveness.{
  is_open, is_open-close, is_open-send, get_connection-modify, Serves,
}
use uruflow.Server.Metrics.{
  AlertMap, fill_map, create_if_not_exists, report_container, report_containers, check_system,
  update_alerts, store_metrics, handle_report, handle_metrics,
}
use uruflow.Server.Commands.{
  handle_command_ack, handle_command_start, handle_command_log, handle_command_done, command_log,
}
use uruflow.Config.{AgentConfig, get_agent_by_token}
use uruflow.Server.Auth.{authenticate, accept, check_token, check_payload, record_login}
use uruflow.Server.Dispatch.{process_message}

-- The map is as it was, and no object was opened.
pub record Keeps (s s' : Server) : Type 0 where
  pub same_registry : s'.registry ≡ s.registry
  pub none_opened : (c : Text) → is_open s' c ≡ true → is_open s c ≡ true

pub Keeps-Serves : {s s' : Server} (c a : Text) → Keeps s s' → Serves s c a → Serves s' c a
Keeps-Serves c a k h o = ap (lookup a) k.same_registry ∙ h (k.none_opened c o)

pub Keeps-refl : (s : Server) → Keeps s s
Keeps-refl s = record { same_registry = refl; none_opened = λ c o. o }

pub Keeps-trans : {s t u : Server} → Keeps s t → Keeps t u → Keeps s u
Keeps-trans k l = record {
  same_registry = l.same_registry ∙ k.same_registry;
  none_opened = λ c o. k.none_opened c (l.none_opened c o);
}

-- The map and the objects are untouched.
abbrev SameNet : Server → Server → Type 0
SameNet s s' = (s'.registry ≡ s.registry) × (s'.conns ≡ s.conns)

pub SameNet-Keeps : (s s' : Server) → SameNet s s' → Keeps s s'
unfolding is_open get_connection
SameNet-Keeps s s' n = record { same_registry = n.0; none_opened = λ c o. ground (arith, n.1, o) }

create_if_not_exists-SameNet :
    (s : Server) (m : AlertMap) (a : Option Alert) → SameNet s (create_if_not_exists (s, m) a).0
unfolding create_if_not_exists
create_if_not_exists-SameNet s m none = (refl, refl)
create_if_not_exists-SameNet s m (some a) = ground arith

report_container-SameNet :
    (env : Env) (now : Time) (conn : Connection) (s : Server) (m : AlertMap) (c : ContainerStatus)
    → SameNet s (report_container env now conn (s, m) c).0
unfolding report_container
report_container-SameNet env now conn s m c = ground arith

report_containers-SameNet :
    (env : Env) (now : Time) (conn : Connection) (s : Server) (m : AlertMap)
    (cs : List ContainerStatus)
    → SameNet s (report_containers env now conn (s, m) cs).0
unfolding report_containers
report_containers-SameNet env now conn s m [] = (refl, refl)
report_containers-SameNet env now conn s m (c ∷ cs) =
    let (s', m') = report_container env now conn (s, m) c in
    let one = report_container-SameNet env now conn s m c in
    let rest = report_containers-SameNet env now conn s' m' cs in (rest.0 ∙ one.0, rest.1 ∙ one.1)

check_system-SameNet :
    (env : Env) (now : Time) (conn : Connection) (p : SystemMetrics) (s : Server) (m : AlertMap)
    → SameNet s (check_system env now conn p (s, m)).0
unfolding check_system
check_system-SameNet env now conn p s m =
    let cpu_alert = check_cpu (next_id env s) now conn.agent_id conn.agent_name p.cpu_percent in
    let cpu = create_if_not_exists (s, m) cpu_alert in
    let memory_alert =
      check_memory (next_id env cpu.0) now conn.agent_id conn.agent_name p.memory_percent in
    let memory = create_if_not_exists cpu memory_alert in
    let disk_alert =
      check_disk (next_id env memory.0) now conn.agent_id conn.agent_name p.disk_percent in
    let i = create_if_not_exists-SameNet s m cpu_alert in
    let j = create_if_not_exists-SameNet cpu.0 cpu.1 memory_alert in
    let k = create_if_not_exists-SameNet memory.0 memory.1 disk_alert in
    (k.0 ∙ j.0 ∙ i.0, k.1 ∙ j.1 ∙ i.1)

update_alerts-SameNet :
    (env : Env) (now : Time) (conn : Connection) (p : MetricsPayload) (s : Server)
    → SameNet s (update_alerts env now conn p s)
unfolding update_alerts
update_alerts-SameNet env now conn p s =
    let m = fill_map conn.agent_id (get_active_alerts s.db) [] in
    let containers = report_containers env now conn (s, m) p.containers in
    let i = report_containers-SameNet env now conn s m p.containers in
    let j = check_system-SameNet env now conn p.system containers.0 containers.1 in
    (j.0 ∙ i.0, j.1 ∙ i.1)

store_metrics-SameNet :
    (now : Time) (conn : Connection) (p : MetricsPayload) (s : Server)
    → SameNet s (store_metrics now conn p s)
unfolding store_metrics
store_metrics-SameNet now conn p s = ground arith

pub send-Keeps : (s : Server) (c : Text) (msg : Message) → Keeps s (send s c msg).0
unfolding send modify
send-Keeps s c msg = record {
  same_registry = ground arith;
  none_opened = λ d o. sym (is_open-send s c d msg) ∙ o;
}

pub close-Keeps : (s : Server) (c : Text) → Keeps s (close s c)
unfolding close modify
close-Keeps s c = record {
  same_registry = refl;
  none_opened = λ d o. ground (arith, is_open-close s c d, o);
}

handle_report-Keeps :
    (env : Env) (now : Time) (s : Server) (conn : Connection) (report : Option MetricsPayload)
    → Keeps s (handle_report env now s conn report)
unfolding handle_report
handle_report-Keeps env now s conn none = Keeps-refl s
handle_report-Keeps env now s conn (some p) =
    let stored = store_metrics now conn p s in
    let updated = update_alerts env now conn p stored in
    Keeps-trans (SameNet-Keeps s stored (store_metrics-SameNet now conn p s)) (
      Keeps-trans (SameNet-Keeps stored updated (update_alerts-SameNet env now conn p stored))
        (send-Keeps updated conn.id (bare MessageType.metrics_ack)))

-- A change that keeps every object's id, and closes or opens none.
modify-Keeps :
    (s : Server) (c : Text) (f : Connection → Connection)
    → ((x : Connection) → (f x).id ≡ x.id)
    → ((x : Connection) → (f x).closed ≡ x.closed)
    → Keeps s (modify s c f)
unfolding is_open modify
modify-Keeps s c f h k = record {
  same_registry = refl;
  none_opened = λ d o. elim (Option-cases (get_connection s d)) [
    | inl e ↦ ground (arith, get_connection-modify s c d f h, e, o)
    | inr (x, e) ↦ ground (arith, get_connection-modify s c d f h, e, o, k x)
  ];
}

update_ping-Keeps : (s : Server) (now : Time) (c : Text) → Keeps s (update_ping s now c)
unfolding update_ping
update_ping-Keeps s now c =
    modify-Keeps s c (λ x. record x { last_ping = now }) (λ x. refl) (λ x. refl)

handler-SameNet :
    (env : Env) (now : Time) (s : Server) (conn : Connection) (msg : Message)
    → SameNet s (handle_command_ack env s msg)
      × SameNet s (handle_command_start env s msg)
      × SameNet s (handle_command_log env s conn msg)
      × SameNet s (handle_command_done env now s msg)
unfolding handle_command_ack handle_command_start handle_command_log handle_command_done command_log
handler-SameNet env now s conn msg = ground arith

hand_on-Keeps :
    (conn : Connection) (s : Server) (line : Option ContainerLogsDataPayload)
    → Keeps s (elim line [
      | none ↦ s
      | some x ↦ call s.has_on_container_log (container_log conn.agent_id x) s
    ])
hand_on-Keeps conn s none = Keeps-refl s
hand_on-Keeps conn s (some x) = SameNet-Keeps s _ (ground arith, ground arith)

if-Keeps : {s t u : Server} (b : Bool) → Keeps s t → Keeps s u → Keeps s (if b then t else u)
if-Keeps true k l = k
if-Keeps false k l = l

-- Handling a message leaves the map alone and opens no object: only `close`, for a disconnect,
-- changes what is open.
pub process_message-Keeps :
    (env : Env) (now : Time) (s : Server) (conn : Connection) (msg : Message)
    → Keeps s (process_message env now s conn msg)
unfolding process_message handle_metrics
process_message-Keeps env now s conn msg =
    let (ack, start, log, done) = handler-SameNet env now s conn msg in
    let report = decode env.json.metrics zero_metrics msg in
    let line = decode env.json.logs_data zero_logs_data msg in
    let keeps = SameNet-Keeps s in
    if-Keeps (msg.type == MessageType.metrics) (handle_report-Keeps env now s conn report) (
      if-Keeps (msg.type == MessageType.command_ack) (keeps _ ack) (
        if-Keeps (msg.type == MessageType.command_start) (keeps _ start) (
          if-Keeps (msg.type == MessageType.command_log) (keeps _ log) (
            if-Keeps (msg.type == MessageType.command_done) (keeps _ done) (
              if-Keeps (msg.type == MessageType.pong) (update_ping-Keeps s now conn.id) (
                if-Keeps (msg.type == MessageType.disconnect) (close-Keeps s conn.id) (
                  if-Keeps (msg.type == MessageType.container_logs_data) (hand_on-Keeps conn s line)
                    (Keeps-refl s))))))))

accept-Keeps :
    (env : Env) (now : Time) (s : Server) (conn : Connection) (cfg : AgentConfig)
    (auth : AuthPayload)
    → Keeps s (accept env now s conn cfg auth).0
unfolding accept set_agent
accept-Keeps env now s conn cfg auth =
    let recorded = with_db s (record_login now conn.host cfg auth s.db) in
    let named = set_agent recorded conn.id cfg.id cfg.name in
    let ids = λ (x : Connection). record x { agent_id = cfg.id; agent_name = cfg.name } in
    Keeps-trans (SameNet-Keeps s recorded (refl, refl)) (
      Keeps-trans (modify-Keeps recorded conn.id ids (λ x. refl) (λ x. refl))
        (send-Keeps named conn.id _))

check_token-Keeps :
    (env : Env) (now : Time) (s : Server) (conn : Connection) (auth : AuthPayload)
    (found : Option AgentConfig)
    → Keeps s (check_token env now s conn auth found).0
unfolding check_token
check_token-Keeps env now s conn auth none = send-Keeps s conn.id _
check_token-Keeps env now s conn auth (some cfg) = accept-Keeps env now s conn cfg auth

check_payload-Keeps :
    (env : Env) (now : Time) (s : Server) (conn : Connection) (payload : Option AuthPayload)
    → Keeps s (check_payload env now s conn payload).0
unfolding check_payload
check_payload-Keeps env now s conn none = send-Keeps s conn.id _
check_payload-Keeps env now s conn (some auth) =
    check_token-Keeps env now s conn auth (get_agent_by_token s.config auth.token)

-- A login, whatever its outcome, leaves the map alone and opens no object.
pub authenticate-Keeps :
    (env : Env) (now : Time) (s : Server) (conn : Connection) (first : Option Message)
    → Keeps s (authenticate env now s conn first).0
unfolding authenticate
authenticate-Keeps env now s conn none = Keeps-refl s
authenticate-Keeps env now s conn (some msg) =
    let payload = decode env.json.auth zero_auth msg in
    elim (Bool-cases (msg.type == MessageType.auth)) [
      | inl e ↦ rw (e) (check_payload-Keeps env now s conn payload)
      | inr e ↦ rw (e) (send-Keeps s conn.id _)
    ]
