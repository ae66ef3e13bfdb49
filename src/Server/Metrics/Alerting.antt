-- ===== src/Server/Metrics/Alerting.antt =====
-- The alerts after `handleMetrics` of internal/tcp/server.go: no message twice.
pub mod Changes
pub mod Filling
use uruflow.Prelude.{
  ◌+◌, ◌≤◌, ◌≡◌, ◌⊎◌, refl, sym, ap, ◌∙◌, subst, Bool, true, false, not, ◌&&◌, List, [], ◌∷◌, ◌++◌,
  Option, none, some, Text, bytes, arith, count, filter, update_where, any, key_is, eqb, eqb_iff,
  eqb_self, Bool-cases, Option-cases, inl, inr, if◌then◌else◌,
}
use uruflow.Prelude.Sort.{count-sort_by}
use uruflow.Prelude.Maps.{lookup, insert, delete, lookup-insert, lookup-delete}
use uruflow.Models.{Time, Alert, Container}
use uruflow.Alerts.{
  new_alert, check_cpu, check_memory, check_disk, check_container_down, down_message,
}
use uruflow.Protocol.Payloads.{SystemMetrics, ContainerStatus, MetricsPayload}
use uruflow.Storage.Integrity.{IsValid, resolves_alert, execute}
use uruflow.Storage.Integrity.Statements.{create_alert-IsValid, upsert_container-IsValid}
use uruflow.Storage.Integrity.Execution.{execute-IsValid}
use uruflow.Storage.{Db, has_agent}
use uruflow.Storage.Alerts
use uruflow.Storage.Alerts.{create_alert, resolve_alert, get_active_alerts}
use uruflow.Storage.Containers.{upsert_container}
use uruflow.Server.{Connection, Server, Env, with_db, next_id, drawn}
use uruflow.Server.Metrics.{
  container_row, is_coming_up, AlertMap, fill_map, store_alert, create_if_not_exists, resolve_down,
  raise_down, report_container, report_containers, check_system, update_alerts,
}
use uruflow.Server.Metrics.Alerting.Changes.{
  active, active_but, Covered, Covers, count_but, store_alert-Covers, resolve_found-Covers,
}
use uruflow.Server.Metrics.Alerting.Filling.{
  fill_map-Covered, count_split, Covered-query, count-get_active_alerts,
}

-- The map has the only active alert of each message, and the tables are valid.
abbrev Good : Text → Server × AlertMap → Type 0
Good agent_id sm = Covers agent_id sm.0.db.alerts sm.1 × IsValid sm.0.db

store_alert-Good :
    (agent_id : Text) (s : Server) (m : AlertMap) (al : Alert)
    → lookup al.message m ≡ none
    → Good agent_id (s, m)
    → Good agent_id (store_alert s m al)
unfolding store_alert
store_alert-Good agent_id s m al new good =
    (store_alert-Covers agent_id s m al new good.0, create_alert-IsValid s.db al good.1)

create_if_not_exists-Good :
    (agent_id : Text) (s : Server) (m : AlertMap) (alert : Option Alert)
    → Good agent_id (s, m)
    → Good agent_id (create_if_not_exists (s, m) alert)
unfolding create_if_not_exists
create_if_not_exists-Good agent_id s m none good = good
create_if_not_exists-Good agent_id s m (some al) good = elim (Option-cases (lookup al.message m)) [
  | inl new ↦ rw (create_if_not_exists, new) (store_alert-Good agent_id (drawn s) m al new good)
  | inr (old, e) ↦ rw (create_if_not_exists, e) good
]

resolve_down-Good :
    (now : Time) (agent_id text : Text) (s : Server) (m : AlertMap)
    → Good agent_id (s, m)
    → Good agent_id (resolve_down now text (s, m))
unfolding resolve_down execute
resolve_down-Good now agent_id text s m good = elim (Option-cases (lookup text m)) [
  | inl e ↦ rw (resolve_down, e) good
  | inr (al, e) ↦
      rw (resolve_down, e)
        (
          resolve_found-Covers now agent_id s m text al e good.0,
          execute-IsValid s.db (resolves_alert now al.id) good.1,
        )
]

raise_down-Good :
    (env : Env) (now : Time) (conn : Connection) (agent_id name : Text) (s : Server) (m : AlertMap)
    → Good agent_id (s, m)
    → Good agent_id (raise_down env now conn name (s, m))
unfolding raise_down check_container_down new_alert
raise_down-Good env now conn agent_id name s m good =
    let al = check_container_down (next_id env s) now conn.agent_id conn.agent_name name in
    elim (Option-cases (lookup (down_message name) m)) [
      | inl new ↦ rw (raise_down, new) (store_alert-Good agent_id (drawn s) m al new good)
      | inr (old, e) ↦ rw (raise_down, e) good
    ]

upsert_container-alerts : (db : Db) (c : Container) → (upsert_container db c).0.alerts ≡ db.alerts
unfolding upsert_container
upsert_container-alerts db c = ground arith

upsert-Good :
    (agent_id : Text) (s : Server) (m : AlertMap) (c : Container)
    → Good agent_id (s, m)
    → Good agent_id (with_db s (upsert_container s.db c).0, m)
upsert-Good agent_id s m c good = (
  subst (λ xs. Covers agent_id xs m) (sym (upsert_container-alerts s.db c)) good.0,
  upsert_container-IsValid s.db c good.1,
)

report_container-Good :
    (env : Env) (now : Time) (conn : Connection) (agent_id : Text) (s : Server) (m : AlertMap)
    (c : ContainerStatus)
    → Good agent_id (s, m)
    → Good agent_id (report_container env now conn (s, m) c)
unfolding report_container
report_container-Good env now conn agent_id s m c good =
    let row = container_row conn.agent_id c in
    let s' = with_db s (upsert_container s.db row).0 in
    let stored = upsert-Good agent_id s m row good in
    elim (Bool-cases (eqb c.status (bytes "running"))) [
      | inl e ↦
          rw (report_container, e)
            (resolve_down-Good now agent_id (down_message c.name) s' m stored)
      | inr e ↦ elim (Bool-cases (is_coming_up c.status)) [
        | inl f ↦ rw (report_container, e, f) stored
        | inr f ↦
            rw (report_container, e, f) (raise_down-Good env now conn agent_id c.name s' m stored)
      ]
    ]

report_containers-Good :
    (env : Env) (now : Time) (conn : Connection) (agent_id : Text) (s : Server) (m : AlertMap)
    (cs : List ContainerStatus)
    → Good agent_id (s, m)
    → Good agent_id (report_containers env now conn (s, m) cs)
unfolding report_containers
report_containers-Good env now conn agent_id s m [] good = good
report_containers-Good env now conn agent_id s m (c ∷ cs) good =
    let (s', m') = report_container env now conn (s, m) c in
    report_containers-Good env now conn agent_id s' m' cs
      (report_container-Good env now conn agent_id s m c good)

check_system-Good :
    (env : Env) (now : Time) (conn : Connection) (p : SystemMetrics) (agent_id : Text) (s : Server)
    (m : AlertMap)
    → Good agent_id (s, m)
    → Good agent_id (check_system env now conn p (s, m))
unfolding check_system
check_system-Good env now conn p agent_id s m good =
    let cpu_alert = check_cpu (next_id env s) now conn.agent_id conn.agent_name p.cpu_percent in
    let cpu = create_if_not_exists (s, m) cpu_alert in
    let memory_alert =
      check_memory (next_id env cpu.0) now conn.agent_id conn.agent_name p.memory_percent in
    let memory = create_if_not_exists cpu memory_alert in
    let disk_alert =
      check_disk (next_id env memory.0) now conn.agent_id conn.agent_name p.disk_percent in
    create_if_not_exists-Good agent_id memory.0 memory.1 disk_alert (
      create_if_not_exists-Good agent_id cpu.0 cpu.1 memory_alert
        (create_if_not_exists-Good agent_id s m cpu_alert good))

-- No two unresolved alerts of the agent have one message.
abbrev pub AtMostOne : Text → Db → Type 0
AtMostOne agent_id db = (msg : Text) → count (active agent_id msg) db.alerts ≤ 1

Covered-count :
    (agent_id msg : Text) (db : Db) (o : Option Alert)
    → IsValid db
    → Covered agent_id db.alerts msg o
    → count (active agent_id msg) db.alerts ≤ 1
Covered-count agent_id msg db none v h = omega (arith, h)
Covered-count agent_id msg db (some al) v h =
    omega (arith, h, count_split agent_id msg al.id db.alerts, v.alert_ids al.id)

start-Good :
    (agent_id : Text) (s : Server)
    → IsValid s.db
    → AtMostOne agent_id s.db
    → Good agent_id (s, fill_map agent_id (get_active_alerts s.db) [])
unfolding lookup
start-Good agent_id s v one = (
  λ msg.
      Covered-query agent_id msg s.db (lookup msg (fill_map agent_id (get_active_alerts s.db) [])) (
        fill_map-Covered agent_id msg (get_active_alerts s.db) []
          (subst (λ n. n ≤ 1) (sym (count-get_active_alerts agent_id msg s.db)) (one msg)) refl),
  v,
)

-- A report of an agent never leaves two unresolved alerts of the agent with one message, where
-- the tables are valid and there were no two before: an alert is raised only where none with its
-- message is active, across the containers and the readings of the report.
pub update_alerts-AtMostOne :
    (env : Env) (now : Time) (conn : Connection) (p : MetricsPayload) (s : Server)
    → IsValid s.db
    → AtMostOne conn.agent_id s.db
    → AtMostOne conn.agent_id (update_alerts env now conn p s).db
unfolding update_alerts
update_alerts-AtMostOne env now conn p s v one msg =
    let agent_id = conn.agent_id in
    let m = fill_map agent_id (get_active_alerts s.db) [] in
    let (t, n) = report_containers env now conn (s, m) p.containers in
    let reported =
      report_containers-Good env now conn agent_id s m p.containers (start-Good agent_id s v one) in
    let checked = check_system-Good env now conn p.system agent_id t n reported in
    let (u, k) = check_system env now conn p.system (t, n) in
    Covered-count agent_id msg u.db (lookup msg k) checked.1 (checked.0 msg)
