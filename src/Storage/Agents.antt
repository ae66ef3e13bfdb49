-- ===== src/Storage/Agents.antt =====
-- internal/storage/sqlite/agent.go
use mathlib.Core.Option
use uruflow.Prelude.{
  ◌*◌, ◌-◌, ◌^◌, ◌&&◌, Bool, ◌||◌, List, [], ◌∷◌, ◌++◌, Option, none, some, map, Text, any, find,
  filter, update_where, key_is, eqb, not, is_nil, if◌then◌else◌,
}
use uruflow.Prelude.Int.{pos, negsuc}
use uruflow.Prelude.Sort.{sort_by, before_text}
use uruflow.Models.{Time, Agent, AgentStatus, online, AgentMetrics, Repository, Deployment, Alert}
use uruflow.Models.Float.{float_zero}
use uruflow.Storage.{AgentRow, Db, StoreError, unique_violation, foreign_key_violation, has_agent}

-- The defaults of the metrics columns.
abbrev pub no_metrics : AgentMetrics
no_metrics = record {
  cpu_percent = float_zero;
  memory_percent = float_zero;
  memory_used = 0;
  memory_total = 0;
  disk_percent = float_zero;
  disk_used = 0;
  disk_total = 0;
  load_avg = [];
  uptime = pos 0;
}

abbrev pub agent_row : Time → Agent → AgentRow
agent_row now a = record {
  id = a.id;
  name = a.name;
  token = a.token;
  host = a.host;
  hostname = a.hostname;
  version = a.version;
  status = a.status;
  metrics = no_metrics;
  last_heartbeat = a.last_heartbeat;
  created_at = now;
}

unfoldable pub create_agent : Db → Time → Agent → Db × Option StoreError
create_agent db now a =
    if has_agent db a.id || any (key_is (λ (r : AgentRow). r.name) a.name) db.agents
    then (db, some unique_violation)
    else (record db { agents = db.agents ++ agent_row now a ∷ [] }, none)

-- COALESCE(NULLIF(new, ''), old)
abbrev coalesce : Text → Text → Text
coalesce new old = if is_nil new then old else new

unfoldable pub update_agent : Db → Agent → Db
update_agent db a = record db {
  agents =
      update_where (key_is (λ r. r.id) a.id)
        (λ r. record r {
          host = coalesce a.host r.host;
          hostname = coalesce a.hostname r.hostname;
          version = coalesce a.version r.version;
          status = a.status;
          last_heartbeat = a.last_heartbeat;
        })
        db.agents;
}

unfoldable pub update_agent_metrics : Db → Time → Text → AgentMetrics → Db
update_agent_metrics db now id m = record db {
  agents =
      update_where (key_is (λ r. r.id) id)
        (λ r. record r {
          metrics = record m { load_avg = [] };
          status = online;
          last_heartbeat = now;
        })
        db.agents;
}

unfoldable pub update_agent_status : Db → Time → Text → AgentStatus → Db
update_agent_status db now id status = record db {
  agents =
      update_where (key_is (λ r. r.id) id) (λ r. record r { status = status; last_heartbeat = now })
        db.agents;
}

-- The zero value of time.Time, 1 January of the year 1.
abbrev pub zero_time : Time
zero_time = negsuc (62135596800 * 10 ^ 9 - 1)

-- What the columns of a row are scanned into.
abbrev scan_agent : AgentRow → Agent
scan_agent r = record {
  id = r.id;
  name = r.name;
  token = r.token;
  host = r.host;
  hostname = r.hostname;
  version = r.version;
  status = r.status;
  last_heartbeat = r.last_heartbeat;
  metrics = some r.metrics;
  containers = [];
  registered_at = r.created_at;
}

unfoldable pub get_agent : Db → Text → Option Agent
get_agent db id = Option.map scan_agent (find (key_is (λ r. r.id) id) db.agents)

unfoldable pub get_agent_by_token : Db → Text → Option Agent
get_agent_by_token db token =
    Option.map
      (λ (r : AgentRow). record (scan_agent r) {
        metrics = none;
        last_heartbeat = zero_time;
        registered_at = zero_time;
      })
      (find (key_is (λ r. r.token) token) db.agents)

-- ORDER BY name
unfoldable pub get_all_agents : Db → List Agent
get_all_agents db = map scan_agent (sort_by (λ a b. before_text a.name b.name) db.agents)

-- Is the agent named by a row of a table that refers to agents without a cascade?
abbrev pub is_referenced : Db → Text → Bool
is_referenced db id =
    any (key_is (λ (r : Repository). r.agent_id) id) db.repositories
    || any (key_is (λ (d : Deployment). d.agent_id) id) db.deployments
    || any (key_is (λ (a : Alert). a.agent_id) id) db.alerts

-- The agent's containers go with it (ON DELETE CASCADE); any other reference forbids the deletion.
unfoldable pub delete_agent : Db → Text → Db × Option StoreError
delete_agent db id =
    if has_agent db id && is_referenced db id then (db, some foreign_key_violation) else (
      record db {
        agents = filter (λ r. not (eqb r.id id)) db.agents;
        containers =
            if has_agent db id
            then filter (λ c. not (eqb c.agent_id id)) db.containers
            else db.containers;
      },
      none,
    )
