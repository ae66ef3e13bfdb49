-- ===== src/Storage/Containers.antt =====
-- internal/storage/sqlite/container.go
use uruflow.Prelude.{
  not, List, [], ◌∷◌, ◌++◌, Option, none, some, Text, any, filter, update_where, key_is, eqb,
  if◌then◌else◌,
}
use uruflow.Prelude.Sort.{sort_by, before_text}
use uruflow.Models.{Container}
use uruflow.Storage.{Db, StoreError, foreign_key_violation, has_agent}

-- ON CONFLICT(id) DO UPDATE: agent, name, image and start time stay those of the first report.
unfoldable pub upsert_container : Db → Container → Db × Option StoreError
upsert_container db c =
    if any (key_is (λ (r : Container). r.id) c.id) db.containers
    then (
      record db {
        containers =
            update_where (key_is (λ r. r.id) c.id)
              (λ r. record r {
                status = c.status;
                health = c.health;
                cpu_percent = c.cpu_percent;
                memory_usage = c.memory_usage;
                memory_limit = c.memory_limit;
                network_rx = c.network_rx;
                network_tx = c.network_tx;
                restart_count = c.restart_count;
              })
              db.containers;
      },
      none,
    )
    else if has_agent db c.agent_id
    then (record db { containers = db.containers ++ c ∷ [] }, none)
    else (db, some foreign_key_violation)

-- ORDER BY name
unfoldable pub get_containers_by_agent : Db → Text → List Container
get_containers_by_agent db agent_id =
    sort_by (λ a b. before_text a.name b.name)
      (filter (key_is (λ c. c.agent_id) agent_id) db.containers)

unfoldable pub delete_containers_by_agent : Db → Text → Db
delete_containers_by_agent db agent_id = record db {
  containers = filter (λ c. not (eqb c.agent_id agent_id)) db.containers;
}
