-- ===== src/Storage/Logs.antt =====
-- internal/storage/sqlite/log.go
use uruflow.Prelude.{
  suc, not, List, [], ◌∷◌, ◌++◌, Option, none, some, Text, filter, key_is, eqb, if◌then◌else◌,
}
use uruflow.Models.{DeploymentLog}
use uruflow.Storage.{Db, StoreError, foreign_key_violation, has_deployment}

unfoldable pub add_deployment_log : Db → DeploymentLog → Db × Option StoreError
add_deployment_log db log =
    if has_deployment db log.deployment_id
    then (
      record db {
        logs = db.logs ++ record log { id = db.next_log } ∷ [];
        next_log = suc db.next_log;
      },
      none,
    )
    else (db, some foreign_key_violation)

-- ORDER BY id, which is the order of insertion.
unfoldable pub get_deployment_logs : Db → Text → List DeploymentLog
get_deployment_logs db deployment_id = filter (key_is (λ l. l.deployment_id) deployment_id) db.logs

unfoldable pub delete_deployment_logs : Db → Text → Db
delete_deployment_logs db deployment_id = record db {
  logs = filter (λ l. not (eqb l.deployment_id deployment_id)) db.logs;
}
