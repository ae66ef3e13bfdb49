-- ===== src/Storage/Deployments.antt =====
-- internal/storage/sqlite/deployment.go
use uruflow.Prelude.{
  Bool, List, [], ◌∷◌, ◌++◌, Option, none, some, Text, find, filter, update_where, key_is,
  if◌then◌else◌,
}
use uruflow.Prelude.Int.{ℤ, pos, ltb_ℤ}
use uruflow.Prelude.Sort.{sort_by}
use uruflow.Models.{Deployment}
use uruflow.Storage.{
  Db, StoreError, unique_violation, foreign_key_violation, has_agent, has_deployment, limit_rows,
}

-- The row is created with the default output and duration, and with no end.
abbrev pub fresh_row : Deployment → Deployment
fresh_row d = record d { output = []; duration = pos 0; ended_at = none }

unfoldable pub create_deployment : Db → Deployment → Db × Option StoreError
create_deployment db d =
    if has_deployment db d.id
    then (db, some unique_violation)
    else if has_agent db d.agent_id
    then (record db { deployments = db.deployments ++ fresh_row d ∷ [] }, none)
    else (db, some foreign_key_violation)

-- Only these four columns are written.
abbrev pub overwrite : Deployment → Deployment → Deployment
overwrite d r = record r {
  status = d.status;
  ended_at = d.ended_at;
  duration = d.duration;
  output = d.output;
}

unfoldable pub update_deployment : Db → Deployment → Db
update_deployment db d = record db {
  deployments = update_where (key_is (λ r. r.id) d.id) (overwrite d) db.deployments;
}

unfoldable pub get_deployment : Db → Text → Option Deployment
get_deployment db id = find (key_is (λ d. d.id) id) db.deployments

-- ORDER BY started_at DESC. The column holds texts with the local offset: their order is that of the
-- instants as long as the offset stays the same.
abbrev pub newer : Deployment → Deployment → Bool
newer a b = ltb_ℤ b.started_at a.started_at

unfoldable pub get_recent_deployments : Db → ℤ → List Deployment
get_recent_deployments db limit = limit_rows limit (sort_by newer db.deployments)

unfoldable pub get_deployments_by_agent : Db → Text → ℤ → List Deployment
get_deployments_by_agent db agent_id limit =
    limit_rows limit (sort_by newer (filter (key_is (λ d. d.agent_id) agent_id) db.deployments))

unfoldable pub get_deployments_by_repo : Db → Text → ℤ → List Deployment
get_deployments_by_repo db repo_name limit =
    limit_rows limit (sort_by newer (filter (key_is (λ d. d.repository) repo_name) db.deployments))
