-- ===== src/Storage/Alerts.antt =====
-- internal/storage/sqlite/alert.go
use uruflow.Prelude.{
  ◌*◌, ◌^◌, Bool, true, not, List, [], ◌∷◌, ◌++◌, Option, none, some, Text, any, filter,
  update_where, key_is, if◌then◌else◌,
}
use uruflow.Prelude.Int.{ℤ, pos, ◌-ℤ◌, ◌*ℤ◌, ltb_ℤ}
use uruflow.Prelude.Sort.{sort_by}
use uruflow.Models.{Time, Alert}
use uruflow.Storage.{Db, StoreError, unique_violation, foreign_key_violation, has_agent}

unfoldable pub create_alert : Db → Alert → Db × Option StoreError
create_alert db a =
    if any (key_is (λ (r : Alert). r.id) a.id) db.alerts
    then (db, some unique_violation)
    else if has_agent db a.agent_id
    then (record db { alerts = db.alerts ++ record a { resolved_at = none } ∷ [] }, none)
    else (db, some foreign_key_violation)

unfoldable pub resolve_alert : Db → Time → Text → Db
resolve_alert db now id = record db {
  alerts =
      update_where (key_is (λ r. r.id) id)
        (λ r. record r { resolved = true; resolved_at = some now }) db.alerts;
}

-- ORDER BY created_at DESC. The column holds texts with the local offset: their order is that of the
-- instants as long as the offset stays the same.
abbrev pub newer : Alert → Alert → Bool
newer a b = ltb_ℤ b.created_at a.created_at

unfoldable pub get_active_alerts : Db → List Alert
get_active_alerts db = sort_by newer (filter (λ a. not a.resolved) db.alerts)

unfoldable pub get_recent_alerts : Db → Time → ℤ → List Alert
get_recent_alerts db now hours =
    sort_by newer (filter (λ a. ltb_ℤ (now -ℤ hours *ℤ pos (3600 * 10 ^ 9)) a.created_at) db.alerts)

unfoldable pub get_alerts_by_agent : Db → Text → List Alert
get_alerts_by_agent db agent_id =
    sort_by newer (filter (key_is (λ a. a.agent_id) agent_id) db.alerts)
