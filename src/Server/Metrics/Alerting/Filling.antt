-- ===== src/Server/Metrics/Alerting/Filling.antt =====
-- The loop of `handleMetrics` of internal/tcp/server.go that fills the map of active alerts.
use uruflow.Prelude.{
  ◌+◌, ◌≤◌, ◌≡◌, refl, sym, ◌∙◌, subst, false, not, ◌&&◌, List, [], ◌∷◌, Option, none, some, Text,
  arith, count, filter, key_is, eqb, eqb_self, Bool-cases, inl, inr, if◌then◌else◌,
}
use uruflow.Prelude.Sort.{count-sort_by}
use uruflow.Prelude.Maps.{lookup, insert, lookup-insert}
use uruflow.Models.{Alert}
use uruflow.Storage.{Db}
use uruflow.Storage.Alerts
use uruflow.Storage.Alerts.{create_alert, resolve_alert, get_active_alerts}
use uruflow.Server.Metrics.{AlertMap, fill_map}
use uruflow.Server.Metrics.Alerting.Changes.{active, active_but, Covered, count_but}

lookup-fill_map :
    (agent_id msg : Text) (xs : List Alert) (m : AlertMap)
    → count (active agent_id msg) xs ≡ 0
    → lookup msg (fill_map agent_id xs m) ≡ lookup msg m
unfolding fill_map count
lookup-fill_map agent_id msg [] m h = refl
lookup-fill_map agent_id msg (x ∷ xs) m h =
    elim (Bool-cases (eqb x.agent_id agent_id && not x.resolved)) [
      | inl e ↦
          rw (fill_map, e)
            (lookup-fill_map agent_id msg xs (insert x.message x m) (omega (arith, h))
              ∙ ground (arith, e, h, lookup-insert x.message msg x m))
      | inr e ↦ rw (fill_map, e) (lookup-fill_map agent_id msg xs m (omega (arith, h)))
    ]

Covered-skip :
    (agent_id msg : Text) (x : Alert) (xs : List Alert) (o : Option Alert)
    → active agent_id msg x ≡ false
    → Covered agent_id xs msg o
    → Covered agent_id (x ∷ xs) msg o
unfolding count
Covered-skip agent_id msg x xs none e h = ground (arith, e, h)
Covered-skip agent_id msg x xs (some al) e h = ground (arith, e, h)

pub fill_map-Covered :
    (agent_id msg : Text) (xs : List Alert) (m : AlertMap)
    → count (active agent_id msg) xs ≤ 1
    → lookup msg m ≡ none
    → Covered agent_id xs msg (lookup msg (fill_map agent_id xs m))
unfolding fill_map count
fill_map-Covered agent_id msg [] m h empty = subst (Covered agent_id [] msg) (sym empty) refl
fill_map-Covered agent_id msg (x ∷ xs) m h empty =
    let m' = if eqb x.agent_id agent_id && not x.resolved then insert x.message x m else m in
    elim (Bool-cases (active agent_id msg x)) [
      | inl e ↦
          let zero_later : count (active agent_id msg) xs ≡ 0 = ground (arith, e, h) in
          let found : lookup msg m' ≡ some x = ground (arith, e, lookup-insert x.message msg x m) in
          subst (Covered agent_id (x ∷ xs) msg)
            (sym (lookup-fill_map agent_id msg xs m' zero_later ∙ found))
            (ground (arith, eqb_self x.id, zero_later, count_but agent_id msg x.id xs))
      | inr e ↦
          let still : lookup msg m' ≡ none =
            ground (arith, e, empty, lookup-insert x.message msg x m) in
          Covered-skip agent_id msg x xs (lookup msg (fill_map agent_id xs m')) e
            (fill_map-Covered agent_id msg xs m' (ground (arith, e, h)) still)
    ]

count-unresolved :
    (agent_id msg : Text) (xs : List Alert)
    → count (active agent_id msg) (filter (λ a. not a.resolved) xs) ≡ count (active agent_id msg) xs
unfolding count filter
count-unresolved agent_id msg [] = refl
count-unresolved agent_id msg (x ∷ xs) = ground (arith, count-unresolved agent_id msg xs)

count_but-unresolved :
    (agent_id msg id : Text) (xs : List Alert)
    → count (active_but agent_id msg id) (filter (λ a. not a.resolved) xs)
      ≡ count (active_but agent_id msg id) xs
unfolding count filter
count_but-unresolved agent_id msg id [] = refl
count_but-unresolved agent_id msg id (x ∷ xs) =
    ground (arith, count_but-unresolved agent_id msg id xs)

pub count_split :
    (agent_id msg id : Text) (xs : List Alert)
    → count (active agent_id msg) xs
      ≤ count (active_but agent_id msg id) xs + count (key_is (λ r. r.id) id) xs
unfolding count
count_split agent_id msg id [] = omega arith
count_split agent_id msg id (x ∷ xs) = ground (arith, count_split agent_id msg id xs)

-- Of the query for active alerts, back to the table.
pub Covered-query :
    (agent_id msg : Text) (db : Db) (o : Option Alert)
    → Covered agent_id (get_active_alerts db) msg o
    → Covered agent_id db.alerts msg o
unfolding get_active_alerts
Covered-query agent_id msg db none h =
    sym (count-unresolved agent_id msg db.alerts)
    ∙ sym
        (count-sort_by Alerts.newer (active agent_id msg) (filter (λ a. not a.resolved) db.alerts))
    ∙ h
Covered-query agent_id msg db (some al) h =
    sym (count_but-unresolved agent_id msg al.id db.alerts)
    ∙ sym (
        count-sort_by Alerts.newer (active_but agent_id msg al.id)
          (filter (λ a. not a.resolved) db.alerts))
    ∙ h

pub count-get_active_alerts :
    (agent_id msg : Text) (db : Db)
    → count (active agent_id msg) (get_active_alerts db) ≡ count (active agent_id msg) db.alerts
unfolding get_active_alerts
count-get_active_alerts agent_id msg db =
    count-sort_by Alerts.newer (active agent_id msg) (filter (λ a. not a.resolved) db.alerts)
    ∙ count-unresolved agent_id msg db.alerts
