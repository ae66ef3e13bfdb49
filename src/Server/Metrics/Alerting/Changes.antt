-- ===== src/Server/Metrics/Alerting/Changes.antt =====
-- The map of active alerts in `handleMetrics` of internal/tcp/server.go against the table: what
-- storing and resolving an alert do to both.
use uruflow.Prelude.{
  ◌+◌, ◌≤◌, ◌≡◌, ◌⊎◌, refl, sym, ap, ◌∙◌, subst, Bool, true, false, not, ◌&&◌, List, [], ◌∷◌, ◌++◌,
  Option, none, some, Text, arith, count, update_where, any, key_is, eqb, eqb_iff, eqb_self,
  Bool-cases, inl, inr, if◌then◌else◌,
}
use uruflow.Prelude.Maps.{lookup, insert, delete, lookup-insert, lookup-delete}
use uruflow.Models.{Time, Alert}
use uruflow.Storage.{Db, has_agent}
use uruflow.Storage.Alerts.{create_alert, resolve_alert}
use uruflow.Server.{Server}
use uruflow.Server.Metrics.{AlertMap}

-- An unresolved alert of the agent with this message.
abbrev pub active : Text → Text → Alert → Bool
active agent_id msg a = eqb a.agent_id agent_id && (eqb a.message msg && not a.resolved)

-- The same, but for the alert of one id.
abbrev pub active_but : Text → Text → Text → Alert → Bool
active_but agent_id msg id a = active agent_id msg a && not (key_is (λ r. r.id) id a)

abbrev pub Covered : Text → List Alert → Text → Option Alert → Type 0
Covered agent_id alerts msg none = count (active agent_id msg) alerts ≡ 0
Covered agent_id alerts msg (some al) = count (active_but agent_id msg al.id) alerts ≡ 0

-- The map has the only active alert of each message.
abbrev pub Covers : Text → List Alert → AlertMap → Type 0
Covers agent_id alerts m = (msg : Text) → Covered agent_id alerts msg (lookup msg m)

count_stored :
    (p : Alert → Bool) (xs : List Alert) (a : Alert)
    → count p (xs ++ a ∷ []) ≡ count p xs + (if p a then 1 else 0)
unfolding count
count_stored p [] a = ground arith
count_stored p (x ∷ xs) a = ground (arith, count_stored p xs a)

pub count_but :
    (agent_id msg id : Text) (xs : List Alert)
    → count (active_but agent_id msg id) xs ≤ count (active agent_id msg) xs
unfolding count
count_but agent_id msg id [] = omega arith
count_but agent_id msg id (x ∷ xs) = ground (arith, count_but agent_id msg id xs)

abbrev resolve : Time → Text → List Alert → List Alert
resolve now id =
    update_where (key_is (λ r. r.id) id) (λ r. record r { resolved = true; resolved_at = some now })

count-resolve :
    (now : Time) (agent_id msg id : Text) (xs : List Alert)
    → count (active agent_id msg) (resolve now id xs) ≡ count (active_but agent_id msg id) xs
unfolding count update_where
count-resolve now agent_id msg id [] = refl
count-resolve now agent_id msg id (x ∷ xs) = ground (arith, count-resolve now agent_id msg id xs)

count_but-resolve :
    (now : Time) (agent_id msg id other : Text) (xs : List Alert)
    → count (active_but agent_id msg other) (resolve now id xs)
      ≤ count (active_but agent_id msg other) xs
unfolding count update_where
count_but-resolve now agent_id msg id other [] = omega arith
count_but-resolve now agent_id msg id other (x ∷ xs) =
    ground (arith, count_but-resolve now agent_id msg id other xs)

Covered-stored :
    (agent_id msg : Text) (xs : List Alert) (al : Alert) (o : Option Alert)
    → eqb al.message msg ≡ false
    → Covered agent_id xs msg o
    → Covered agent_id (xs ++ al ∷ []) msg o
Covered-stored agent_id msg xs al none e h =
    ground (arith, e, h, count_stored (active agent_id msg) xs al)
Covered-stored agent_id msg xs al (some old) e h =
    ground (arith, e, h, count_stored (active_but agent_id msg old.id) xs al)

create_alert-alerts :
    (db : Db) (al : Alert)
    → ((create_alert db al).0.alerts ≡ db.alerts)
      ⊎ ((create_alert db al).0.alerts ≡ db.alerts ++ record al { resolved_at = none } ∷ [])
unfolding create_alert
create_alert-alerts db al = elim (Bool-cases (any (key_is (λ (r : Alert). r.id) al.id) db.alerts)) [
  | inl taken ↦ inl (rw (create_alert, taken))
  | inr free ↦ elim (Bool-cases (has_agent db al.agent_id)) [
    | inl known ↦ inr (rw (create_alert, free, known))
    | inr unknown ↦ inl (rw (create_alert, free, unknown))
  ]
]

Covered-insert :
    (agent_id msg : Text) (xs : List Alert) (al : Alert)
    → count (active agent_id al.message) xs ≡ 0
    → eqb al.message msg ≡ true
    → (count (active_but agent_id msg al.id) xs ≡ 0)
      × (count (active_but agent_id msg al.id) (xs ++ record al { resolved_at = none } ∷ []) ≡ 0)
Covered-insert agent_id msg xs al h e =
    let same = (eqb_iff al.message msg).0 e in
    let z : count (active agent_id msg) xs ≡ 0 =
      subst (λ t. count (active agent_id t) xs ≡ 0) same h in
    let none_left : count (active_but agent_id msg al.id) xs ≡ 0 =
      omega (arith, z, count_but agent_id msg al.id xs) in
    (
      none_left,
      ground (
        arith,
        none_left,
        eqb_self al.id,
        count_stored (active_but agent_id msg al.id) xs (record al { resolved_at = none }),
      ),
    )

lookup-stored :
    (msg : Text) {b : Bool} (al : Alert) (m : AlertMap)
    → eqb al.message msg ≡ b
    → lookup msg (insert al.message al m) ≡ (if b then some al else lookup msg m)
lookup-stored msg al m e =
    lookup-insert al.message msg al m ∙ ap (λ b. if b then some al else lookup msg m) e

lookup-deleted :
    (text msg : Text) {b : Bool} (m : AlertMap)
    → eqb text msg ≡ b
    → lookup msg (delete text m) ≡ (if b then none else lookup msg m)
lookup-deleted text msg m e =
    lookup-delete text msg m ∙ ap (λ b. if b then none else lookup msg m) e

-- Storing an alert whose message the map does not have.
pub store_alert-Covers :
    (agent_id : Text) (s : Server) (m : AlertMap) (al : Alert)
    → lookup al.message m ≡ none
    → Covers agent_id s.db.alerts m
    → Covers agent_id (create_alert s.db al).0.alerts (insert al.message al m)
store_alert-Covers agent_id s m al new good msg =
    let zero_before = subst (Covered agent_id s.db.alerts al.message) new (good al.message) in
    elim (Bool-cases (eqb al.message msg)) [
      | inl e ↦
          let (kept, stored) = Covered-insert agent_id msg s.db.alerts al zero_before e in
          subst (Covered agent_id (create_alert s.db al).0.alerts msg)
            (sym (lookup-stored msg al m e))
            (elim (create_alert-alerts s.db al) [
              | inl same ↦ rw (same) kept
              | inr more ↦ rw (more) stored
            ])
      | inr e ↦
          subst (Covered agent_id (create_alert s.db al).0.alerts msg)
            (sym (lookup-stored msg al m e))
            (elim (create_alert-alerts s.db al) [
              | inl same ↦
                  subst (λ xs. Covered agent_id xs msg (lookup msg m)) (sym same) (good msg)
              | inr more ↦
                  subst (λ xs. Covered agent_id xs msg (lookup msg m)) (sym more)
                    (Covered-stored agent_id msg s.db.alerts (record al { resolved_at = none })
                      (lookup msg m) e (good msg))
            ])
    ]

Covered-resolve :
    (now : Time) (agent_id msg id : Text) (xs : List Alert) (o : Option Alert)
    → Covered agent_id xs msg o
    → Covered agent_id (resolve now id xs) msg o
Covered-resolve now agent_id msg id xs none h =
    omega (arith, h, count-resolve now agent_id msg id xs, count_but agent_id msg id xs)
Covered-resolve now agent_id msg id xs (some al) h =
    omega (arith, h, count_but-resolve now agent_id msg id al.id xs)

pub resolve_found-Covers :
    (now : Time) (agent_id : Text) (s : Server) (m : AlertMap) (text : Text) (al : Alert)
    → lookup text m ≡ some al
    → Covers agent_id s.db.alerts m
    → Covers agent_id (resolve_alert s.db now al.id).alerts (delete text m)
unfolding resolve_alert
resolve_found-Covers now agent_id s m text al e good msg = elim (Bool-cases (eqb text msg)) [
  | inl same ↦
      let here : count (active_but agent_id msg al.id) s.db.alerts ≡ 0 =
        subst (Covered agent_id s.db.alerts msg)
          (ap (λ t. lookup t m) (sym ((eqb_iff text msg).0 same)) ∙ e) (good msg) in
      subst (Covered agent_id (resolve now al.id s.db.alerts) msg)
        (sym (lookup-deleted text msg m same))
        (count-resolve now agent_id msg al.id s.db.alerts ∙ here)
  | inr other ↦
      subst (Covered agent_id (resolve now al.id s.db.alerts) msg)
        (sym (lookup-deleted text msg m other))
        (Covered-resolve now agent_id msg al.id s.db.alerts (lookup msg m) (good msg))
]
