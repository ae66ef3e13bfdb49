-- ===== src/Storage/Lookup.antt =====
-- What the writing statements of internal/storage/sqlite/deployment.go and log.go do to the queries
-- by id.
use mathlib.Core.Option
use uruflow.Prelude.{
  find-update_where_key, ◌≢◌, ◌⊎◌, ◌≡◌, refl, true, false, none, some, Text, arith, key_is, eqb,
  eqb_iff, eqb_self, find_snoc_self, find_snoc_other, any-find, any-false-find, Bool-cases, inl,
  inr, if◌then◌else◌,
}
use uruflow.Models.{Deployment, DeploymentLog}
use uruflow.Storage.{Db, has_agent, has_deployment}
use uruflow.Storage.Deployments.{
  create_deployment, update_deployment, get_deployment, fresh_row, overwrite,
}
use uruflow.Storage.Logs.{add_deployment_log}

-- An update reaches the deployment of its id alone, and of it only the status, the output, the end
-- and the duration; an update of an unknown id changes nothing.
pub get_deployment-update_deployment :
    (db : Db) (d : Deployment) (id : Text)
    → get_deployment (update_deployment db d) id
      ≡ Option.map (λ r. if eqb d.id id then overwrite d r else r) (get_deployment db id)
unfolding get_deployment update_deployment
get_deployment-update_deployment db d id =
    find-update_where_key (λ r. r.id) d.id id (overwrite d) db.deployments (λ r. refl)

-- Writing to the log changes no deployment.
pub get_deployment-add_deployment_log :
    (db : Db) (l : DeploymentLog) (id : Text)
    → get_deployment (add_deployment_log db l).0 id ≡ get_deployment db id
unfolding get_deployment add_deployment_log
get_deployment-add_deployment_log db l id = elim (Bool-cases (has_deployment db l.deployment_id)) [
  | inl e ↦ rw e
  | inr e ↦ rw e
]

pub create_deployment_lem :
    (db : Db) (d : Deployment)
    → ((get_deployment db d.id ≢ none) ⊎ (has_agent db d.agent_id ≡ false))
        × ((create_deployment db d).1 ≢ none)
        × ((create_deployment db d).0 ≡ db)
      ⊎ ((create_deployment db d).1 ≡ none)
        × (get_deployment db d.id ≡ none)
        × (has_agent db d.agent_id ≡ true)
        × (get_deployment (create_deployment db d).0 d.id ≡ some (fresh_row d))
        × ((id : Text)
            → d.id ≢ id
            → get_deployment (create_deployment db d).0 id ≡ get_deployment db id)
unfolding create_deployment get_deployment
create_deployment_lem db d = elim (Bool-cases (has_deployment db d.id)) [
  | inl taken ↦
      let (a, e) = any-find (key_is (λ r. r.id) d.id) db.deployments taken in
      inl (inl (λ n. cc), rw taken (λ n. cc), rw taken)
  | inr free ↦ elim (Bool-cases (has_agent db d.agent_id)) [
    | inl known ↦ inr (
      rw (free, known),
      any-false-find (key_is (λ r. r.id) d.id) db.deployments free,
      known,
      rw (free, known) (find_snoc_self (λ r. r.id) db.deployments (fresh_row d) free),
      λ id ne.
          rw (free, known)
            (find_snoc_other (λ r. r.id) (key_is (λ r. r.id) id) db.deployments (fresh_row d)
              (ground (arith, eqb_iff d.id id, ne))),
    )
    | inr unknown ↦ inl (inr unknown, rw (free, unknown) (λ n. cc), rw (free, unknown))
  ]
]

-- Creating a deployment fails exactly when the id is taken or the agent is unknown, and then the
-- tables are unchanged. Otherwise the deployment is found under its id, with the default output
-- and duration and no end, and other ids find what they found before.
pub get_deployment-create_deployment :
    (db : Db) (d : Deployment) (id : Text)
    → ((get_deployment db d.id ≢ none) ⊎ (has_agent db d.agent_id ≡ false))
        × ((create_deployment db d).1 ≢ none)
        × ((create_deployment db d).0 ≡ db)
      ⊎ ((create_deployment db d).1 ≡ none)
        × (get_deployment db d.id ≡ none)
        × (has_agent db d.agent_id ≡ true)
        × (get_deployment (create_deployment db d).0 id
            ≡ (if eqb d.id id then some (fresh_row d) else get_deployment db id))
get_deployment-create_deployment db d id = elim (create_deployment_lem db d) [
  | inl refused ↦ inl refused
  | inr (done, free, known, e, others) ↦ inr (done, free, known, found e others)
]
  where
    found :
        get_deployment (create_deployment db d).0 d.id ≡ some (fresh_row d)
        → ((k : Text)
            → d.id ≢ k
            → get_deployment (create_deployment db d).0 k ≡ get_deployment db k)
        → get_deployment (create_deployment db d).0 id
          ≡ (if eqb d.id id then some (fresh_row d) else get_deployment db id)
    found e others = elim (Bool-cases (eqb d.id id)) [
      | inl same ↦ rw (same, ← (eqb_iff d.id id).0 same) e
      | inr other ↦ rw other (others id (ground (arith, other, eqb_self id)))
    ]
