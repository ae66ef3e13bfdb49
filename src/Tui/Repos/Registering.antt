-- ===== src/Tui/Repos/Registering.antt =====
-- What adding a repository in internal/tui/views/repos.go leaves in the configuration and in the
-- database.
use uruflow.Prelude.{
  ◌≡◌, ◌≢◌, ◌⊎◌, inl, inr, refl, ap, ◌∙◌, Bool, true, false, not, ◌||◌, ◌++◌, Option, none, some,
  Text, bytes, eqb_self, any, key_is, Bool-cases, Option-cases, any-false-find, find_snoc_self,
}
use uruflow.Models.{Repository, Time}
use uruflow.Config.{Config, add_repository}
use uruflow.Config
use uruflow.Config.Files.{save}
use uruflow.Config.Registry.{add_repository-remove_repository}
use uruflow.Storage.{Db, has_agent}
use uruflow.Storage.Repositories.{create_repository, get_repository, repository_row}
use uruflow.Tui.Repos.{NewRepo, Msg, added, not_added}
use uruflow.Tui.Repos.Commands.{World, Env, repository_of, run_add, saved, registered}

abbrev pub exists : Text → Msg
exists name = not_added (bytes "repository " ++ name ++ bytes " already exists")

-- The database has the name, or not the agent.
abbrev pub is_refused : Db → Repository → Bool
is_refused db repo =
    any (key_is (λ (r : Repository). r.name) repo.name) db.repositories
    || not (has_agent db repo.agent_id)

create_repository_lem :
    (db : Db) (now : Time) (repo : Repository)
    → (is_refused db repo ≡ true) × ((create_repository db now repo).0 ≡ db)
      ⊎ (is_refused db repo ≡ false)
        × (get_repository (create_repository db now repo).0 repo.name
            ≡ some (repository_row db now repo))
unfolding create_repository get_repository
create_repository_lem db now repo =
    elim (Bool-cases (any (key_is (λ (r : Repository). r.name) repo.name) db.repositories)) [
      | inl there ↦ inl (rw there, rw there)
      | inr free ↦ elim (Bool-cases (has_agent db repo.agent_id)) [
        | inl known ↦ inr (
          rw (free, known),
          rw (free, known)
              (find_snoc_self (λ r. r.name) db.repositories (repository_row db now repo) free),
        )
        | inr unknown ↦ inl (rw (free, unknown), rw (free, unknown))
      ]
    ]

add_repository-taken :
    (c : Config) (repo a : Repository)
    → Config.get_repository c repo.name ≡ some a
    → add_repository c repo ≡ none
unfolding add_repository Config.get_repository
add_repository-taken c repo a taken =
    elim (Bool-cases (any (key_is (λ (r : Repository). r.name) repo.name) c.repositories)) [
      | inl there ↦ rw there
      | inr free ↦
          absurd (cc (any-false-find (key_is (λ r. r.name) repo.name) c.repositories free, taken))
    ]

module _ {D : Type 0} (env : Env D) where
  -- The error of saving is shown, or the name.
  abbrev pub IsReported : World D → NewRepo → World D × Option Msg → Type 0
  IsReported w r (w', shown) =
      ((e : Text) × (save env.fs w.disk env.path w'.server.config ≡ (w'.disk, some e))
        × (shown ≡ some (not_added e))
        × (w'.server.db ≡ w.server.db)
        × (run_add env w' r ≡ (w', some (exists r.name))))
      ⊎ (save env.fs w.disk env.path w'.server.config ≡ (w'.disk, none))
        × (shown ≡ some (added r.name))
        × ((is_refused w.server.db (repository_of r) ≡ true) × (w'.server.db ≡ w.server.db)
            ⊎ (is_refused w.server.db (repository_of r) ≡ false)
              × (get_repository w'.server.db r.name
                  ≡ some (repository_row w.server.db env.now (repository_of r))))

  add_taken :
      (w : World D) (r : NewRepo) (a : Repository)
      → Config.get_repository w.server.config r.name ≡ some a
      → run_add env w r ≡ (w, some (exists r.name))
  unfolding run_add
  add_taken w r a taken =
      ap (registered env w (repository_of r))
        (add_repository-taken w.server.config (repository_of r) a taken)

  saved-IsReported :
      (w : World D) (c : Config) (r : NewRepo) (o : D × Option Text)
      → save env.fs w.disk env.path c ≡ o
      → Config.get_repository c r.name ≡ some (repository_of r)
      → IsReported w r (saved env w c (repository_of r) o)
  saved-IsReported w c r (disk, some e) was there = inl (
    e,
    was,
    refl,
    refl,
    add_taken (saved env w c (repository_of r) (disk, some e)).0 r (repository_of r) there,
  )
  saved-IsReported w c r (disk, none) was there =
      inr (was, refl, create_repository_lem w.server.db env.now (repository_of r))

  saved-config :
      (w : World D) (c : Config) (repo : Repository) (o : D × Option Text)
      → (saved env w c repo o).0.server.config ≡ c
  saved-config w c repo (disk, some e) = refl
  saved-config w c repo (disk, none) = refl

  -- Adding a repository in the view: a name that the configuration has changes nothing. Otherwise the
  -- configuration in memory has the repository afterwards, with its build settings, and this
  -- configuration is saved. If saving it fails, its error is shown, the database is as it was, and a second try says that the name
  -- exists already. If it succeeds, success is shown, and the database has the repository without
  -- its build settings, unless it had the name before or does not know the agent, in which case it is
  -- as it was.
  pub run_add_repo_lem :
      (w : World D) (r : NewRepo)
      → let (w', shown) = run_add env w r in
        (Config.get_repository w.server.config r.name ≢ none)
          × (w' ≡ w)
          × (shown ≡ some (exists r.name))
        ⊎ (Config.get_repository w.server.config r.name ≡ none)
          × (Config.get_repository w'.server.config r.name ≡ some (repository_of r))
          × IsReported w r (w', shown)
  unfolding run_add
  run_add_repo_lem w r = elim (Option-cases (Config.get_repository w.server.config r.name)) [
    | inl free ↦
        let repo = repository_of r in
        let (c, entered, there, _, _) =
          add_repository-remove_repository w.server.config repo r.name free in
        let found = there ∙ rw (eqb_self r.name) in
        let o = save env.fs w.disk env.path c in
        rw entered
          (inr (free, rw (saved-config w c repo o) found, saved-IsReported w c r o refl found))
    | inr (a, taken) ↦
        let same = add_taken w r a taken in
        inl (λ n. cc (n, taken), ap (λ r. r.0) same, ap (λ r. r.1) same)
  ]
