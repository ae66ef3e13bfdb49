-- ===== src/Storage/Repositories.antt =====
-- internal/storage/sqlite/repo.go. The build settings of a repository are not stored, and the
-- column updated_at is never read.
use uruflow.Prelude.{
  suc, not, ◌&&◌, List, [], ◌∷◌, ◌++◌, Option, none, some, Text, any, find, filter, update_where,
  key_is, eqb, if◌then◌else◌,
}
use uruflow.Prelude.Int.{pos}
use uruflow.Prelude.Sort.{sort_by, before_text}
use uruflow.Models.{Time, Repository}
use uruflow.Storage.{Db, StoreError, unique_violation, foreign_key_violation, has_agent}

abbrev pub repository_row : Db → Time → Repository → Repository
repository_row db now repo = record repo {
  id = pos db.next_repository;
  build_system = [];
  build_file = [];
  build_cmd = [];
  created_at = now;
}

-- The second result is the repository with the id that the database gave it.
unfoldable pub create_repository : Db → Time → Repository → Db × (Repository × Option StoreError)
create_repository db now repo =
    if any (key_is (λ (r : Repository). r.name) repo.name) db.repositories
    then (db, (repo, some unique_violation))
    else if not (has_agent db repo.agent_id)
    then (db, (repo, some foreign_key_violation))
    else (
      record db {
        repositories = db.repositories ++ repository_row db now repo ∷ [];
        next_repository = suc db.next_repository;
      },
      (record repo { id = pos db.next_repository }, none),
    )

unfoldable pub update_repository : Db → Repository → Db × Option StoreError
update_repository db repo =
    if any (key_is (λ (r : Repository). r.name) repo.name) db.repositories
      && not (has_agent db repo.agent_id)
    then (db, some foreign_key_violation)
    else (
      record db {
        repositories =
            update_where (key_is (λ r. r.name) repo.name)
              (λ r. record r {
                url = repo.url;
                branch = repo.branch;
                agent_id = repo.agent_id;
                path = repo.path;
                auto_deploy = repo.auto_deploy;
              })
              db.repositories;
      },
      none,
    )

unfoldable pub get_repository : Db → Text → Option Repository
get_repository db name = find (key_is (λ r. r.name) name) db.repositories

unfoldable pub get_all_repositories : Db → List Repository
get_all_repositories db = sort_by (λ a b. before_text a.name b.name) db.repositories

unfoldable pub delete_repository : Db → Text → Db
delete_repository db name = record db {
  repositories = filter (λ r. not (eqb r.name name)) db.repositories;
}
