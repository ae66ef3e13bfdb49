-- ===== src/Tui/Repos/Commands.antt =====
-- internal/tui/views/repos.go: what the commands of the view do to the server and to the file of the
-- configuration.
use uruflow.Prelude.{ℕ, List, [], ◌++◌, Option, none, some, Text, bytes}
use uruflow.Prelude.Int.{pos}
use uruflow.Models.{Time, Repository}
use uruflow.Config.{Config, add_repository, remove_repository}
use uruflow.Config.Files.{FileSystem, save}
use uruflow.Storage.Agents.{zero_time}
use uruflow.Storage.Repositories.{create_repository, delete_repository}
use uruflow.Server.{Server, with_db}
use uruflow.Server
use uruflow.Services.{DeployRequest, Outcome, trigger_deploy}
use uruflow.Tui.Logs.{nth}
use uruflow.Tui.Rows.{Printing, RepoRow, fetch_repos}
use uruflow.Tui.Repos.{NewRepo, Msg, added, not_added, fetched, failed, not_deployed}

-- The server with its configuration and its database, and the disk.
pub record World (D : Type 0) : Type 0 where
  pub server : Server
  pub disk : D

-- `why` is the text of the error where a command cannot be sent.
pub record Env (D : Type 0) : Type 0 where
  pub fs : FileSystem D
  pub path : Text
  pub print : Printing
  pub now : Time
  pub server : Server.Env
  pub why : Text

abbrev pub repository_of : NewRepo → Repository
repository_of r = record {
  id = pos 0;
  name = r.name;
  url = r.url;
  branch = r.branch;
  agent_id = r.agent_id;
  path = r.path;
  auto_deploy = r.auto_deploy;
  build_system = r.build_system;
  build_file = r.build_file;
  build_cmd = [];
  created_at = zero_time;
}

abbrev pub manual_request : RepoRow → DeployRequest
manual_request r = record {
  agent_id = r.agent_id;
  repo_name = r.name;
  branch = r.branch;
  commit = bytes "HEAD";
  trigger = bytes "manual";
}

abbrev with_config : Server → Config → Server
with_config s c = record s { config = c }

module _ {D : Type 0} (env : Env D) where
  abbrev pub listed : World D → World D × Option Msg
  listed w = (w, some (fetched (fetch_repos env.print w.server.db)))

  abbrev pub deployed : World D → Server × Outcome → World D × Option Msg
  deployed w (s, Outcome.failed e) = (record w { server = s }, some (failed (not_deployed e)))
  deployed w (s, Outcome.triggered d) = listed (record w { server = s })

  abbrev pub deploy_row : World D → Option RepoRow → World D × Option Msg
  deploy_row w none = (w, none)
  deploy_row w (some r) =
      deployed w (trigger_deploy env.server env.now env.why w.server (manual_request r))

  -- `triggerDeploy`: nothing happens where the index is past the end.
  unfoldable pub run_deploy : World D → List RepoRow → ℕ → World D × Option Msg
  unfolding nth
  run_deploy w rows index = deploy_row w (nth index rows)

  -- The error of the store is dropped.
  abbrev pub saved : World D → Config → Repository → D × Option Text → World D × Option Msg
  saved w c repo (disk, some e) =
      (record { server = with_config w.server c; disk = disk }, some (not_added e))
  saved w c repo (disk, none) =
      let db = (create_repository w.server.db env.now repo).0 in
      (record { server = with_db (with_config w.server c) db; disk = disk }, some (added repo.name))

  abbrev pub registered : World D → Repository → Option Config → World D × Option Msg
  registered w repo none =
      (w, some (not_added (bytes "repository " ++ repo.name ++ bytes " already exists")))
  registered w repo (some c) = saved w c repo (save env.fs w.disk env.path c)

  -- `addRepo`
  unfoldable pub run_add : World D → NewRepo → World D × Option Msg
  run_add w r = registered w (repository_of r) (add_repository w.server.config (repository_of r))

  -- `deleteRepo`: the errors of the file and of the store are dropped.
  unfoldable pub run_delete : World D → Text → World D × Option Msg
  run_delete w name =
      let c = (remove_repository w.server.config name).0 in
      let db = delete_repository w.server.db name in
      listed (record {
        server = with_db (with_config w.server c) db;
        disk = (save env.fs w.disk env.path c).0;
      })
