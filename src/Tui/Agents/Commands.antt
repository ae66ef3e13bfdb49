-- ===== src/Tui/Agents/Commands.antt =====
-- internal/tui/views/agents.go: what the commands of the view do to the configuration, its file and
-- the database.
use uruflow.Prelude.{[], ◌++◌, Option, none, some, Text, bytes}
use uruflow.Models.{Time, Agent, offline}
use uruflow.Config.{Config, add_agent, remove_agent}
use uruflow.Config.Files.{FileSystem, save}
use uruflow.Storage.{Db}
use uruflow.Storage.Agents.{create_agent, delete_agent, zero_time}
use uruflow.Tui.Rows.{Printing, fetch_agents}
use uruflow.Tui.Agents.{Msg, Cmd, fetch, spin, add, delete, added, not_added, fetched, spinner_tick}

-- What the program has in memory, on disk and in the database.
pub record World (D : Type 0) : Type 0 where
  pub config : Config
  pub disk : D
  pub db : Db

-- What a command reads: the clock, and the id and the token that are drawn at random.
pub record Env (D : Type 0) : Type 0 where
  pub fs : FileSystem D
  pub path : Text
  pub print : Printing
  pub now : Time
  pub drawn_id : Text
  pub drawn_token : Text

abbrev pub new_agent : Text → Text → Text → Time → Agent
new_agent id name token now = record {
  id = id;
  name = name;
  token = token;
  host = [];
  hostname = [];
  version = [];
  status = offline;
  last_heartbeat = zero_time;
  metrics = none;
  containers = [];
  registered_at = now;
}

module _ {D : Type 0} (env : Env D) where
  -- The error of the store is dropped.
  abbrev pub saved : World D → Config → Text → Text → Text → D × Option Text → World D × Msg
  saved w c id token name (disk, some e) = (record w { config = c; disk = disk }, not_added e)
  saved w c id token name (disk, none) = (
    record {
      config = c;
      disk = disk;
      db = (create_agent w.db env.now (new_agent id name token env.now)).0;
    },
    added (record { name = name; id = id; token = token }),
  )

  abbrev pub registered : World D → Text → Option (Config × Text × Text) → World D × Msg
  registered w name none = (w, not_added (bytes "agent " ++ name ++ bytes " already exists"))
  registered w name (some (c, id, token)) = saved w c id token name (save env.fs w.disk env.path c)

  -- `addAgent`
  unfoldable pub run_add : World D → Text → World D × Msg
  run_add w name = registered w name (add_agent w.config name env.drawn_id env.drawn_token)

  -- `deleteAgent`: the errors of the file and of the store are dropped.
  unfoldable pub run_delete : World D → Text → World D × Msg
  run_delete w id =
      let c = (remove_agent w.config id).0 in
      let db = (delete_agent w.db id).0 in
      (
        record { config = c; disk = (save env.fs w.disk env.path c).0; db = db },
        fetched (fetch_agents env.print db),
      )

  unfoldable pub run : World D → Cmd → World D × Msg
  unfolding run_add run_delete
  run w fetch = (w, fetched (fetch_agents env.print w.db))
  run w spin = (w, spinner_tick)
  run w (add name) = run_add w name
  run w (delete id) = run_delete w id
