-- ===== src/Tests/Configuration.antt =====
-- The configuration, its file and what the views of agents and repositories do to them, at concrete
-- inputs.
use uruflow.Prelude.{count, any, arith, bytes, refl, ◌≡◌, ◌&&◌, inl, Text, none, [], key_is, List}
use uruflow.Prelude.Int.{pos}
use uruflow.Config.{get_agent, Config}
use uruflow.Config.Files.{FileSystem, load, save}
use uruflow.Config.Saving.{load-save, Filled, ReadsBack, ParsesBack}
use uruflow.Config.Registry.{IsUnique}
use uruflow.Storage.{has_agent}
use uruflow.Storage.Repositories.{create_repository}
use uruflow.Storage.Agents.{is_referenced}
use uruflow.Tui.Rows.{Printing, AgentRow}
use uruflow.Tui.Agents.{fetched}
use uruflow.Tui.Agents.Commands.{World, Env, run_delete}
use uruflow.Tui.Agents.Deleting.{run_delete_lem}
use uruflow.Tests.Fixtures.{config, repository, agent_id, one_agent}

config-IsUnique : IsUnique config
unfolding count
config-IsUnique = record {
  agent_names = λ n. ground arith;
  agent_ids = λ n. ground arith;
  repository_names = λ n. ground arith;
}

-- A disk that holds one file, and a text that stands for one configuration.
abbrev pub one_file : FileSystem Text
one_file = record {
  dir = λ path. path;
  make_dirs = λ disk path. (disk, none);
  write_file = λ disk path text. (text, none);
  read_file = λ disk path. inl disk;
  marshal = λ c. inl (bytes "agents: box");
  unmarshal = λ text. inl config;
}

reads_back : ReadsBack one_file
unfolding ReadsBack
reads_back = λ disk path text ok. refl

parses_back : ParsesBack one_file config
unfolding ParsesBack
parses_back = λ text printed. refl

load-save_example :
    (loaded : Config) × (load one_file
        (save one_file [] (bytes "uruflow.yaml") config).0
        (bytes "uruflow.yaml")
      ≡ inl loaded)
    × Filled config loaded
unfolding save
load-save_example = load-save one_file [] (bytes "uruflow.yaml") config reads_back parses_back refl

abbrev pub plain : Printing
plain = record { since = λ t. []; date_time = λ t. []; hour_minute = λ t. []; number = λ n. [] }

abbrev env : Env Text
env = record {
  fs = one_file;
  path = bytes "uruflow.yaml";
  print = plain;
  now = pos 0;
  drawn_id = bytes "agent2";
  drawn_token = bytes "token2";
}

abbrev world : World Text
world = record {
  config = config;
  disk = [];
  db = (create_repository one_agent (pos 0) repository).0;
}

run_delete_lem_example :
    let (w', shown) = run_delete env world agent_id in
    (rows : List AgentRow) × (shown ≡ fetched rows)
    × (get_agent w'.config agent_id ≡ none)
    × (has_agent w'.db agent_id ≡ (has_agent world.db agent_id && is_referenced world.db agent_id))
    × (any (key_is (λ r. r.id) agent_id) rows
        ≡ (has_agent world.db agent_id && is_referenced world.db agent_id))
run_delete_lem_example = run_delete_lem env world agent_id config-IsUnique
