-- ===== src/Tests/Views.antt =====
-- The views of agents and repositories at concrete states.
use uruflow.Prelude.{
  ◌≤◌, ◌≡◌, ◌≢◌, ◌⊎◌, true, false, refl, arith, Text, bytes, eqb, List, [], ◌∷◌, ◌++◌, none, some,
}
use uruflow.Prelude.Int.{pos}
use uruflow.Models.Float.{float_zero}
use uruflow.Config.{get_repository}
use uruflow.Tui.Run.{Reached, first, every}
use uruflow.Tui.Cursor.{is_none}
use uruflow.Tui.Logs.{nth}
use uruflow.Tui.Rows.{AgentRow, ChoiceRow}
use uruflow.Tui.Dialog.{delete_agent_dialog, one_of}
use uruflow.Tui.Agents.{AgentsModel, new_agents, key, fetched, delete, spin, update}
use uruflow.Tui.Agents.Panics.{delete_last_panics, delete_other}
use uruflow.Tui.Repos
use uruflow.Tui.Repos.{TextInput, ReposModel, new_repos}
use uruflow.Tui.Repos.Wizard.{is_complete, repositories_are_complete}
use uruflow.Tui.Repos.Panics.{takes_past, update-takes_past}
use uruflow.Tui.Repos.Back.{KeepsTexts, IsReversible, enter-escape}
use uruflow.Tui.Repos.Commands.{World, Env, run_add, repository_of}
use uruflow.Tui.Repos.Registering.{run_add_repo_lem, exists, IsReported}
use uruflow.Tests.Fixtures.{server, env}
use uruflow.Tests.Configuration.{one_file, plain}
use uruflow.Tests.Runs.{steps, steps-Reached}

abbrev row : Text → AgentRow
row name = record {
  id = name;
  name = name;
  host = [];
  version = [];
  uptime = [];
  online = false;
  cpu = float_zero;
  memory = float_zero;
  disk = float_zero;
  containers = [];
}

-- Two agents, the cursor on the second.
abbrev two : AgentsModel
two = record new_agents { agents = row (bytes "box") ∷ row (bytes "api") ∷ []; cursor = 1 }

delete_last_panics_example :
    (asked : AgentsModel) × (gone : AgentsModel) × (shorter : AgentsModel) × (update two
        (key (bytes "-"))
      ≡ some (asked, []))
    × (update asked (key (bytes "y")) ≡ some (gone, delete (bytes "api") ∷ spin ∷ []))
    × (update gone (fetched (row (bytes "box") ∷ [])) ≡ some (shorter, []))
    × (update shorter (key (bytes "-")) ≡ none)
unfolding nth
delete_last_panics_example =
    delete_last_panics two (row (bytes "api")) (row (bytes "box") ∷ []) refl refl refl (omega arith)

delete_other_example :
    (asked : AgentsModel) × (refreshed : AgentsModel) × (gone : AgentsModel) × (update two
        (key (bytes "-"))
      ≡ some (asked, []))
    × (update asked (fetched (row (bytes "a") ∷ row (bytes "b") ∷ [])) ≡ some (refreshed, []))
    × (refreshed.dialog ≡ delete_agent_dialog (bytes "api"))
    × (update refreshed (key (bytes "y")) ≡ some (gone, delete (bytes "b") ∷ spin ∷ []))
unfolding nth
delete_other_example =
    delete_other two (row (bytes "api")) (row (bytes "b")) (row (bytes "a") ∷ row (bytes "b") ∷ [])
      refl refl refl

-- A field that adds the key to its text.
abbrev field : TextInput Text
field = record {
  value = λ t. t;
  set_value = λ t text. text;
  set_placeholder = λ t text. t;
  focus = λ t. t;
  update = λ t msg. t ++ bytes "x";
}

keeps : KeepsTexts field
unfolding KeepsTexts
keeps = λ t u. refl

abbrev enter : Repos.Msg
enter = Repos.key (bytes "enter")

abbrev typed : Repos.Msg
typed = Repos.key (bytes "x")

abbrev box : ChoiceRow
box = record { id = bytes "agent1"; name = bytes "box"; online = true }

-- A name and an address are typed, the rest is left as it is, and an agent is chosen.
abbrev adding : List Repos.Msg
adding =
    Repos.fetched_agents (box ∷ box ∷ [])
    ∷ Repos.key (bytes "+")
    ∷ typed
    ∷ enter
    ∷ typed
    ∷ enter
    ∷ enter
    ∷ Repos.key (bytes "right")
    ∷ enter
    ∷ enter
    ∷ enter
    ∷ enter
    ∷ []

abbrev after : List Repos.Msg → ReposModel Text × List Repos.Cmd
after msgs = steps (Repos.update field) (new_repos [], []) msgs

after-Reached :
    (msgs : List Repos.Msg)
    → Reached (Repos.update field) (new_repos []) (after msgs).0 (after msgs).1
after-Reached msgs = steps-Reached (Repos.update field) (new_repos []) (new_repos [], []) msgs first

abbrev done : List Repos.Msg
done = adding ++ enter ∷ []

repositories_are_complete_example :
    (every is_complete (after done).1 ≡ true)
    × ((after done).0.add_step ≤ 6)
    × ((after done).0.build_cursor ≤ 2)
repositories_are_complete_example =
    repositories_are_complete field [] (after done).0 (after done).1 (after-Reached done)

abbrev complete : Repos.NewRepo
complete = record Repos.blank_repo {
  name = bytes "x";
  url = bytes "x";
  agent_id = bytes "agent1";
  agent_name = bytes "box";
  build_system = bytes "dockerfile";
}

asks_to_add :
    (after done).1 ≡ Repos.blink ∷ Repos.of_input ∷ Repos.of_input ∷ Repos.add complete ∷ []
unfolding steps Repos.update Repos.update_list Repos.update_add Repos.update_select_agent
    Repos.choose Repos.enter_step Repos.step_on Repos.noted Repos.prepared nth one_of eqb
asks_to_add = refl

-- The list becomes shorter while the second agent is at the cursor.
abbrev shorter : List Repos.Msg
shorter = adding ++ Repos.key (bytes "down") ∷ Repos.fetched_agents (box ∷ []) ∷ []

update-takes_past_example :
    is_none (Repos.update field (after shorter).0 enter) ≡ takes_past (after shorter).0 enter
update-takes_past_example =
    update-takes_past field [] (after shorter).0 (after shorter).1 enter (after-Reached shorter)

stopped : is_none (Repos.update field (after shorter).0 enter) ≡ true
unfolding steps Repos.update Repos.update_list Repos.update_add Repos.update_select_agent
    Repos.choose Repos.enter_step Repos.step_on Repos.noted Repos.prepared nth one_of eqb
stopped = refl

-- A name was typed.
abbrev named : List Repos.Msg
named = Repos.key (bytes "+") ∷ typed ∷ []

enter-escape_example : IsReversible field (after named).0
unfolding steps Repos.update Repos.update_list Repos.update_add Repos.choose one_of eqb
enter-escape_example =
    enter-escape field [] (after named).0 (after named).1 keeps (after-Reached named) refl refl

abbrev disk_env : Env Text
disk_env = record {
  fs = one_file;
  path = bytes "uruflow.yaml";
  print = plain;
  now = pos 0;
  server = env;
  why = bytes "closed";
}

abbrev world : World Text
world = record { server = server; disk = [] }

abbrev api : Repos.NewRepo
api = record Repos.blank_repo {
  name = bytes "api";
  url = bytes "git@host:api";
  agent_id = bytes "agent1";
}

run_add_repo_lem_example :
    let (w', shown) = run_add disk_env world api in
    (get_repository server.config (bytes "api") ≢ none)
      × (w' ≡ world)
      × (shown ≡ some (exists (bytes "api")))
    ⊎ (get_repository server.config (bytes "api") ≡ none)
      × (get_repository w'.server.config (bytes "api") ≡ some (repository_of api))
      × IsReported disk_env world api (w', shown)
run_add_repo_lem_example = run_add_repo_lem disk_env world api
