-- ===== src/Tui/RepoState.antt =====
-- internal/tui/views/repos.go: the repository that is being added, and the model of the view with its
-- messages and commands. The text field is a parameter: the package bubbles/textinput keeps its
-- text and reads the keys that are typed.
use uruflow.Prelude.{
  ℕ, ◌==◌, Bool, true, false, List, [], ◌∷◌, Option, none, some, Text, bytes, if◌then◌else◌,
}
use uruflow.Services.{ServiceError}
use uruflow.Tui.Logs.{nth}
use uruflow.Tui.Switch.{RepoMode, repo_list, repo_add}
use uruflow.Tui.Rows.{RepoRow, ChoiceRow}
use uruflow.Tui.Dialog.{Dialog, no_dialog}

-- `NewRepoData`
pub record NewRepo : Type 0 where
  pub name : Text
  pub url : Text
  pub branch : Text
  pub path : Text
  pub agent_id : Text
  pub agent_name : Text
  pub auto_deploy : Bool
  pub build_system : Text
  pub build_file : Text

-- What may go wrong: a text, or what `TriggerDeploy` returns.
pub data Problem : Type 0 where
  told : Text → Problem
  not_deployed : ServiceError → Problem

pub data Msg : Type 0 where
  key : Text → Msg
  spinner_tick : Msg
  added : Text → Msg
  not_added : Text → Msg
  fetched : List RepoRow → Msg
  fetched_agents : List ChoiceRow → Msg
  failed : Problem → Msg
  other : Msg

-- A command keeps what it needs of the model that gave it.
pub data Cmd : Type 0 where
  fetch : Cmd
  spin : Cmd
  blink : Cmd
  of_input : Cmd
  deploy : List RepoRow → ℕ → Cmd
  add : NewRepo → Cmd
  delete : Text → Cmd

-- textinput.Model
pub record TextInput (T : Type 0) : Type 0 where
  pub value : T → Text
  pub set_value : T → Text → T
  pub set_placeholder : T → Text → T
  pub focus : T → T
  pub update : T → Msg → T

pub record ReposModel (T : Type 0) : Type 0 where
  pub repos : List RepoRow
  pub agents : List ChoiceRow
  pub cursor : ℕ
  pub expanded : Bool
  pub mode : RepoMode
  pub add_step : ℕ
  pub new_repo : NewRepo
  pub agent_cursor : ℕ
  pub build_cursor : ℕ
  pub dialog : Dialog
  pub loading : Bool
  pub spinner_frame : ℕ
  pub input : T
  pub error : Option Problem

-- `buildSystems`
abbrev pub build_systems : List Text
build_systems = bytes "compose" ∷ bytes "dockerfile" ∷ bytes "makefile" ∷ []

abbrev pub blank_repo : NewRepo
blank_repo = record {
  name = [];
  url = [];
  branch = bytes "main";
  path = [];
  agent_id = [];
  agent_name = [];
  auto_deploy = true;
  build_system = bytes "compose";
  build_file = [];
}

-- `NewReposModel`, with its text field.
abbrev pub new_repos : {T : Type 0} → T → ReposModel T
new_repos input = record {
  repos = [];
  agents = [];
  cursor = 0;
  expanded = false;
  mode = repo_list;
  add_step = 0;
  new_repo = blank_repo;
  agent_cursor = 0;
  build_cursor = 0;
  dialog = no_dialog;
  loading = false;
  spinner_frame = 0;
  input = input;
  error = none;
}

abbrev pub with_build_system : NewRepo → Option Text → Option NewRepo
with_build_system r none = none
with_build_system r (some b) = some (record r { build_system = b })

-- What a step keeps of the text field, or of the choice of a build system.
unfoldable pub noted : NewRepo → ℕ → Text → ℕ → Option NewRepo
unfolding nth
noted r step text build_cursor =
    if step == 0
    then some (record r { name = text })
    else if step == 1
    then some (record r { url = text })
    else if step == 2
    then some (record r { branch = text })
    else if step == 3
    then with_build_system r (nth build_cursor build_systems)
    else if step == 4
    then some (record r { build_file = text })
    else if step == 5
    then some (record r { path = text })
    else some r

abbrev pub is_adding : RepoMode → Bool
is_adding repo_add = true
is_adding _ = false
