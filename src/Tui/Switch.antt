-- ===== src/Tui/Switch.antt =====
-- internal/tui/model.go: what a key does before the active view gets it. Of the views' models only
-- what it reads is here: their modes, the number of containers of each listed agent, and the cursor
-- among the agents.
pub mod Moves
use uruflow.Prelude.{
  ℕ, Bool, true, false, not, ◌&&◌, ◌||◌, List, [], ◌∷◌, Option, none, some, is_nil, Text, bytes,
  eqb, ltb, ◌==◌, if◌then◌else◌,
}
use uruflow.Tui.Logs.{nth}

-- `ViewState`
pub data View : Type 0 where
  dashboard : View
  agents : View
  repos : View
  alerts : View
  deploy : View
  logs : View
  init : View
  container_logs : View

pub data AgentMode : Type 0 where
  agent_list : AgentMode
  agent_add : AgentMode
  agent_result : AgentMode
  agent_confirm_delete : AgentMode

pub data RepoMode : Type 0 where
  repo_list : RepoMode
  repo_add : RepoMode
  repo_select_agent : RepoMode
  repo_confirm_delete : RepoMode

-- `reads_log` and `follows_container` are the second modes of the views of logs.
pub record Nav : Type 0 where
  pub active : View
  pub show_help : Bool
  pub agent_mode : AgentMode
  pub repo_mode : RepoMode
  pub reads_log : Bool
  pub follows_container : Bool
  pub container_counts : List ℕ
  pub agent_cursor : ℕ

-- The program ends, another view opens, the active view gets the key, or an index is out of range.
pub data Outcome : Type 0 where
  quit : Outcome
  moved : Outcome
  passed : Outcome
  crashed : Outcome

-- `isInputActive`
unfoldable pub is_input_active : Nav → Bool
is_input_active m = elim m.active [
  | agents ↦ elim m.agent_mode [ agent_add ↦ true | _ ↦ false ]
  | repos ↦ elim m.repo_mode [ repo_add ↦ true | repo_select_agent ↦ true | _ ↦ false ]
  | init ↦ true
  | _ ↦ false
]

-- Does the active view take the key that leads back?
abbrev keeps_escape : Nav → Bool
keeps_escape m = elim m.active [
  | dashboard ↦ true
  | init ↦ true
  | agents ↦ elim m.agent_mode [ agent_list ↦ false | _ ↦ true ]
  | repos ↦ elim m.repo_mode [ repo_list ↦ false | _ ↦ true ]
  | logs ↦ m.reads_log
  | container_logs ↦ m.follows_container
  | _ ↦ false
]

abbrev go_to : View → Nav → Nav × Outcome
go_to v m = (record m { active = v }, moved)

-- The view after this one.
unfoldable pub next_view : View → View
next_view dashboard = agents
next_view agents = repos
next_view repos = alerts
next_view alerts = logs
next_view _ = dashboard

-- `SetAgent`: the log of an only container is followed at once.
abbrev open_agent : Nav → Option ℕ → Nav × Outcome
open_agent m none = (m, crashed)
open_agent m (some containers) =
    go_to container_logs (record m { follows_container = containers == 1 })

-- "l": the logs of deployments, or of the containers of the agent at the cursor.
unfoldable pub open_logs : View → Nav → Nav × Outcome
unfolding nth
open_logs dashboard m = go_to logs m
open_logs deploy m = go_to logs m
open_logs repos m = go_to logs m
open_logs agents m =
    if is_nil m.container_counts
    then (m, passed)
    else open_agent m (nth m.agent_cursor m.container_counts)
open_logs _ m = (m, passed)

-- "q" quits in most views.
abbrev quits : View → Bool
quits init = false
quits deploy = false
quits container_logs = false
quits _ = true

abbrev is_dashboard : View → Bool
is_dashboard dashboard = true
is_dashboard _ = false

abbrev opens_deploy : View → Bool
opens_deploy dashboard = true
opens_deploy repos = true
opens_deploy _ = false

abbrev when : Bool → Nav × Outcome → Nav → Nav × Outcome
when b there m = if b then there else (m, passed)

-- The keys that are read only while no text is typed.
unfoldable pub on_command_key : Nav → Text → Nav × Outcome
unfolding next_view open_logs
on_command_key m pressed =
    if eqb pressed (bytes "q")
    then when (quits m.active) (m, quit) m
    else if eqb pressed (bytes "tab")
    then go_to (next_view m.active) m
    else if eqb pressed (bytes "a")
    then when (is_dashboard m.active) (go_to agents m) m
    else if eqb pressed (bytes "r")
    then when (is_dashboard m.active) (go_to repos m) m
    else if eqb pressed (bytes "x")
    then when (is_dashboard m.active) (go_to alerts m) m
    else if eqb pressed (bytes "d")
    then when (opens_deploy m.active) (go_to deploy m) m
    else if eqb pressed (bytes "l")
    then open_logs m.active m
    else (m, passed)

unfoldable pub unless_typing : Nav → Text → Nav × Outcome
unfolding is_input_active on_command_key
unless_typing m pressed = if is_input_active m then (m, passed) else on_command_key m pressed

-- The keys in `Update` of model.go, before the active view gets them: `crashed` is a panic there, and
-- a key is `passed` to the view whatever the view does with it.
unfoldable pub press : Nav → Text → Nav × Outcome
unfolding unless_typing
press m pressed =
    if eqb pressed (bytes "ctrl+c")
    then (m, quit)
    else if eqb pressed (bytes "?")
    then unless_typing (record m { show_help = not m.show_help }) pressed
    else if eqb pressed (bytes "esc") && not (keeps_escape m)
    then go_to dashboard m
    else unless_typing m pressed
