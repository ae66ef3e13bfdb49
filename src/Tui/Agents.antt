-- ===== src/Tui/Agents.antt =====
-- internal/tui/views/agents.go: the list of agents, adding one and deleting one. `none` is a panic;
-- a command is what runs next and answers with a message.
pub mod Commands
pub mod Registering
pub mod Deleting
pub mod Panics
pub mod Input
use uruflow.Prelude.{
  ℕ, suc, ◌+◌, ◌-◌, Bool, true, false, not, List, [], ◌∷◌, ◌++◌, Option, none, some, Text, bytes,
  eqb, is_nil, ltb, leb, length, take, if◌then◌else◌,
}
use uruflow.Tui.Logs.{nth}
use uruflow.Tui.Switch.{AgentMode, agent_list, agent_add, agent_result, agent_confirm_delete}
use uruflow.Tui.Rows.{AgentRow}
use uruflow.Tui.Dialog.{
  Dialog, no_dialog, toggle_selection, hidden, delete_agent_dialog, one_of, Answer, closed, toggled,
  confirmed, ignored, answer,
}

-- `AgentAddResult`
pub record AddResult : Type 0 where
  pub name : Text
  pub id : Text
  pub token : Text

pub record AgentsModel : Type 0 where
  pub agents : List AgentRow
  pub cursor : ℕ
  pub expanded : Bool
  pub mode : AgentMode
  pub input : Text
  pub result : AddResult
  pub dialog : Dialog
  pub loading : Bool
  pub spinner_frame : ℕ
  pub error : Option Text

-- `NewAgentsModel`
abbrev pub new_agents : AgentsModel
new_agents = record {
  agents = [];
  cursor = 0;
  expanded = false;
  mode = agent_list;
  input = [];
  result = record { name = []; id = []; token = [] };
  dialog = no_dialog;
  loading = false;
  spinner_frame = 0;
  error = none;
}

-- `AgentResultMsg` has a name, an id and a token on success, and else an error.
pub data Msg : Type 0 where
  key : Text → Msg
  spinner_tick : Msg
  added : AddResult → Msg
  not_added : Text → Msg
  fetched : List AgentRow → Msg
  failed : Text → Msg
  other : Msg

pub data Cmd : Type 0 where
  fetch : Cmd
  spin : Cmd
  add : Text → Cmd
  delete : Text → Cmd

abbrev pub Next : Type 0
Next = Option (AgentsModel × List Cmd)

abbrev stay : AgentsModel → Next
stay m = some (m, [])

abbrev pub ask : AgentsModel → Option AgentRow → Next
ask m none = none
ask m (some a) =
    stay (record m { dialog = delete_agent_dialog a.name; mode = agent_confirm_delete })

-- `updateList`
unfoldable pub update_list : AgentsModel → Text → Next
unfolding nth
update_list m pressed =
    if one_of pressed (bytes "up" ∷ bytes "k" ∷ [])
    then stay (record m { cursor = m.cursor - 1 })
    else if one_of pressed (bytes "down" ∷ bytes "j" ∷ [])
    then stay
        (if ltb (suc m.cursor) (length m.agents) then record m { cursor = suc m.cursor } else m)
    else if eqb pressed (bytes "enter")
    then stay (record m { expanded = not m.expanded })
    else if one_of pressed (bytes "+" ∷ bytes "n" ∷ [])
    then stay (record m { mode = agent_add; input = []; error = none })
    else if one_of pressed (bytes "-" ∷ bytes "delete" ∷ bytes "backspace" ∷ [])
    then (if is_nil m.agents then stay m else ask m (nth m.cursor m.agents))
    else if eqb pressed (bytes "r")
    then some (record m { loading = true }, fetch ∷ spin ∷ [])
    else stay m

abbrev back_to_list : AgentsModel → AgentsModel
back_to_list m = record m { mode = agent_list; dialog = hidden m.dialog }

abbrev pub delete_at : AgentsModel → Option AgentRow → Next
delete_at m none = none
delete_at m (some a) = some (record (back_to_list m) { loading = true }, delete a.id ∷ spin ∷ [])

abbrev pub answered : AgentsModel → Answer → Next
answered m closed = stay (back_to_list m)
answered m toggled = stay (record m { dialog = toggle_selection m.dialog })
answered m confirmed = delete_at m (nth m.cursor m.agents)
answered m ignored = stay m

-- `updateConfirmDelete`
unfoldable pub update_confirm_delete : AgentsModel → Text → Next
unfolding answer nth
update_confirm_delete m pressed = answered m (answer m.dialog pressed)

-- `updateAdd`: a key that is not one of the three is typed as its name.
unfoldable pub update_add : AgentsModel → Text → Next
update_add m pressed =
    if eqb pressed (bytes "esc")
    then stay (record m { mode = agent_list; input = []; error = none })
    else if eqb pressed (bytes "enter")
    then (if is_nil m.input then stay m else some (m, add m.input ∷ []))
    else if eqb pressed (bytes "backspace")
    then stay (record m { input = take (length m.input - 1) m.input })
    else if leb (length m.input + length pressed) 30
    then stay (record m { input = m.input ++ pressed })
    else stay m

-- `updateResult`
unfoldable pub update_result : AgentsModel → Text → Next
update_result m pressed =
    if one_of pressed (bytes "esc" ∷ bytes "enter" ∷ [])
    then some (record m { mode = agent_list }, fetch ∷ [])
    else stay m

abbrev pub on_key : AgentsModel → AgentMode → Text → Next
on_key m agent_list pressed = update_list m pressed
on_key m agent_add pressed = update_add m pressed
on_key m agent_result pressed = update_result m pressed
on_key m agent_confirm_delete pressed = update_confirm_delete m pressed

-- `Update`
unfoldable pub update : AgentsModel → Msg → Next
unfolding update_list update_confirm_delete update_add update_result
update m (key pressed) = on_key m m.mode pressed
update m spinner_tick =
    some (record m { spinner_frame = suc m.spinner_frame }, if m.loading then spin ∷ [] else [])
update m (added r) =
    some (record m { result = r; mode = agent_result; error = none; loading = false }, fetch ∷ [])
update m (not_added e) = some (record m { error = some e; loading = false }, fetch ∷ [])
update m (fetched rows) = stay (record m { agents = rows; loading = false })
update m (failed e) = stay (record m { error = some e; loading = false })
update m other = stay m
