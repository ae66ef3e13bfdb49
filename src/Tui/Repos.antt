-- ===== src/Tui/Repos.antt =====
-- internal/tui/views/repos.go: the list of repositories, deploying and deleting one, and the steps
-- that add one. `none` is a panic.
pub mod Commands
pub mod Registering
pub mod Wizard
pub mod Panics
pub mod Back
pub use uruflow.Tui.RepoState.{
  NewRepo, Problem, told, not_deployed, Msg, key, spinner_tick, added, not_added, fetched,
  fetched_agents, failed, other, Cmd, fetch, spin, blink, of_input, deploy, add, delete, TextInput,
  ReposModel, build_systems, blank_repo, new_repos, with_build_system, is_adding,
}
unfoldable pub use uruflow.Tui.RepoState.{noted}
use uruflow.Prelude.{
  ℕ, suc, ◌+◌, ◌-◌, ◌==◌, Bool, true, false, not, ◌&&◌, ◌||◌, List, [], ◌∷◌, Option, none, some,
  Text, bytes, eqb, is_nil, ltb, length, if◌then◌else◌,
}
use uruflow.Services.{ServiceError}
use uruflow.Tui.Logs.{nth}
use uruflow.Tui.Switch.{RepoMode, repo_list, repo_add, repo_select_agent, repo_confirm_delete}
use uruflow.Tui.Rows.{RepoRow, ChoiceRow}
use uruflow.Tui.Dialog.{
  Dialog, no_dialog, toggle_selection, hidden, delete_repo_dialog, one_of, Answer, closed, toggled,
  confirmed, ignored, answer,
}

module _ {T : Type 0} (field : TextInput T) where
  abbrev pub Next : Type 0
  Next = Option (ReposModel T × List Cmd)

  abbrev pub stay : ReposModel T → Next
  stay m = some (m, [])

  abbrev pub ask : ReposModel T → Option RepoRow → Next
  ask m none = none
  ask m (some r) =
      stay (record m { dialog = delete_repo_dialog r.name; mode = repo_confirm_delete })

  -- "+" begins with the first step.
  abbrev pub begin : ReposModel T → ReposModel T
  begin m = record m {
    mode = repo_add;
    add_step = 0;
    new_repo = blank_repo;
    build_cursor = 0;
    error = none;
    input = field.focus (field.set_placeholder (field.set_value m.input []) (bytes "my-service"));
  }

  -- `updateList`
  unfoldable pub update_list : ReposModel T → Text → Next
  unfolding nth
  update_list m pressed =
      if one_of pressed (bytes "up" ∷ bytes "k" ∷ [])
      then stay (record m { cursor = m.cursor - 1 })
      else if one_of pressed (bytes "down" ∷ bytes "j" ∷ [])
      then stay
          (if ltb (suc m.cursor) (length m.repos) then record m { cursor = suc m.cursor } else m)
      else if eqb pressed (bytes "enter")
      then some (m, if is_nil m.repos then [] else deploy m.repos m.cursor ∷ [])
      else if one_of pressed (bytes "+" ∷ bytes "n" ∷ [])
      then some (begin m, blink ∷ [])
      else if one_of pressed (bytes "-" ∷ bytes "delete" ∷ bytes "backspace" ∷ [])
      then (if is_nil m.repos then stay m else ask m (nth m.cursor m.repos))
      else if eqb pressed (bytes "r")
      then some (record m { loading = true }, fetch ∷ spin ∷ [])
      else if eqb pressed (bytes "e")
      then stay (record m { expanded = not m.expanded })
      else stay m

  abbrev pub back_to_list : ReposModel T → ReposModel T
  back_to_list m = record m { mode = repo_list; dialog = hidden m.dialog }

  abbrev pub delete_at : ReposModel T → Option RepoRow → Next
  delete_at m none = none
  delete_at m (some r) =
      some (record (back_to_list m) { loading = true }, delete r.name ∷ spin ∷ [])

  abbrev pub answered : ReposModel T → Answer → Next
  answered m closed = stay (back_to_list m)
  answered m toggled = stay (record m { dialog = toggle_selection m.dialog })
  answered m confirmed = delete_at m (nth m.cursor m.repos)
  answered m ignored = stay m

  -- `updateConfirmDelete`
  unfoldable pub update_confirm_delete : ReposModel T → Text → Next
  unfolding answer nth
  update_confirm_delete m pressed = answered m (answer m.dialog pressed)

  -- The text field shows again what the step had.
  unfoldable pub restored : T → NewRepo → ℕ → T
  restored input r step =
      if step == 0
      then field.set_value input r.name
      else if step == 1
      then field.set_value input r.url
      else if step == 2
      then field.set_value input r.branch
      else if step == 4
      then field.set_value input r.build_file
      else if step == 5
      then field.set_value input r.path
      else input

  -- "esc": one step back, or the list.
  unfoldable pub step_back : ReposModel T → ReposModel T
  unfolding restored
  step_back m =
      if ltb 0 m.add_step
      then record m {
        add_step = m.add_step - 1;
        input = restored m.input m.new_repo (m.add_step - 1);
      }
      else record m { mode = repo_list }

  -- The text field of a step that is entered from the one before.
  unfoldable pub prepared : T → ℕ → T
  prepared input step =
      let cleared = field.set_value input [] in
      if step == 1
      then field.set_placeholder cleared (bytes "https://github.com/user/repo.git")
      else if step == 2
      then field.set_value cleared (bytes "main")
      else if step == 4
      then field.set_placeholder cleared (bytes "docker-compose.yml")
      else if step == 5
      then field.set_placeholder cleared (bytes "./")
      else cleared

  unfoldable pub step_on : ReposModel T → NewRepo → ReposModel T
  unfolding prepared
  step_on m r =
      if ltb m.add_step 6
      then record m {
        new_repo = r;
        add_step = suc m.add_step;
        input = prepared m.input (suc m.add_step);
      }
      else record m { new_repo = r; mode = repo_select_agent; agent_cursor = 0 }

  abbrev pub stepped : ReposModel T → Option NewRepo → Next
  stepped m none = none
  stepped m (some r) = stay (step_on m r)

  -- "enter": a name and an address must not be empty.
  unfoldable pub enter_step : ReposModel T → Next
  unfolding step_on noted
  enter_step m =
      let text = field.value m.input in
      if ltb m.add_step 2 && is_nil text
      then stay m
      else stepped m (noted m.new_repo m.add_step text m.build_cursor)

  -- The keys that choose, before the text field gets them.
  unfoldable pub choose : ReposModel T → Text → ReposModel T
  choose m pressed =
      if one_of pressed (bytes "left" ∷ bytes "h" ∷ [])
      then (if m.add_step == 3 then record m { build_cursor = m.build_cursor - 1 } else m)
      else if one_of pressed (bytes "right" ∷ bytes "l" ∷ [])
      then (if m.add_step == 3 && ltb (suc m.build_cursor) (length build_systems)
          then record m { build_cursor = suc m.build_cursor }
          else m)
      else if one_of pressed (bytes "tab" ∷ bytes " " ∷ [])
      then (if m.add_step == 6
          then record m {
            new_repo = record m.new_repo { auto_deploy = not m.new_repo.auto_deploy };
          }
          else m)
      else m

  -- The steps of a choice do not pass keys to the text field.
  abbrev pub type_in : ReposModel T → Msg → Next
  type_in m msg =
      if m.add_step == 3 || m.add_step == 6
      then stay m
      else some (record m { input = field.update m.input msg }, of_input ∷ [])

  -- `updateAdd`
  unfoldable pub update_add : ReposModel T → Text → Next
  unfolding enter_step step_back choose
  update_add m pressed =
      if eqb pressed (bytes "esc")
      then stay (step_back m)
      else if eqb pressed (bytes "enter")
      then enter_step m
      else type_in (choose m pressed) (key pressed)

  abbrev pub add_for : ReposModel T → Option ChoiceRow → Next
  add_for m none = none
  add_for m (some a) =
      let r = record m.new_repo { agent_id = a.id; agent_name = a.name } in
      some (record m { new_repo = r }, add r ∷ [])

  -- `updateSelectAgent`
  unfoldable pub update_select_agent : ReposModel T → Text → Next
  unfolding nth
  update_select_agent m pressed =
      if eqb pressed (bytes "esc")
      then stay (record m { mode = repo_add; add_step = 6 })
      else if one_of pressed (bytes "up" ∷ bytes "k" ∷ [])
      then stay (record m { agent_cursor = m.agent_cursor - 1 })
      else if one_of pressed (bytes "down" ∷ bytes "j" ∷ [])
      then stay (
          if ltb (suc m.agent_cursor) (length m.agents)
          then record m { agent_cursor = suc m.agent_cursor }
          else m)
      else if eqb pressed (bytes "enter")
      then (if is_nil m.agents then stay m else add_for m (nth m.agent_cursor m.agents))
      else stay m

  abbrev pub on_key : ReposModel T → RepoMode → Text → Next
  on_key m repo_list pressed = update_list m pressed
  on_key m repo_add pressed = update_add m pressed
  on_key m repo_select_agent pressed = update_select_agent m pressed
  on_key m repo_confirm_delete pressed = update_confirm_delete m pressed

  -- Any other message goes to the text field while a repository is added.
  abbrev pub to_field : ReposModel T → Msg → Next
  to_field m msg =
      if is_adding m.mode
      then some (record m { input = field.update m.input msg }, of_input ∷ [])
      else stay m

  -- `Update`
  unfoldable pub update : ReposModel T → Msg → Next
  unfolding update_list update_add update_select_agent update_confirm_delete
  update m (key pressed) = on_key m m.mode pressed
  update m spinner_tick =
      let m' = record m { spinner_frame = suc m.spinner_frame } in
      if m.loading then some (m', spin ∷ []) else to_field m' spinner_tick
  update m (added name) =
      some (record m { mode = repo_list; error = none; loading = false }, fetch ∷ [])
  update m (not_added e) = some (record m { error = some (told e); loading = false }, fetch ∷ [])
  update m (fetched rows) = stay (record m { repos = rows; loading = false })
  update m (fetched_agents rows) = stay (record m { agents = rows })
  update m (failed e) = stay (record m { error = some e; loading = false })
  update m other = to_field m other
