-- ===== src/Tui/Repos/Panics.antt =====
-- When a key stops the view of internal/tui/views/repos.go with an index out of range.
use uruflow.Prelude.{
  ℕ, Bool, true, false, not, ◌&&◌, List, [], ◌∷◌, Option, none, some, Text, bytes, eqb, is_nil, leb,
  ltb, length, ◌≡◌, refl, arith, Bool-cases, inl, inr,
}
use uruflow.Tui.Logs.{nth}
use uruflow.Tui.Run.{Reached}
use uruflow.Tui.Cursor.{is_none, nth-is_none, delete_keys}
use uruflow.Tui.Switch.{RepoMode, repo_list, repo_add, repo_select_agent, repo_confirm_delete}
use uruflow.Tui.Dialog.{one_of, Answer, closed, toggled, confirmed, ignored, answer}
use uruflow.Tui.Dialog.Keys.{one_of_other, eqb_other, confirms, is_yes, answer-is_yes}
use uruflow.Tui.Repos.{
  NewRepo, Msg, key, spinner_tick, added, not_added, fetched, fetched_agents, failed, other, Cmd,
  TextInput, ReposModel, new_repos, build_systems, update, on_key, answered, update_list,
  update_add, update_select_agent, update_confirm_delete, enter_step, stepped, choose, type_in,
  noted, with_build_system,
}
use uruflow.Tui.Repos.Wizard.{is_ready, run-is_ready}

-- Does the key take a row past the end of its list?
abbrev pub is_past : {T : Type 0} → ReposModel T → RepoMode → Text → Bool
is_past m repo_list pressed =
    one_of pressed delete_keys && not (is_nil m.repos) && leb (length m.repos) m.cursor
is_past m repo_confirm_delete pressed = confirms m.dialog pressed && leb (length m.repos) m.cursor
is_past m repo_select_agent pressed =
    eqb pressed (bytes "enter") && not (is_nil m.agents) && leb (length m.agents) m.agent_cursor
is_past m repo_add pressed = false

abbrev pub takes_past : {T : Type 0} → ReposModel T → Msg → Bool
takes_past m (key pressed) = is_past m m.mode pressed
takes_past m _ = false

build_panic : (r : NewRepo) (o : Option Text) → is_none (with_build_system r o) ≡ is_none o
build_panic r none = refl
build_panic r (some b) = refl

pub noted_panic :
    (r : NewRepo) (step n : ℕ) (text : Text)
    → ltb n 3 ≡ true
    → is_none (noted r step text n) ≡ false
unfolding noted
noted_panic r step n text few =
    ground (arith, few, build_panic r (nth n build_systems), nth-is_none n build_systems)

module _ {T : Type 0} (field : TextInput T) (m : ReposModel T) (pressed : Text) where
  list_panic : is_none (update_list field m pressed) ≡ is_past m repo_list pressed
  unfolding update_list one_of eqb
  list_panic = elim (Bool-cases (one_of pressed delete_keys)) [
    | inl is ↦ ground (
      arith,
      is,
      nth-is_none m.cursor m.repos,
      one_of_other pressed delete_keys (bytes "up" ∷ bytes "k" ∷ []) refl is,
      one_of_other pressed delete_keys (bytes "down" ∷ bytes "j" ∷ []) refl is,
      one_of_other pressed delete_keys (bytes "+" ∷ bytes "n" ∷ []) refl is,
      eqb_other pressed delete_keys (bytes "enter") refl is,
    )
    | inr not_one ↦ ground (arith, not_one)
  ]

  answered_panic :
      (a : Answer) → is_none (answered field m a) ≡ (is_yes a && leb (length m.repos) m.cursor)
  answered_panic confirmed = ground (arith, nth-is_none m.cursor m.repos)
  answered_panic closed = refl
  answered_panic toggled = refl
  answered_panic ignored = refl

  confirm_panic :
      is_none (update_confirm_delete field m pressed) ≡ is_past m repo_confirm_delete pressed
  unfolding update_confirm_delete
  confirm_panic =
      ground (arith, answered_panic (answer m.dialog pressed), answer-is_yes m.dialog pressed)

  select_panic : is_none (update_select_agent field m pressed) ≡ is_past m repo_select_agent pressed
  unfolding update_select_agent one_of eqb
  select_panic = elim (Bool-cases (eqb pressed (bytes "enter"))) [
    | inl enter ↦
        let is : one_of pressed (bytes "enter" ∷ []) ≡ true = ground (arith, enter) in
        ground (
          arith,
          enter,
          nth-is_none m.agent_cursor m.agents,
          one_of_other pressed (bytes "enter" ∷ []) (bytes "up" ∷ bytes "k" ∷ []) refl is,
          one_of_other pressed (bytes "enter" ∷ []) (bytes "down" ∷ bytes "j" ∷ []) refl is,
          eqb_other pressed (bytes "enter" ∷ []) (bytes "esc") refl is,
        )
    | inr not_enter ↦ ground (arith, not_enter)
  ]

  stepped_panic : (o : Option NewRepo) → is_none (stepped field m o) ≡ is_none o
  stepped_panic none = refl
  stepped_panic (some r) = refl

  enter_panic : ltb m.build_cursor 3 ≡ true → is_none (enter_step field m) ≡ false
  unfolding enter_step
  enter_panic few =
      let text = field.value m.input in
      ground (
        arith,
        stepped_panic (noted m.new_repo m.add_step text m.build_cursor),
        noted_panic m.new_repo m.add_step m.build_cursor text few,
      )

  typed_panic : (m' : ReposModel T) (msg : Msg) → is_none (type_in field m' msg) ≡ false
  typed_panic m' msg = ground arith

  add_panic : ltb m.build_cursor 3 ≡ true → is_none (update_add field m pressed) ≡ false
  unfolding update_add
  add_panic few =
      ground (arith, enter_panic few, typed_panic (choose field m pressed) (key pressed))

  mode_panic :
      (mode : RepoMode)
      → is_ready m ≡ true
      → is_none (on_key field m mode pressed) ≡ is_past m mode pressed
  unfolding is_ready
  mode_panic repo_list h = list_panic
  mode_panic repo_add h = add_panic (ground (arith, h))
  mode_panic repo_select_agent h = select_panic
  mode_panic repo_confirm_delete h = confirm_panic

msg_panic :
    {T : Type 0} (field : TextInput T) (m : ReposModel T) (msg : Msg)
    → is_ready m ≡ true
    → is_none (update field m msg) ≡ takes_past m msg
unfolding update
msg_panic field m (key pressed) h = mode_panic field m pressed m.mode h
msg_panic field m spinner_tick h = ground arith
msg_panic field m (added name) h = refl
msg_panic field m (not_added e) h = refl
msg_panic field m (fetched rows) h = refl
msg_panic field m (fetched_agents rows) h = refl
msg_panic field m (failed e) h = refl
msg_panic field m other h = ground arith

-- In every run of the view of repositories a message stops it with an index out of range exactly if
-- it is a key that takes a row past the end: the repository at the cursor, to ask whether it is
-- deleted or to delete it, or the agent at the cursor, to choose it. No step that adds a repository
-- does.
pub update-takes_past :
    {T : Type 0} (field : TextInput T) (input : T) (m : ReposModel T) (cs : List Cmd) (msg : Msg)
    → Reached (update field) (new_repos input) m cs
    → is_none (update field m msg) ≡ takes_past m msg
update-takes_past field input m cs msg run =
    msg_panic field m msg (run-is_ready field input m cs run)
