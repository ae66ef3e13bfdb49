-- ===== src/Tui/Agents/Panics.antt =====
-- When a key stops the view of internal/tui/views/agents.go with an index out of range.
use uruflow.Prelude.{
  ◌≤◌, Bool, true, false, not, ◌&&◌, List, [], ◌∷◌, none, some, Text, bytes, eqb, is_nil, leb,
  length, ◌≡◌, refl, sym, subst, arith, Bool-cases, inl, inr,
}
use uruflow.Tui.Logs.{nth}
use uruflow.Tui.Cursor.{is_none, nth-is_none, delete_keys, nth_past, nth_inside}
use uruflow.Tui.Switch.{AgentMode, agent_list, agent_add, agent_result, agent_confirm_delete}
use uruflow.Tui.Rows.{AgentRow}
use uruflow.Tui.Dialog.{
  Dialog, delete_agent_dialog, hidden, one_of, Answer, closed, toggled, confirmed, ignored, answer,
}
use uruflow.Tui.Dialog.Keys.{one_of_other, eqb_other, confirms, is_yes, answer-is_yes}
use uruflow.Tui.Agents.{
  AgentsModel, Msg, key, delete, spin, spinner_tick, added, not_added, fetched, failed, other,
  update, on_key, ask, delete_at, answered, update_list, update_add, update_result,
  update_confirm_delete,
}

-- Does the key take the agent at the cursor?
abbrev pub takes_row : AgentMode → List AgentRow → Dialog → Text → Bool
takes_row agent_list rows d pressed = one_of pressed delete_keys && not (is_nil rows)
takes_row agent_confirm_delete rows d pressed = confirms d pressed
takes_row _ rows d pressed = false

abbrev pub takes : AgentsModel → Msg → Bool
takes m (key pressed) = takes_row m.mode m.agents m.dialog pressed
takes m _ = false

list_panic :
    (m : AgentsModel) (pressed : Text)
    → is_none (update_list m pressed)
      ≡ (takes_row agent_list m.agents m.dialog pressed && leb (length m.agents) m.cursor)
unfolding update_list one_of eqb
list_panic m pressed = elim (Bool-cases (one_of pressed delete_keys)) [
  | inl is ↦ ground (
    arith,
    is,
    nth-is_none m.cursor m.agents,
    one_of_other pressed delete_keys (bytes "up" ∷ bytes "k" ∷ []) refl is,
    one_of_other pressed delete_keys (bytes "down" ∷ bytes "j" ∷ []) refl is,
    one_of_other pressed delete_keys (bytes "+" ∷ bytes "n" ∷ []) refl is,
    eqb_other pressed delete_keys (bytes "enter") refl is,
  )
  | inr not_one ↦ ground (arith, not_one)
]

answered-panic :
    (m : AgentsModel) (a : Answer)
    → is_none (answered m a) ≡ (is_yes a && leb (length m.agents) m.cursor)
answered-panic m confirmed = ground (arith, nth-is_none m.cursor m.agents)
answered-panic m closed = refl
answered-panic m toggled = refl
answered-panic m ignored = refl

confirm_panic :
    (m : AgentsModel) (pressed : Text)
    → is_none (update_confirm_delete m pressed)
      ≡ (confirms m.dialog pressed && leb (length m.agents) m.cursor)
unfolding update_confirm_delete
confirm_panic m pressed =
    ground (arith, answered-panic m (answer m.dialog pressed), answer-is_yes m.dialog pressed)

add_panic : (m : AgentsModel) (pressed : Text) → is_none (update_add m pressed) ≡ false
unfolding update_add
add_panic m pressed = ground arith

result_panic : (m : AgentsModel) (pressed : Text) → is_none (update_result m pressed) ≡ false
unfolding update_result
result_panic m pressed = ground arith

key_panic :
    (m : AgentsModel) (mode : AgentMode) (pressed : Text)
    → is_none (on_key m mode pressed)
      ≡ (takes_row mode m.agents m.dialog pressed && leb (length m.agents) m.cursor)
key_panic m agent_list pressed = list_panic m pressed
key_panic m agent_confirm_delete pressed = confirm_panic m pressed
key_panic m agent_add pressed = add_panic m pressed
key_panic m agent_result pressed = result_panic m pressed

-- A message stops the view with an index out of range exactly if it is a key that takes the agent
-- at the cursor, to ask whether it is deleted or to delete it, and the cursor is past the end of
-- the list.
pub update-panic :
    (m : AgentsModel) (msg : Msg)
    → is_none (update m msg) ≡ (takes m msg && leb (length m.agents) m.cursor)
unfolding update
update-panic m (key pressed) = key_panic m m.mode pressed
update-panic m spinner_tick = refl
update-panic m (added r) = refl
update-panic m (not_added e) = refl
update-panic m (fetched rows) = refl
update-panic m (failed e) = refl
update-panic m other = refl

list_asks :
    (m : AgentsModel) (a : AgentRow)
    → nth m.cursor m.agents ≡ some a
    → update_list m (bytes "-") ≡ ask m (some a)
unfolding update_list one_of eqb
list_asks m a at_cursor = rw (nth_inside m.cursor m.agents at_cursor, at_cursor)

list_stops :
    (m : AgentsModel)
    → length m.agents ≤ m.cursor
    → 1 ≤ length m.agents
    → update_list m (bytes "-") ≡ none
unfolding update_list one_of eqb
list_stops m past some_left = ground (arith, nth_past m.cursor m.agents past)

confirm_deletes :
    (m : AgentsModel) (a : AgentRow)
    → nth m.cursor m.agents ≡ some a
    → update_confirm_delete m (bytes "y") ≡ delete_at m (some a)
unfolding update_confirm_delete answer one_of eqb
confirm_deletes m a at_cursor = rw at_cursor

-- Where the cursor is on the last of at least two agents, "-" and "y" have it deleted; once the list
-- that is one shorter has arrived, the next "-" stops the program.
pub delete_last_panics :
    (m : AgentsModel) (a : AgentRow) (rows : List AgentRow)
    → m.mode ≡ agent_list
    → nth m.cursor m.agents ≡ some a
    → length rows ≡ m.cursor
    → 1 ≤ m.cursor
    → (asked : AgentsModel) × (gone : AgentsModel) × (shorter : AgentsModel) × (update m
          (key (bytes "-"))
        ≡ some (asked, []))
      × (update asked (key (bytes "y")) ≡ some (gone, delete a.id ∷ spin ∷ []))
      × (update gone (fetched rows) ≡ some (shorter, []))
      × (update shorter (key (bytes "-")) ≡ none)
unfolding update update_list update_confirm_delete
delete_last_panics m a rows listed at_cursor shorter_by_one two =
    let asked = record m { dialog = delete_agent_dialog a.name; mode = agent_confirm_delete } in
    let gone = record m { dialog = hidden asked.dialog; mode = agent_list; loading = true } in
    (
      asked,
      gone,
      record gone { agents = rows; loading = false },
      subst (λ mode. on_key m mode (bytes "-") ≡ some (asked, [])) (sym listed)
          (list_asks m a at_cursor),
      confirm_deletes asked a at_cursor,
      refl,
      list_stops (record gone { agents = rows; loading = false }) (ground arith) (ground arith),
    )

-- What "y" deletes is the agent at the cursor of the list as it is then: where a new list arrives
-- while the question about one agent is shown, the question stays and another agent is deleted.
pub delete_other :
    (m : AgentsModel) (a b : AgentRow) (rows : List AgentRow)
    → m.mode ≡ agent_list
    → nth m.cursor m.agents ≡ some a
    → nth m.cursor rows ≡ some b
    → (asked : AgentsModel) × (refreshed : AgentsModel) × (gone : AgentsModel) × (update m
          (key (bytes "-"))
        ≡ some (asked, []))
      × (update asked (fetched rows) ≡ some (refreshed, []))
      × (refreshed.dialog ≡ delete_agent_dialog a.name)
      × (update refreshed (key (bytes "y")) ≡ some (gone, delete b.id ∷ spin ∷ []))
unfolding update
delete_other m a b rows listed at_cursor at_cursor' =
    let asked = record m { dialog = delete_agent_dialog a.name; mode = agent_confirm_delete } in
    let refreshed = record asked { agents = rows; loading = false } in
    (
      asked,
      refreshed,
      record refreshed { dialog = hidden asked.dialog; mode = agent_list; loading = true },
      subst (λ mode. on_key m mode (bytes "-") ≡ some (asked, [])) (sym listed)
          (list_asks m a at_cursor),
      refl,
      refl,
      confirm_deletes refreshed b at_cursor',
    )
