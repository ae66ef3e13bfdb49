-- ===== src/Tui/Agents/Input.antt =====
-- The name that is typed in internal/tui/views/agents.go.
use uruflow.Prelude.{
  ◌&&◌, ◌-◌, ◌≤◌, Bool, true, false, List, [], ◌∷◌, Option, none, some, Text, is_nil, leb, length,
  ◌≡◌, refl, arith, length-append, length-take_le,
}
use uruflow.Tui.Run.{Reached, Reached-safe, safe, every}
use uruflow.Tui.Switch.{AgentMode, agent_list, agent_add, agent_result, agent_confirm_delete}
use uruflow.Tui.Rows.{AgentRow}
use uruflow.Tui.Dialog.{Answer, closed, toggled, confirmed, ignored, answer}
use uruflow.Tui.Logs.{nth}
use uruflow.Tui.Agents.{
  AgentsModel, new_agents, Msg, key, spinner_tick, added, not_added, fetched, failed, other, Cmd,
  add, Next, update, on_key, ask, delete_at, answered, update_list, update_add, update_result,
  update_confirm_delete,
}

abbrev is_short : AgentsModel → Bool
is_short m = leb (length m.input) 30

-- A name that is asked to be added has from 1 to 30 bytes.
abbrev pub is_allowed : Cmd → Bool
is_allowed (add name) = leb 1 (length name) && leb (length name) 30
is_allowed _ = true

abbrev is_safe : Next → Bool
is_safe = safe is_short is_allowed

positive : (t : Text) → is_nil t ≡ false → 1 ≤ length t
positive [] e = cc
positive (c ∷ t) e = ground arith

module _ (m : AgentsModel) (pressed : Text) (h : is_short m ≡ true) where
  add-is_safe : is_safe (update_add m pressed) ≡ true
  unfolding update_add every
  add-is_safe = ground (
    arith,
    h,
    positive m.input,
    length-append m.input pressed,
    length-take_le (length m.input - 1) m.input,
  )

  result-is_safe : is_safe (update_result m pressed) ≡ true
  unfolding update_result every
  result-is_safe = ground (arith, h)

  ask-is_safe : (o : Option AgentRow) → is_safe (ask m o) ≡ true
  unfolding every
  ask-is_safe none = refl
  ask-is_safe (some a) = ground (arith, h)

  list-is_safe : is_safe (update_list m pressed) ≡ true
  unfolding update_list every
  list-is_safe = ground (arith, h, ask-is_safe (nth m.cursor m.agents))

  delete-is_safe : (o : Option AgentRow) → is_safe (delete_at m o) ≡ true
  unfolding every
  delete-is_safe none = refl
  delete-is_safe (some a) = ground (arith, h)

  confirm-is_safe : (a : Answer) → is_safe (answered m a) ≡ true
  unfolding every
  confirm-is_safe closed = ground (arith, h)
  confirm-is_safe toggled = ground (arith, h)
  confirm-is_safe confirmed = delete-is_safe (nth m.cursor m.agents)
  confirm-is_safe ignored = ground (arith, h)

  key-is_safe : (mode : AgentMode) → is_safe (on_key m mode pressed) ≡ true
  unfolding update_confirm_delete
  key-is_safe agent_list = list-is_safe
  key-is_safe agent_add = add-is_safe
  key-is_safe agent_result = result-is_safe
  key-is_safe agent_confirm_delete = confirm-is_safe (answer m.dialog pressed)

update-is_safe : (m : AgentsModel) (msg : Msg) → is_short m ≡ true → is_safe (update m msg) ≡ true
unfolding update every
update-is_safe m (key pressed) h = key-is_safe m pressed h m.mode
update-is_safe m spinner_tick h = ground (arith, h)
update-is_safe m (added r) h = ground (arith, h)
update-is_safe m (not_added e) h = ground (arith, h)
update-is_safe m (fetched rows) h = ground (arith, h)
update-is_safe m (failed e) h = ground (arith, h)
update-is_safe m other h = ground (arith, h)

-- Whatever messages the view of agents gets, the name that is typed has at most 30 bytes, and every
-- name that is asked to be added has from 1 to 30.
pub names_are_short :
    (m : AgentsModel) (cs : List Cmd)
    → Reached update new_agents m cs
    → (length m.input ≤ 30) × (every is_allowed cs ≡ true)
names_are_short m cs run =
    let (short, allowed) = Reached-safe is_short is_allowed refl update-is_safe m cs run in
    (ground (arith, short), allowed)
