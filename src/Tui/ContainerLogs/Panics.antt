-- ===== src/Tui/ContainerLogs/Panics.antt =====
-- No key leads internal/tui/views/container_logs.go past the end of its containers.
use uruflow.Prelude.{
  Bool, true, false, ◌||◌, List, [], ◌∷◌, Option, none, some, Text, is_nil, ltb, length, ◌≡◌, refl,
  arith,
}
use uruflow.Prelude.Int.{ℤ}
use uruflow.Tui.Run.{Reached, Reached-safe, safe, every}
use uruflow.Tui.Cursor.{is_none, nth-is_none}
use uruflow.Tui.Logs.{nth, LogRow}
use uruflow.Tui.Rows.{AgentRow, ContainerRow}
use uruflow.Tui.ContainerLogs.{
  ContainerLogsModel, Msg, key, log_line, other, Call, Next, update, update_select, update_view,
  append_line, set_agent, set_container, open_row, set_only, row_of,
}

unfoldable in_list : ContainerLogsModel → Bool
in_list m = is_nil m.containers || ltb m.cursor (length m.containers)

abbrev any_call : Call → Bool
any_call c = true

every_call : (cs : List Call) → every any_call cs ≡ true
unfolding every
every_call [] = refl
every_call (c ∷ cs) = every_call cs

abbrev is_safe : Next → Bool
is_safe = safe in_list any_call

only-in_list :
    (m : ContainerLogsModel) (rows : List ContainerRow)
    → in_list m ≡ true
    → in_list (set_only m rows).0 ≡ true
unfolding set_container in_list
only-in_list m [] h = h
only-in_list m (c ∷ []) h = h
only-in_list m (c ∷ d ∷ rows) h = h

from_first : (rows : List ContainerRow) → (is_nil rows || ltb 0 (length rows)) ≡ true
from_first [] = refl
from_first (c ∷ rows) = ground arith

start-in_list : (m : ContainerLogsModel) (a : AgentRow) → in_list (set_agent m a).0 ≡ true
unfolding set_agent in_list
start-in_list m a = only-in_list _ a.containers (from_first a.containers)

open-is_safe :
    (m : ContainerLogsModel) (o : Option ContainerRow)
    → in_list m ≡ true
    → is_safe (open_row m o) ≡ true
unfolding set_container in_list every
open-is_safe m none h = refl
open-is_safe m (some c) h = ground (arith, h)

select-is_safe :
    (m : ContainerLogsModel) (pressed : Text)
    → in_list m ≡ true
    → is_safe (update_select m pressed) ≡ true
unfolding update_select in_list every
select-is_safe m pressed h = ground (arith, h, open-is_safe m (nth m.cursor m.containers))

view-in_list :
    (m : ContainerLogsModel) (pressed : Text)
    → in_list m ≡ true
    → in_list (update_view m pressed).0 ≡ true
unfolding update_view in_list
view-in_list m pressed h = ground (arith, h)

append-in_list :
    (m : ContainerLogsModel) (row : LogRow) → in_list m ≡ true → in_list (append_line m row) ≡ true
unfolding append_line in_list
append-in_list m row h = ground (arith, h)

view-is_safe :
    (m : ContainerLogsModel) (pressed : Text)
    → in_list m ≡ true
    → is_safe (some (update_view m pressed)) ≡ true
view-is_safe m pressed h =
    ground (arith, view-in_list m pressed h, every_call (update_view m pressed).1)

update-is_safe :
    (time_of_day : ℤ → Text) (m : ContainerLogsModel) (msg : Msg)
    → in_list m ≡ true
    → is_safe (update time_of_day m msg) ≡ true
unfolding update every
update-is_safe t m (key pressed) h =
    ground (arith, view-is_safe m pressed h, select-is_safe m pressed h)
update-is_safe t m (log_line p) h = ground (arith, h, append-in_list m (row_of t p) h)
update-is_safe t m other h = ground (arith, h)

open-runs : (m : ContainerLogsModel) (o : Option ContainerRow) → is_none (open_row m o) ≡ is_none o
open-runs m none = refl
open-runs m (some c) = refl

select-runs :
    (m : ContainerLogsModel) (pressed : Text)
    → in_list m ≡ true
    → is_none (update_select m pressed) ≡ false
unfolding update_select in_list
select-runs m pressed h =
    ground (arith, h, open-runs m (nth m.cursor m.containers), nth-is_none m.cursor m.containers)

-- From the moment an agent's containers are opened no message stops the view with an index out of
-- range.
pub never_panics :
    (time_of_day : ℤ → Text) (m₀ m : ContainerLogsModel) (a : AgentRow) (cs : List Call) (msg : Msg)
    → Reached (update time_of_day) (set_agent m₀ a).0 m cs
    → is_none (update time_of_day m msg) ≡ false
unfolding update
never_panics t m₀ m a cs (key pressed) run =
    let (inside, _) =
      Reached-safe in_list any_call (start-in_list m₀ a) (update-is_safe t) m cs run in
    ground (arith, select-runs m pressed inside)
never_panics t m₀ m a cs (log_line p) run = refl
never_panics t m₀ m a cs other run = refl
