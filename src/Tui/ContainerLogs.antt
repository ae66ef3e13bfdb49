-- ===== src/Tui/ContainerLogs.antt =====
-- internal/tui/views/container_logs.go: the containers of an agent, and the log of one that is
-- followed. `none` is a panic; a call is what the TCP server is asked for. The printing of a Unix
-- time as a time of day is an argument.
pub mod Buffer
pub mod Running
pub mod Panics
use uruflow.Prelude.{
  ℕ, zero, suc, ◌+◌, ◌-◌, Bool, true, false, not, ◌&&◌, List, [], ◌∷◌, ◌++◌, Option, none, some,
  Text, bytes, eqb, is_nil, ltb, leb, length, drop, ◌==◌, if◌then◌else◌,
}
use uruflow.Prelude.Int.{ℤ}
use uruflow.Protocol.Payloads.{ContainerLogsDataPayload}
use uruflow.Tui.Logs.{LogRow, nth, rows_from, visible_lines}
use uruflow.Tui.Rows.{AgentRow, ContainerRow}
use uruflow.Tui.Dialog.{one_of}

pub record ContainerLogsModel : Type 0 where
  pub height : ℕ
  pub agent_id : Text
  pub agent_name : Text
  pub container_id : Text
  pub container_name : Text
  pub logs : List LogRow
  pub offset : ℕ
  pub auto_follow : Bool
  pub follows : Bool
  pub containers : List ContainerRow
  pub cursor : ℕ

pub data Msg : Type 0 where
  key : Text → Msg
  log_line : ContainerLogsDataPayload → Msg
  other : Msg

-- A stream is asked for with the last 100 lines, and is followed.
pub data Call : Type 0 where
  stream : Text → Text → Call
  stop : Text → Text → Call

abbrev pub Next : Type 0
Next = Option (ContainerLogsModel × List Call)

-- `SetContainer`
unfoldable pub set_container : ContainerLogsModel → Text → Text → ContainerLogsModel × List Call
set_container m id name = (
  record m {
    container_id = id;
    container_name = name;
    logs = [];
    offset = 0;
    auto_follow = true;
    follows = true;
  },
  stream m.agent_id id ∷ [],
)

abbrev pub set_only : ContainerLogsModel → List ContainerRow → ContainerLogsModel × List Call
set_only m (c ∷ []) = set_container m c.name c.name
set_only m _ = (m, [])

-- `SetAgent`
unfoldable pub set_agent : ContainerLogsModel → AgentRow → ContainerLogsModel × List Call
unfolding set_container
set_agent m a =
    set_only
      (record m {
        agent_id = a.id;
        agent_name = a.name;
        containers = a.containers;
        follows = false;
        cursor = 0;
      })
      a.containers

-- `StopStream`
unfoldable pub stop_stream : ContainerLogsModel → List Call
stop_stream m =
    if is_nil m.agent_id
    then []
    else if is_nil m.container_id
    then []
    else stop m.agent_id m.container_id ∷ []

abbrev pub open_row : ContainerLogsModel → Option ContainerRow → Next
open_row m none = none
open_row m (some c) = some (set_container m c.name c.name)

-- The keys among the containers.
unfoldable pub update_select : ContainerLogsModel → Text → Next
unfolding set_container nth
update_select m pressed =
    if one_of pressed (bytes "up" ∷ bytes "k" ∷ [])
    then some (record m { cursor = m.cursor - 1 }, [])
    else if one_of pressed (bytes "down" ∷ bytes "j" ∷ [])
    then some (
      (if ltb (suc m.cursor) (length m.containers) then record m { cursor = suc m.cursor } else m),
      [],
    )
    else if eqb pressed (bytes "enter")
    then (if is_nil m.containers then some (m, []) else open_row m (nth m.cursor m.containers))
    else some (m, [])

-- len(m.Logs) - (m.Height - 12), at least zero.
abbrev pub max_offset : ContainerLogsModel → ℕ
max_offset m = length m.logs + 12 - m.height

abbrev pub to_end : ContainerLogsModel → ContainerLogsModel
to_end m = record m { offset = max_offset m }

abbrev toggle_follow : ContainerLogsModel → ContainerLogsModel
toggle_follow m =
    if m.auto_follow
    then record m { auto_follow = false }
    else to_end (record m { auto_follow = true })

-- The keys in the log.
unfoldable pub update_view : ContainerLogsModel → Text → ContainerLogsModel × List Call
unfolding stop_stream
update_view m pressed =
    if eqb pressed (bytes "esc")
    then (record m { follows = false }, stop_stream m)
    else if one_of pressed (bytes "up" ∷ bytes "k" ∷ [])
    then (
      (if ltb 0 m.offset then record m { offset = m.offset - 1; auto_follow = false } else m),
      [],
    )
    else if one_of pressed (bytes "down" ∷ bytes "j" ∷ [])
    then (
      (if ltb m.offset (length m.logs - visible_lines m.height)
          then record m { offset = suc m.offset }
          else m),
      [],
    )
    else if eqb pressed (bytes "g")
    then (record m { offset = 0; auto_follow = false }, [])
    else if eqb pressed (bytes "G")
    then (to_end (record m { auto_follow = true }), [])
    else if eqb pressed (bytes "f")
    then (toggle_follow m, [])
    else if eqb pressed (bytes "c")
    then (record m { logs = []; offset = 0 }, [])
    else (m, [])

-- A line more; of more than 2000 the first goes.
unfoldable pub append_line : ContainerLogsModel → LogRow → ContainerLogsModel
append_line m row =
    let logs = m.logs ++ row ∷ [] in
    let m' =
      if ltb 2000 (length logs)
      then record m { logs = drop 1 logs; offset = m.offset - 1 }
      else record m { logs = logs } in
    if m.auto_follow then to_end m' else m'

module _ (time_of_day : ℤ → Text) where
  abbrev pub row_of : ContainerLogsDataPayload → LogRow
  row_of p = record { time = time_of_day p.timestamp; content = p.line; stream = p.stream }

  abbrev pub is_mine : ContainerLogsModel → ContainerLogsDataPayload → Bool
  is_mine m p = m.follows && eqb p.container_id m.container_id

  -- `Update`
  unfoldable pub update : ContainerLogsModel → Msg → Next
  unfolding update_select update_view append_line
  update m (key pressed) =
      if m.follows then some (update_view m pressed) else update_select m pressed
  update m (log_line p) = some ((if is_mine m p then append_line m (row_of p) else m), [])
  update m other = some (m, [])

-- The rows of `viewLogs`; `none` is a panic.
unfoldable pub visible_rows : ContainerLogsModel → Option (List LogRow)
unfolding rows_from
visible_rows m =
    let last = m.offset + visible_lines m.height in
    let end = if ltb (length m.logs) last then length m.logs else last in
    rows_from (end - m.offset) m.offset m.logs
