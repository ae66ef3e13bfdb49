-- ===== src/Tests/Screens.antt =====
-- The view of a container's output and the first configuration, at concrete states.
use uruflow.Prelude.{◌≤◌, ◌≡◌, true, refl, arith, Text, bytes, eqb, List, [], ◌∷◌, Option, none}
use uruflow.Prelude.Int.{ℤ, pos}
use uruflow.Config.{Config}
use uruflow.Protocol.Payloads.{ContainerLogsDataPayload}
use uruflow.Tui.Run.{first, every}
use uruflow.Tui.Dialog.{one_of}
use uruflow.Tui.ContainerLogs
use uruflow.Tui.ContainerLogs.{ContainerLogsModel, log_line}
use uruflow.Tui.ContainerLogs.Running.{IsBuffered, buffer_lem}
use uruflow.Tui.Setup
use uruflow.Tui.Setup.{InitModel, new_init}
use uruflow.Tui.Setup.Fields.{is_port, is_plain, is_written, typed_lem}
use uruflow.Tests.Runs.{steps, steps-Reached}

abbrev clock : ℤ → Text
clock t = []

abbrev followed : ContainerLogsModel
followed = record {
  height = 20;
  agent_id = bytes "agent1";
  agent_name = bytes "box";
  container_id = bytes "web";
  container_name = bytes "web";
  logs = [];
  offset = 0;
  auto_follow = true;
  follows = true;
  containers = [];
  cursor = 0;
}

abbrev line_of : Text → ContainerLogsDataPayload
line_of id = record {
  container_id = id;
  line = bytes "ready";
  stream = bytes "stdout";
  timestamp = pos 0;
}

abbrev lines : List ContainerLogs.Msg
lines =
    log_line (line_of (bytes "web"))
    ∷ log_line (line_of (bytes "db"))
    ∷ ContainerLogs.key (bytes "up")
    ∷ log_line (line_of (bytes "web"))
    ∷ []

buffer_lem_example : IsBuffered clock followed lines
unfolding every one_of eqb
buffer_lem_example = buffer_lem clock followed lines refl (omega arith) refl

abbrev port_of : Text → ℤ
port_of t = pos 8000

abbrev disk_works : Config → Option Text
disk_works c = none

-- A digit is erased and another typed, the second option chosen, and the rest confirmed.
abbrev keys : List Text
keys =
    bytes "enter"
    ∷ bytes "backspace"
    ∷ bytes "1"
    ∷ bytes "enter"
    ∷ bytes "down"
    ∷ bytes "enter"
    ∷ bytes "j"
    ∷ bytes "enter"
    ∷ bytes "enter"
    ∷ []

abbrev set_up : InitModel × List Setup.Cmd
set_up = steps (Setup.update port_of (bytes "s1") disk_works) (new_init (bytes "s2"), []) keys

typed_lem_example :
    (is_port set_up.0.http_port ≡ true)
    × (is_port set_up.0.tcp_port ≡ true)
    × (every is_plain set_up.0.data_dir ≡ true)
    × (set_up.0.step ≤ 4)
    × (set_up.0.secret ≡ bytes "s2")
    × (every (is_written (bytes "s2")) set_up.1 ≡ true)
typed_lem_example = typed_lem port_of (bytes "s1") disk_works (bytes "s2") set_up.0 set_up.1 (
    steps-Reached (Setup.update port_of (bytes "s1") disk_works) (new_init (bytes "s2"))
      (new_init (bytes "s2"), []) keys first)
