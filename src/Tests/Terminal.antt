-- ===== src/Tests/Terminal.antt =====
-- The terminal's views at concrete states, and runs of them.
use uruflow.Prelude.{
  false, eqb, ◌&&◌, ◌≡◌, refl, ◌+◌, ◌-◌, true, [], ◌∷◌, none, some, List, bytes, leb, length, drop,
  if◌then◌else◌,
}
use uruflow.Tui.Logs.{LogRow, LogsModel, view, fetched_logs, update, visible_rows, rows_from, nth}
use uruflow.Tui.Switch.{
  Nav, agents, agent_list, repo_list, crashed, press, unless_typing, is_input_active,
  on_command_key, open_logs,
}
use uruflow.Tui.Switch.Moves.{is_crash, lists_past_end, press-crash}
use uruflow.Tui.Logs.Window.{follow_shows_last}

abbrev following : LogsModel
following = record {
  width = 80;
  height = 14;
  mode = view;
  deployments = [];
  cursor = 0;
  deployment_id = bytes "d1";
  repo = bytes "site";
  commit = [];
  logs = [];
  offset = 0;
  auto_follow = true;
  error = none;
}

abbrev row : LogRow
row = record { time = []; content = bytes "Running: make"; stream = bytes "stdout" }

abbrev last : LogRow
last = record { time = []; content = bytes "Completed"; stream = bytes "stdout" }

abbrev fetched : List LogRow
fetched = row ∷ row ∷ last ∷ []

follow_shows_last_example :
    visible_rows (update following (fetched_logs fetched)).0
    ≡ some (if leb 13 14 then drop (length fetched + 12 - 14) fetched else [])
follow_shows_last_example = follow_shows_last following fetched refl

two_last : visible_rows (update following (fetched_logs fetched)).0 ≡ some (row ∷ last ∷ [])
unfolding visible_rows update rows_from nth
two_last = refl

-- Two agents were listed; one was deleted, and the cursor stayed.
abbrev shorter : Nav
shorter = record {
  active = agents;
  show_help = false;
  agent_mode = agent_list;
  repo_mode = repo_list;
  reads_log = false;
  follows_container = false;
  container_counts = 1 ∷ [];
  agent_cursor = 1;
}

press-crash_example :
    is_crash (press shorter (bytes "l")).1
    ≡ (eqb (bytes "l") (bytes "l") && lists_past_end agents agent_list (1 ∷ []) 1)
press-crash_example = press-crash shorter (bytes "l")

stopped : (press shorter (bytes "l")).1 ≡ crashed
unfolding press unless_typing is_input_active on_command_key open_logs nth eqb
stopped = refl
