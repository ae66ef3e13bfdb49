-- ===== src/Tests/Agents.antt =====
-- The agent at a concrete machine, on which each program adds one to a counter and prints a line.
use uruflow.Prelude.{
  ◌≢◌, map, ◌+◌, ◌*◌, eqb, ◌≡◌, ◌⊎◌, refl, ℕ, zero, suc, count, arith, List, [], ◌∷◌, ◌++◌, none,
  some, Text, bytes, true, false, length, if◌then◌else◌,
}
use uruflow.Prelude.Int.{pos, ℤ}
use uruflow.Prelude.Maps.{lookup}
use uruflow.Protocol.Payloads.{CommandPayload}
use uruflow.Agent.Deploy.{LogLine, DeployConfig, Host, execute}
use uruflow.Models.Float.{float_zero}
use uruflow.Agent.Metrics.{Reading, Division, Statfs, Machine, Collector, collect, memory_of}
use uruflow.Agent.Metrics.Ranges.{IsPercent, collect-IsPercent}
use uruflow.Agent.Deploy.Plan.{Agrees, reference, execute-reference}
use uruflow.Agent.Docker.{ended, log_line, trim_space, stream_logs}
use uruflow.Agent.Docker.Frames.{wire, lines, stream_logs-wire}
use uruflow.Agent.Daemon.{Agent, stop_container_stream, disconnect}
use uruflow.Agent.Daemon.Tasks.{
  start_message, begin_deploy, log_message, begin_stream, register_stream, payload_of_line,
  handle_command, config_of,
}
use uruflow.Agent.Daemon.Streams.{Steps, here, next, started, Accounted, times, running}
use uruflow.Agent.Daemon.Streams.Accounts.{Steps-Accounted}
use uruflow.Agent.Daemon.Streams.Races.{late_end, lost_stream}
use uruflow.Agent.Daemon.Verdict.{told, verdict, is_deploy, verdict_message, handle_command-sent}
use uruflow.Agent.Daemon.Overlap.{emit_each, emit_log-overlap}
use uruflow.Agent.Daemon.Lines.{payload_of_line-log_line}
use uruflow.Tests.Fixtures.{json}

abbrev pub host : Host ℕ
host = record {
  join = λ dir name. dir ++ bytes "/" ++ name;
  dir_of = λ path. bytes "/repos";
  base_of = λ path. bytes "site";
  run = λ n dir args. (suc n, record { stream = bytes "stdout"; line = dir } ∷ [], none);
  script = λ n dir cmd env. (suc n, record { stream = bytes "stderr"; line = cmd } ∷ [], none);
  output = λ n dir args. (n, some (bytes "0123456789"));
  stat = λ n path. true;
  missing = λ n path. false;
  make_dirs = λ n path. n;
  trim_space = λ t. t;
  print_duration = λ d. bytes "1s";
}

abbrev site : DeployConfig
site = record {
  url = bytes "git@host:site";
  name = bytes "site";
  branch = bytes "main";
  commit = bytes "0123456789";
  path = [];
  build_system = bytes "compose";
  build_file = [];
  build_cmd = [];
  env = [];
}

execute-reference_example :
    Agrees host
      (execute host (pos 1) (bytes "/repos") site 0)
      (reference host (bytes "/repos") site 0)
execute-reference_example = execute-reference host (pos 1) (bytes "/repos") site 0

abbrev frames : List (ℕ × Text)
frames = (1, bytes " hello ") ∷ (2, bytes "oops") ∷ (1, bytes "  ") ∷ []

stream_logs-wire_example : stream_logs 4 (wire frames) ≡ (lines frames, ended)
stream_logs-wire_example =
    stream_logs-wire frames 4 (omega arith, (omega arith, (omega arith, tt))) (omega arith)

unfoldable fill : ℕ → Text
fill zero = []
fill (suc n) = 0 ∷ fill n

length-fill : (n : ℕ) → length (fill n) ≡ n
unfolding fill
length-fill zero = refl
length-fill (suc n) = omega (arith, length-fill n)

abbrev pub idle : Agent
idle = record {
  agent_id = bytes "agent1";
  name = bytes "box";
  connected = true;
  socket_open = true;
  sent = [];
  has_docker = true;
  streams = [];
  cancelled = [];
  next_stream = 0;
  log_target = none;
}

idle-Accounted : Accounted idle
unfolding Accounted count
idle-Accounted = (tt, λ n. ground arith)

abbrev busy : Agent
busy = begin_stream (begin_stream idle (bytes "web")) (bytes "db")

busy-Steps : Steps json idle busy
busy-Steps = next (next here (started idle _)) (started _ _)

Steps-Accounted_example : Accounted busy
Steps-Accounted_example = Steps-Accounted json busy-Steps idle-Accounted

late_end_example :
    let newer = begin_stream (begin_stream idle (bytes "web")) (bytes "web") in
    let second = (begin_stream idle (bytes "web")).next_stream in
    (lookup (bytes "web") newer.streams ≡ some second)
    × (times second newer.cancelled ≡ 0)
    × (lookup (bytes "web") (stop_container_stream newer (bytes "web")).streams ≡ none)
    × (times second (stop_container_stream newer (bytes "web")).cancelled ≡ 1)
late_end_example = late_end idle (bytes "web") idle-Accounted

lost_stream_example :
    let both = stop_container_stream (stop_container_stream idle (bytes "web")) (bytes "web") in
    let b = register_stream (register_stream both (bytes "web")) (bytes "web") in
    (times both.next_stream (running b) ≡ 0)
    × (times both.next_stream b.cancelled ≡ 0)
    × (times both.next_stream (disconnect b).cancelled ≡ 0)
lost_stream_example = lost_stream idle (bytes "web") idle-Accounted

abbrev command : CommandPayload
command = record {
  id = bytes "d1";
  type = bytes "deploy";
  payload = (bytes "name", bytes "site") ∷ (bytes "build_cmd", bytes "make") ∷ [];
}

handle_command-sent_example :
    let (a', n) = handle_command json host (pos 1) (pos 1) (bytes "/repos") command idle 0 in
    (a'.sent
      ≡ (idle.sent ++ told json host (pos 1) (pos 1) (bytes "/repos") command 0)
        ++ verdict_message json (verdict host (bytes "/repos") command 0) ∷ [])
    × (n ≡ (
        if is_deploy command
        then (reference host (bytes "/repos") (config_of command.payload) 0).0
        else 0))
handle_command-sent_example =
    handle_command-sent json host (pos 1) (pos 1) (bytes "/repos") command idle 0 refl

abbrev of_both : List (ℤ × LogLine)
of_both =
    (pos 3, record { stream = bytes "stdout"; line = bytes "of d1" })
    ∷ (pos 4, record { stream = bytes "stderr"; line = bytes "of d2" })
    ∷ (pos 5, record { stream = bytes "stdout"; line = bytes "of d1" })
    ∷ []

emit_log-overlap_example :
    (emit_each json
      (begin_deploy json (pos 2) (begin_deploy json (pos 1) idle (bytes "d1")) (bytes "d2"))
      of_both).sent
    ≡ idle.sent
      ++ start_message json (pos 1) (bytes "d1")
        ∷ start_message json (pos 2) (bytes "d2")
        ∷ map (λ l. log_message json l.0 (bytes "d2") l.1) of_both
emit_log-overlap_example =
    emit_log-overlap json (pos 1) (pos 2) idle (bytes "d1") (bytes "d2") of_both refl

abbrev tricky : Text
tricky = bytes "[stderr] not one "

payload_of_line-log_line_example :
    let p = payload_of_line (pos 1) (bytes "web") (bytes "[stderr] not one") in
    ((◌≡◌ {A = ℕ} 1 2) × (p.stream ≡ bytes "stderr") × (p.line ≡ trim_space tricky))
    ⊎ (◌≢◌ {A = ℕ} 1 2)
      × (((p.stream ≡ bytes "stdout") × (p.line ≡ trim_space tricky))
          ⊎ ((p.stream ≡ bytes "stderr") × (trim_space tricky ≡ bytes "[stderr] " ++ p.line)))
unfolding log_line
payload_of_line-log_line_example =
    payload_of_line-log_line (pos 1) (bytes "web") 1 tricky (bytes "[stderr] not one") refl

-- Words that are numbers of one byte.
abbrev reading : Reading
reading = record {
  words = λ line. line ∷ (100 ∷ []) ∷ [];
  to_uint = λ word. length word;
  to_float = λ word. float_zero;
}

abbrev division : Division
division = record {
  busy = λ idle total. record { negative = true; mantissa = total; scale = 0 };
  percent = λ used total. float_zero;
}

abbrev meminfo : List Text
meminfo = bytes "MemTotal:" ∷ bytes "MemAvailable:" ∷ []

abbrev root : Statfs
root = record { blocks = 10; free_blocks = 4; block_size = 4096 }

abbrev machine : Machine
machine = record {
  stat = none;
  meminfo = some meminfo;
  loadavg = none;
  root = some root;
  uptime = pos 0;
}

abbrev fresh : Collector
fresh = record { prev_idle = 0; prev_total = 0 }

collect-IsPercent_example :
    let s = (collect reading division fresh machine).1 in
    IsPercent s.cpu_percent
    × (s.memory_used + (memory_of reading meminfo (0, 0)).1 ≡ s.memory_total)
    × (s.disk_used + 4 * 4096 ≡ s.disk_total)
unfolding memory_of eqb
collect-IsPercent_example =
    collect-IsPercent reading division fresh machine {lines = meminfo} {stat = root} refl
      (omega arith) refl (omega arith) (omega arith)
