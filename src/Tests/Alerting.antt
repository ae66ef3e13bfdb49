-- ===== src/Tests/Alerting.antt =====
-- The alerts at a concrete report.
use uruflow.Prelude.{arith, [], ◌∷◌, bytes, count, any, false}
use uruflow.Prelude.Int.{pos}
use uruflow.Models.Float.{float_zero}
use uruflow.Protocol.Payloads.{MetricsPayload, ContainerStatus, zero_metrics}
use uruflow.Storage.{empty_db}
use uruflow.Storage.Agents.{create_agent}
use uruflow.Storage.Integrity.{IsValid, creates_agent, execute, execute_all}
use uruflow.Storage.Integrity.Execution.{history-IsValid}
use uruflow.Server.{Connection}
use uruflow.Server.Metrics.{update_alerts}
use uruflow.Server.Metrics.Alerting.{AtMostOne, update_alerts-AtMostOne}
use uruflow.Tests.Fixtures.{env, server, agent, agent_id, one_agent}

abbrev conn : Connection
conn = record {
  id = bytes "c";
  agent_id = agent_id;
  agent_name = bytes "box";
  host = [];
  last_ping = pos 0;
  closed = false;
  reachable = false;
  sent = [];
}

abbrev down : ContainerStatus
down = record {
  id = bytes "x1";
  name = bytes "web";
  image = [];
  status = bytes "exited";
  health = [];
  cpu_percent = float_zero;
  memory_usage = 0;
  memory_limit = 0;
  network_rx = 0;
  network_tx = 0;
  restart_count = pos 0;
  started_at = pos 0;
}

-- Two containers of one name are down.
abbrev report : MetricsPayload
report = record zero_metrics { containers = down ∷ record down { id = bytes "x2" } ∷ [] }

one_agent-IsValid : IsValid one_agent
unfolding execute_all execute
one_agent-IsValid = history-IsValid (creates_agent (pos 0) agent ∷ [])

no_alert : AtMostOne agent_id one_agent
unfolding create_agent empty_db count any
no_alert = λ msg. omega arith

update_alerts-AtMostOne_example :
    AtMostOne agent_id (update_alerts env (pos 5) conn report server).db
update_alerts-AtMostOne_example =
    update_alerts-AtMostOne env (pos 5) conn report server one_agent-IsValid no_alert
