-- ===== src/Alerts/Severity.antt =====
-- How the alerts of internal/logic/alerts.go depend on the reading.
use uruflow.Prelude.{ℕ, ◌≤◌, Option, none, some, Text, arith}
use uruflow.Models.{Time, Alert, AlertSeverity, warning, critical}
use uruflow.Models.Float.{Float64, AtMost, above_lower, above-AtMost}
use uruflow.Alerts.{check_cpu, check_memory, check_disk}

abbrev severity_rank : AlertSeverity → ℕ
severity_rank warning = 1
severity_rank critical = 2

-- 0 for no alert, 1 for a warning, 2 for a critical alert.
abbrev pub rank : Option Alert → ℕ
rank none = 0
rank (some a) = severity_rank a.severity

-- A higher reading never gets a weaker alert, for the processor, the memory and the disk alike.
pub rank_mono :
    (id : Text) (now : Time) (agent_id agent_name : Text) (x y : Float64)
    → AtMost x y
    → (rank (check_cpu id now agent_id agent_name x)
        ≤ rank (check_cpu id now agent_id agent_name y))
      × (rank (check_memory id now agent_id agent_name x)
          ≤ rank (check_memory id now agent_id agent_name y))
      × (rank (check_disk id now agent_id agent_name x)
          ≤ rank (check_disk id now agent_id agent_name y))
unfolding check_cpu check_memory check_disk
rank_mono id now agent_id agent_name x y h = (
  ground (arith, above-AtMost x y 90 h, above-AtMost x y 80 h, above_lower y 80 90),
  ground (arith, above-AtMost x y 95 h, above-AtMost x y 90 h, above_lower y 90 95),
  ground (arith, above-AtMost x y 95 h, above-AtMost x y 85 h, above_lower y 85 95),
)
