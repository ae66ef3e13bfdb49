-- ===== src/Alerts.antt =====
-- internal/logic/alerts.go: the thresholds at which a reading raises an alert. The id that
-- `helper.GenerateID` draws and the time that `time.Now` reads are arguments.
pub mod Severity
use uruflow.Prelude.{ℕ, Bool, true, false, ◌++◌, Option, none, some, Text, bytes, if◌then◌else◌}
use uruflow.Models.{Time, Alert, AlertSeverity, warning, critical}
use uruflow.Models.Float.{Float64, above}

unfoldable pub new_alert : Text → Time → Text → Text → Text → Text → AlertSeverity → Alert
new_alert id now agent_id agent_name alert_type msg severity = record {
  id = id;
  agent_id = agent_id;
  agent_name = agent_name;
  type = alert_type;
  message = msg;
  severity = severity;
  resolved = false;
  created_at = now;
  resolved_at = none;
}

unfoldable pub check_cpu : Text → Time → Text → Text → Float64 → Option Alert
unfolding new_alert
check_cpu id now agent_id agent_name cpu_percent =
    if above cpu_percent 90
    then some (
        new_alert id now agent_id agent_name (bytes "high_cpu") (bytes "CPU usage above 90%")
          critical)
    else if above cpu_percent 80
    then some (
        new_alert id now agent_id agent_name (bytes "high_cpu") (bytes "CPU usage above 80%")
          warning)
    else none

unfoldable pub check_memory : Text → Time → Text → Text → Float64 → Option Alert
unfolding new_alert
check_memory id now agent_id agent_name mem_percent =
    if above mem_percent 95
    then some (
        new_alert id now agent_id agent_name (bytes "high_memory") (bytes "Memory usage above 95%")
          critical)
    else if above mem_percent 90
    then some (
        new_alert id now agent_id agent_name (bytes "high_memory") (bytes "Memory usage above 90%")
          warning)
    else none

unfoldable pub check_disk : Text → Time → Text → Text → Float64 → Option Alert
unfolding new_alert
check_disk id now agent_id agent_name disk_percent =
    if above disk_percent 95
    then some (
        new_alert id now agent_id agent_name (bytes "high_disk") (bytes "Disk usage above 95%")
          critical)
    else if above disk_percent 85
    then some (
        new_alert id now agent_id agent_name (bytes "high_disk") (bytes "Disk usage above 85%")
          warning)
    else none

-- "Container " + name + " is not running"
unfoldable pub down_message : Text → Text
down_message name = bytes "Container " ++ (name ++ bytes " is not running")

unfoldable pub check_container_down : Text → Time → Text → Text → Text → Alert
unfolding new_alert
check_container_down id now agent_id agent_name container_name =
    new_alert id now agent_id agent_name (bytes "container_down") (down_message container_name)
      critical

unfoldable pub offline_message : Text → Text
offline_message name = bytes "Agent " ++ (name ++ bytes " is offline")

unfoldable pub check_offline : Text → Time → Text → Text → Alert
unfolding new_alert
check_offline id now agent_id agent_name =
    new_alert id now agent_id agent_name (bytes "agent_offline") (offline_message agent_name)
      critical
