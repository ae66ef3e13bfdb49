-- ===== src/Protocol/MessageType.antt =====
-- The message types of internal/tcp/protocol/protocol.go: the values of a Go byte, and their names.
use uruflow.Prelude.{ℕ, Text, bytes, ◌==◌, if◌then◌else◌}

abbrev pub auth : ℕ
auth = 0x01

abbrev pub auth_ok : ℕ
auth_ok = 0x02

abbrev pub auth_fail : ℕ
auth_fail = 0x03

abbrev pub metrics : ℕ
metrics = 0x10

abbrev pub metrics_ack : ℕ
metrics_ack = 0x11

abbrev pub command : ℕ
command = 0x20

abbrev pub command_ack : ℕ
command_ack = 0x21

abbrev pub command_start : ℕ
command_start = 0x22

abbrev pub command_log : ℕ
command_log = 0x23

abbrev pub command_done : ℕ
command_done = 0x24

abbrev pub ping : ℕ
ping = 0x30

abbrev pub pong : ℕ
pong = 0x31

abbrev pub disconnect : ℕ
disconnect = 0x40

abbrev pub error : ℕ
error = 0x41

abbrev pub container_logs_request : ℕ
container_logs_request = 0x50

abbrev pub container_logs_data : ℕ
container_logs_data = 0x51

abbrev pub container_logs_stop : ℕ
container_logs_stop = 0x52

-- `MessageType.String`
unfoldable pub type_name : ℕ → Text
type_name t =
    if t == auth
    then bytes "AUTH"
    else if t == auth_ok
    then bytes "AUTH_OK"
    else if t == auth_fail
    then bytes "AUTH_FAIL"
    else if t == metrics
    then bytes "METRICS"
    else if t == metrics_ack
    then bytes "METRICS_ACK"
    else if t == command
    then bytes "COMMAND"
    else if t == command_ack
    then bytes "COMMAND_ACK"
    else if t == command_start
    then bytes "COMMAND_START"
    else if t == command_log
    then bytes "COMMAND_LOG"
    else if t == command_done
    then bytes "COMMAND_DONE"
    else if t == ping
    then bytes "PING"
    else if t == pong
    then bytes "PONG"
    else if t == disconnect
    then bytes "DISCONNECT"
    else if t == error
    then bytes "ERROR"
    else if t == container_logs_request
    then bytes "CONTAINER_LOGS_REQUEST"
    else if t == container_logs_data
    then bytes "CONTAINER_LOGS_DATA"
    else if t == container_logs_stop
    then bytes "CONTAINER_LOGS_STOP"
    else bytes "UNKNOWN"
