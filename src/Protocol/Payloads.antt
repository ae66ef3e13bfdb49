-- ===== src/Protocol/Payloads.antt =====
-- The payloads of internal/tcp/protocol/message.go with Go's zero values, and `NewMessage` and
-- `Decode`. encoding/json enters as a codec for each payload: what it writes and what it reads.
use uruflow.Prelude.{ℕ, Bool, false, List, [], Option, some, Text, is_nil, if◌then◌else◌}
use uruflow.Prelude.Int.{ℤ, pos}
use uruflow.Models.Float.{Float64, float_zero}
use uruflow.Protocol.{Message}
use uruflow.Protocol.MessageType

pub record AuthPayload : Type 0 where
  pub token : Text
  pub hostname : Text
  pub ip : Text
  pub version : Text

pub record AuthOkPayload : Type 0 where
  pub agent_id : Text
  pub name : Text
  pub server_version : Text

pub record AuthFailPayload : Type 0 where
  pub reason : Text

pub record SystemMetrics : Type 0 where
  pub cpu_percent : Float64
  pub memory_percent : Float64
  pub memory_used : ℕ
  pub memory_total : ℕ
  pub disk_percent : Float64
  pub disk_used : ℕ
  pub disk_total : ℕ
  pub load_avg : List Float64
  pub uptime : ℤ

-- `started_at` is in seconds.
pub record ContainerStatus : Type 0 where
  pub id : Text
  pub name : Text
  pub image : Text
  pub status : Text
  pub health : Text
  pub cpu_percent : Float64
  pub memory_usage : ℕ
  pub memory_limit : ℕ
  pub network_rx : ℕ
  pub network_tx : ℕ
  pub restart_count : ℤ
  pub started_at : ℤ

pub record MetricsPayload : Type 0 where
  pub timestamp : ℤ
  pub system : SystemMetrics
  pub containers : List ContainerStatus

pub record CommandPayload : Type 0 where
  pub id : Text
  pub type : Text
  pub payload : List (Text × Text)

pub record CommandAckPayload : Type 0 where
  pub command_id : Text
  pub status : Text

pub record CommandStartPayload : Type 0 where
  pub command_id : Text
  pub started_at : ℤ

pub record CommandLogPayload : Type 0 where
  pub command_id : Text
  pub line : Text
  pub stream : Text
  pub timestamp : ℤ

pub record CommandDonePayload : Type 0 where
  pub command_id : Text
  pub status : Text
  pub exit_code : ℤ
  pub duration : ℤ
  pub output : Text

pub record ErrorPayload : Type 0 where
  pub code : ℤ
  pub message : Text

pub record ContainerLogsRequestPayload : Type 0 where
  pub container_id : Text
  pub tail : ℤ
  pub follow : Bool

pub record ContainerLogsDataPayload : Type 0 where
  pub container_id : Text
  pub line : Text
  pub stream : Text
  pub timestamp : ℤ

pub record ContainerLogsStopPayload : Type 0 where
  pub container_id : Text

-- json.Marshal and json.Unmarshal at one payload type; `none` is an error of the parser.
pub record Codec (A : Type 0) : Type 0 where
  pub marshal : A → Text
  pub unmarshal : Text → Option A

pub record Json : Type 0 where
  pub auth : Codec AuthPayload
  pub auth_ok : Codec AuthOkPayload
  pub auth_fail : Codec AuthFailPayload
  pub metrics : Codec MetricsPayload
  pub command : Codec CommandPayload
  pub command_ack : Codec CommandAckPayload
  pub command_start : Codec CommandStartPayload
  pub command_log : Codec CommandLogPayload
  pub command_done : Codec CommandDonePayload
  pub error : Codec ErrorPayload
  pub logs_request : Codec ContainerLogsRequestPayload
  pub logs_data : Codec ContainerLogsDataPayload
  pub logs_stop : Codec ContainerLogsStopPayload

-- `NewMessage` at a payload that is not nil.
unfoldable pub new_message : {A : Type 0} → Codec A → ℕ → A → Message
new_message codec t payload = record { type = t; payload = codec.marshal payload }

-- `Decode`: an empty payload leaves the zero value and is no error.
unfoldable pub decode : {A : Type 0} → Codec A → A → Message → Option A
decode codec zero_value m = if is_nil m.payload then some zero_value else codec.unmarshal m.payload

-- A message with no payload: `Ping`, `Pong`, `Disconnect` and the server's METRICS_ACK.
abbrev pub bare : ℕ → Message
bare t = record { type = t; payload = [] }

unfoldable pub ping : Message
ping = bare MessageType.ping

unfoldable pub pong : Message
pong = bare MessageType.pong

unfoldable pub disconnect : Message
disconnect = bare MessageType.disconnect

-- `Error`
unfoldable pub error_message : Json → ℕ → Text → Message
unfolding new_message
error_message json code message =
    new_message json.error MessageType.error (record { code = pos code; message = message })

abbrev pub zero_auth : AuthPayload
zero_auth = record { token = []; hostname = []; ip = []; version = [] }

abbrev pub zero_auth_ok : AuthOkPayload
zero_auth_ok = record { agent_id = []; name = []; server_version = [] }

abbrev pub zero_metrics : MetricsPayload
zero_metrics = record {
  timestamp = pos 0;
  system = record {
    cpu_percent = float_zero;
    memory_percent = float_zero;
    memory_used = 0;
    memory_total = 0;
    disk_percent = float_zero;
    disk_used = 0;
    disk_total = 0;
    load_avg = [];
    uptime = pos 0;
  };
  containers = [];
}

abbrev pub zero_auth_fail : AuthFailPayload
zero_auth_fail = record { reason = [] }

abbrev pub zero_command : CommandPayload
zero_command = record { id = []; type = []; payload = [] }

abbrev pub zero_command_ack : CommandAckPayload
zero_command_ack = record { command_id = []; status = [] }

abbrev pub zero_command_start : CommandStartPayload
zero_command_start = record { command_id = []; started_at = pos 0 }

abbrev pub zero_command_log : CommandLogPayload
zero_command_log = record { command_id = []; line = []; stream = []; timestamp = pos 0 }

abbrev pub zero_command_done : CommandDonePayload
zero_command_done = record {
  command_id = [];
  status = [];
  exit_code = pos 0;
  duration = pos 0;
  output = [];
}

abbrev pub zero_logs_request : ContainerLogsRequestPayload
zero_logs_request = record { container_id = []; tail = pos 0; follow = false }

abbrev pub zero_logs_data : ContainerLogsDataPayload
zero_logs_data = record { container_id = []; line = []; stream = []; timestamp = pos 0 }

abbrev pub zero_logs_stop : ContainerLogsStopPayload
zero_logs_stop = record { container_id = [] }
