-- ===== src/Agent/Settings.antt =====
-- internal/agent/config/agent_config.go: the agent's configuration, its defaults, and what must be
-- set. The default paths, which `init` takes from the operating system, are an argument; so is the
-- reader of YAML, which changes the configuration that it is given.
use uruflow.Prelude.{
  Bool, true, false, [], Option, ◌⊎◌, inl, inr, none, some, Text, bytes, is_nil, if◌then◌else◌,
}
use uruflow.Prelude.Int.{ℤ, pos}

pub record ServerSettings : Type 0 where
  pub host : Text
  pub port : ℤ
  pub tls : Bool
  pub tls_skip_verify : Bool
  pub reconnect_sec : ℤ
  pub metrics_sec : ℤ

pub record DockerSettings : Type 0 where
  pub enabled : Bool
  pub socket : Text

pub record Settings : Type 0 where
  pub token : Text
  pub data_dir : Text
  pub pid_file : Text
  pub log_file : Text
  pub server : ServerSettings
  pub docker : DockerSettings

pub record DefaultPaths : Type 0 where
  pub config_path : Text
  pub data_dir : Text
  pub pid_file : Text
  pub log_file : Text

-- `Default`
abbrev pub default_settings : DefaultPaths → Settings
default_settings paths = record {
  token = [];
  data_dir = paths.data_dir;
  pid_file = paths.pid_file;
  log_file = paths.log_file;
  server = record {
    host = [];
    port = pos 9001;
    tls = false;
    tls_skip_verify = false;
    reconnect_sec = pos 5;
    metrics_sec = pos 10;
  };
  docker = record { enabled = true; socket = bytes "/var/run/docker.sock" };
}

-- Why a file was not loaded: `ConfigError`, with the cause.
pub data LoadError : Type 0 where
  not_found : Text → LoadError
  not_read : Text → LoadError
  not_parsed : Text → LoadError

-- A file: missing, unreadable, or with a content.
pub data File : Type 0 where
  missing : File
  unreadable : File
  content : Text → File

parsed : Text → Option Settings → Settings ⊎ LoadError
parsed path none = inr (not_parsed path)
parsed path (some settings) = inl settings

read_file : (Text → Settings → Option Settings) → DefaultPaths → Text → File → Settings ⊎ LoadError
unfolding parsed
read_file parse paths path missing = inr (not_found path)
read_file parse paths path unreadable = inr (not_read path)
read_file parse paths path (content text) = parsed path (parse text (default_settings paths))

-- `Load`
unfoldable pub load :
    (Text → Settings → Option Settings) → DefaultPaths → (Text → File) → Text → Settings ⊎ LoadError
unfolding read_file
load parse paths files path =
    let chosen = if is_nil path then paths.config_path else path in
    read_file parse paths chosen (files chosen)

-- `Validate`: the text of the error.
unfoldable pub validate : Settings → Option Text
validate s =
    if is_nil s.token
    then some (bytes "token is required")
    else if is_nil s.server.host
    then some (bytes "server.host is required")
    else none
