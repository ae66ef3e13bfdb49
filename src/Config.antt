-- ===== src/Config.antt =====
-- internal/config/config.go: the settings and the registry of agents and repositories. Ids, tokens
-- and secrets that pkg/helper/config.go draws at random are arguments.
pub mod Registry
pub mod Files
pub mod Saving
use uruflow.Prelude.{
  ℕ, Bool, true, false, List, [], ◌∷◌, ◌++◌, Option, none, some, Text, bytes, eqb, key_is, find,
  any, remove_first, is_nil, if◌then◌else◌,
}
use uruflow.Prelude.Int.{ℤ, pos, negsuc}
use uruflow.Models.{Repository}

pub record ServerConfig : Type 0 where
  pub http_port : ℤ
  pub tcp_port : ℤ
  pub host : Text
  pub data_dir : Text

pub record WebhookConfig : Type 0 where
  pub path : Text
  pub secret : Text

pub record TlsConfig : Type 0 where
  pub enabled : Bool
  pub cert_file : Text
  pub key_file : Text
  pub auto_cert : Bool

pub record AgentConfig : Type 0 where
  pub id : Text
  pub name : Text
  pub token : Text

pub record Config : Type 0 where
  pub server : ServerConfig
  pub webhook : WebhookConfig
  pub tls : TlsConfig
  pub agents : List AgentConfig
  pub repositories : List Repository

abbrev pub default_data_dir : Text
default_data_dir = bytes "/var/lib/uruflow"

abbrev pub or_port : ℤ → ℕ → ℤ
or_port (pos ℕ.zero) d = pos d
or_port p d = p

abbrev pub or_text : Text → Text → Text
or_text t d = if is_nil t then d else t

unfoldable pub set_defaults : Config → Config
set_defaults c = record c {
  server = record {
    http_port = or_port c.server.http_port 9000;
    tcp_port = or_port c.server.tcp_port 9001;
    host = or_text c.server.host (bytes "0.0.0.0");
    data_dir = or_text c.server.data_dir default_data_dir;
  };
  webhook = record { path = or_text c.webhook.path (bytes "/webhook"); secret = c.webhook.secret };
}

-- The argument is what `helper.GenerateSecret` draws.
unfoldable pub default_config : Text → Config
default_config secret = record {
  server = record {
    http_port = pos 9000;
    tcp_port = pos 9001;
    host = bytes "0.0.0.0";
    data_dir = default_data_dir;
  };
  webhook = record { path = bytes "/webhook"; secret = secret };
  tls = record { enabled = false; cert_file = []; key_file = []; auto_cert = false };
  agents = [];
  repositories = [];
}

-- The id and the token are what the helpers draw; `none` is the error "already exists".
unfoldable pub add_agent : Config → Text → Text → Text → Option (Config × Text × Text)
add_agent c name id token =
    if any (key_is (λ (a : AgentConfig). a.name) name) c.agents
    then none
    else some (
      record c { agents = c.agents ++ record { id = id; name = name; token = token } ∷ [] },
      id,
      token,
    )

unfoldable pub get_agent : Config → Text → Option AgentConfig
get_agent c id = find (key_is (λ a. a.id) id) c.agents

unfoldable pub get_agent_by_token : Config → Text → Option AgentConfig
get_agent_by_token c token = find (key_is (λ a. a.token) token) c.agents

unfoldable pub get_agent_by_name : Config → Text → Option AgentConfig
get_agent_by_name c name = find (key_is (λ a. a.name) name) c.agents

unfoldable pub remove_agent : Config → Text → Config × Bool
remove_agent c id = (
  record c { agents = remove_first (key_is (λ a. a.id) id) c.agents },
  any (key_is (λ (a : AgentConfig). a.id) id) c.agents,
)

unfoldable pub add_repository : Config → Repository → Option Config
add_repository c repo =
    if any (key_is (λ (r : Repository). r.name) repo.name) c.repositories
    then none
    else some (record c { repositories = c.repositories ++ repo ∷ [] })

unfoldable pub get_repository : Config → Text → Option Repository
get_repository c name = find (key_is (λ r. r.name) name) c.repositories

unfoldable pub remove_repository : Config → Text → Config × Bool
remove_repository c name = (
  record c { repositories = remove_first (key_is (λ r. r.name) name) c.repositories },
  any (key_is (λ (r : Repository). r.name) name) c.repositories,
)
