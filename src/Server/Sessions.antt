-- ===== src/Server/Sessions.antt =====
-- The concurrent handlers of internal/tcp/server.go as interleavings: each `handleConnection` that
-- has logged in is a pair of its connection and its agent until its clean-up has run; a step is
-- one operation that takes the server's lock, or the handling of one message.
pub mod Effects
pub mod Alive
pub mod Stale
use uruflow.Prelude.{◌≡◌, ◌≢◌, Bool, List, [], ◌∷◌, ◌++◌, Option, none, some, Text, All}
use uruflow.Models.{Time, Command}
use uruflow.Protocol.{Message}
use uruflow.Server.{Connection, Server, Env, next_id}
use uruflow.Server.Connections.{get_connection, close}
use uruflow.Server.Registry.{remove_connection, ping_all, send_command, stop}
use uruflow.Server.Dispatch.{open_connection, process_message}

pub record System : Type 0 where
  pub server : Server
  pub serving : List (Text × Text)

-- The handlers after a connection was opened: one more, if the login succeeded.
abbrev pub joined : Text → Option Text → List (Text × Text) → List (Text × Text)
joined conn_id none serving = serving
joined conn_id (some agent_id) serving = (conn_id, agent_id) ∷ serving

abbrev pub NewTo : Text → List (Text × Text) → Type 0
NewTo conn_id = All (λ e. e.0 ≢ conn_id)

-- `arrive` draws an id that no object on the heap and no handler has. A message may arrive for any
-- object, and a handler may end at any time.
pub data Step (env : Env) : System → System → Type 0 where
  arrive :
      (sys : System) (now : Time) (host : Text) (reachable : Bool) (first : Option Message)
      → get_connection sys.server (next_id env sys.server) ≡ none
      → NewTo (next_id env sys.server) sys.serving
      → Step env sys (record {
        server = (open_connection env now sys.server host reachable first).0;
        serving =
            joined
              (next_id env sys.server)
              (open_connection env now sys.server host reachable first).1
              sys.serving;
      })
  receive :
      (sys : System) (now : Time) (conn : Connection) (msg : Message)
      → Step env sys (record sys { server = process_message env now sys.server conn msg })
  leave :
      (sys : System) (now : Time) (before after : List (Text × Text)) (conn_id agent_id : Text)
      → sys.serving ≡ before ++ (conn_id, agent_id) ∷ after
      → Step env sys (record {
        server = remove_connection env now sys.server agent_id;
        serving = before ++ after;
      })
  ping :
      (sys : System) (now : Time)
      → Step env sys (record sys { server = ping_all env now sys.server })
  command :
      (sys : System) (agent_id : Text) (cmd : Command)
      → Step env sys (record sys { server = (send_command env sys.server agent_id cmd).0 })

pub data Steps (env : Env) (from : System) : System → Type 0 where
  here : Steps env from from
  next : {a b : System} → Steps env from a → Step env a b → Steps env from b
