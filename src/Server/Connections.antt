-- ===== src/Server/Connections.antt =====
-- internal/tcp/connection.go: the methods of a connection object, on the heap.
use uruflow.Prelude.{
  Bool, true, false, not, ◌||◌, [], ◌∷◌, ◌++◌, Option, none, some, Text, find, update_where, key_is,
  if◌then◌else◌,
}
use uruflow.Models.{Time}
use uruflow.Protocol.{Message}
use uruflow.Server.{Connection, Server}

-- `NewConnection`: a fresh object for an accepted socket.
unfoldable pub new_connection : Text → Text → Bool → Time → Connection
new_connection id host reachable now = record {
  id = id;
  agent_id = [];
  agent_name = [];
  host = host;
  last_ping = now;
  closed = false;
  reachable = reachable;
  sent = [];
}

unfoldable pub get_connection : Server → Text → Option Connection
get_connection s id = find (key_is (λ c. c.id) id) s.conns

unfoldable pub modify : Server → Text → (Connection → Connection) → Server
modify s id f = record s { conns = update_where (key_is (λ c. c.id) id) f s.conns }

abbrev pub append_sent : Message → Connection → Connection
append_sent m c = record c { sent = c.sent ++ m ∷ [] }

abbrev can_send : Connection → Bool
can_send c = not (c.closed || not c.reachable)

abbrev send_to : Server → Text → Message → Option Connection → Server × Bool
send_to s id m none = (s, false)
send_to s id m (some c) = if can_send c then (modify s id (append_sent m), true) else (s, false)

-- `Send`: false stands for an error, of the closed object or of the socket.
unfoldable pub send : Server → Text → Message → Server × Bool
unfolding get_connection
send s id m = send_to s id m (get_connection s id)

abbrev pub shut : Connection → Connection
shut c = record c { closed = true }

-- `Close`
unfoldable pub close : Server → Text → Server
close s id = modify s id shut

-- `SetAgent`
unfoldable pub set_agent : Server → Text → Text → Text → Server
set_agent s id agent_id agent_name =
    modify s id (λ c. record c { agent_id = agent_id; agent_name = agent_name })

-- `UpdatePing`
unfoldable pub update_ping : Server → Time → Text → Server
update_ping s now id = modify s id (λ c. record c { last_ping = now })
