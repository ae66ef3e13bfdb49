-- ===== src/Server/Registry/Liveness.antt =====
-- Which connections of internal/tcp/server.go are alive, and where the map from agents leads.
use mathlib.Core.Option
use uruflow.Prelude.{
  ◌≡◌, ◌≢◌, refl, Bool, true, false, not, ◌&&◌, Option, none, some, Text, arith, eqb, eqb_iff,
  eqb_self, find-update_where_key, Option-cases, inl, inr, if◌then◌else◌,
}
use uruflow.Prelude.Maps.{lookup, lookup-insert, lookup-delete}
use uruflow.Models.{Time}
use uruflow.Protocol.{Message}
use uruflow.Server.{Connection, Server, Env}
use uruflow.Server.Connections.{get_connection, modify, send, append_sent, close, shut}
use uruflow.Server.Registry.{add_connection, remove_connection}

abbrev open_object : Option Connection → Bool
open_object none = false
open_object (some c) = not c.closed

-- The object exists and was not closed.
unfoldable pub is_open : Server → Text → Bool
is_open s id = open_object (get_connection s id)

pub get_connection-modify :
    (s : Server) (j k : Text) (f : Connection → Connection)
    → ((c : Connection) → (f c).id ≡ c.id)
    → get_connection (modify s j f) k
      ≡ Option.map (λ c. if eqb j k then f c else c) (get_connection s k)
unfolding get_connection modify
get_connection-modify s j k f h = find-update_where_key (λ c. c.id) j k f s.conns h

pub is_open-close :
    (s : Server) (j k : Text) → is_open (close s j) k ≡ (not (eqb j k) && is_open s k)
unfolding is_open close
is_open-close s j k = ground (arith, get_connection-modify s j k shut (λ c. refl))

pub is_open-send : (s : Server) (j k : Text) (m : Message) → is_open (send s j m).0 k ≡ is_open s k
unfolding is_open send
is_open-send s j k m = ground (arith, get_connection-modify s j k (append_sent m) (λ c. refl))

-- An open connection that serves the agent is the one that the map has for it.
abbrev pub Serves : Server → Text → Text → Type 0
Serves s conn_id agent_id = is_open s conn_id ≡ true → lookup agent_id s.registry ≡ some conn_id

-- Registering a connection for an agent makes it the agent's; every other connection that serves
-- an agent still does, since the one that the agent had before is closed.
pub add_connection-Serves :
    (s : Server) (agent_id new : Text)
    → (lookup agent_id (add_connection s agent_id new).registry ≡ some new)
      × ((c a : Text) → c ≢ new → Serves s c a → Serves (add_connection s agent_id new) c a)
unfolding add_connection is_open get_connection
add_connection-Serves s agent_id new = (
  ground (arith, lookup-insert agent_id agent_id new s.registry, eqb_self agent_id),
  λ c a ne h o. elim (Option-cases (lookup agent_id s.registry)) [
    | inl e ↦ ground (arith, e, h, o, lookup-insert agent_id a new s.registry, eqb_iff agent_id a)
    | inr (old, e) ↦ ground (
      arith,
      e,
      h,
      o,
      is_open-close s old c,
      lookup-insert agent_id a new s.registry,
      eqb_iff agent_id a,
      eqb_iff old c,
    )
  ],
)

-- Removing the connection of an agent keeps every connection that serves an agent: it is closed
-- before it is forgotten.
pub remove_connection-Serves :
    (env : Env) (now : Time) (s : Server) (agent_id c a : Text)
    → Serves s c a
    → Serves (remove_connection env now s agent_id) c a
unfolding remove_connection is_open get_connection
remove_connection-Serves env now s agent_id c a h o =
    elim (Option-cases (lookup agent_id s.registry)) [
      | inl e ↦ ground (arith, e, h, o)
      | inr (old, e) ↦ ground (
        arith,
        e,
        h,
        o,
        is_open-close s old c,
        lookup-delete agent_id a s.registry,
        eqb_iff agent_id a,
        eqb_iff old c,
      )
    ]
