-- ===== src/Tests/Sessions.antt =====
-- The TCP server on concrete logins.
use uruflow.Prelude.{
  update_where, ◌≡◌, refl, arith, [], ◌∷◌, some, none, Text, bytes, true, false, find, eqb,
}
use uruflow.Prelude.Int.{pos}
use uruflow.Prelude.Maps.{lookup, insert}
use uruflow.Protocol.{Message}
use uruflow.Protocol.MessageType
use uruflow.Protocol.Payloads.{decode, new_message}
use uruflow.Server.{next_id}
use uruflow.Server.Connections.{get_connection, new_connection, send, modify, close, set_agent}
use uruflow.Server.Registry.{add_connection, remove_connection, send_command}
use uruflow.Server.Registry.Liveness.{is_open}
use uruflow.Server.Sessions.Stale.{stale_cleanup}
use uruflow.Models.{Command}
use uruflow.Server.Auth.{authenticate, check_payload, check_token, accept}
use uruflow.Config.{get_agent_by_token}
use uruflow.Server.Dispatch.{open_connection, admit}
use uruflow.Server.Sessions.{System, Step, Steps, here, next, arrive, joined}
use uruflow.Server.Sessions.Alive.{one_open}
use uruflow.Tests.Fixtures.{env, server, token, agent_id}

abbrev login : Message
login = record { type = MessageType.auth; payload = token }

-- The system after one more login.
abbrev after_login : System → System
after_login sys = record {
  server = (open_connection env (pos 0) sys.server (bytes "10.0.0.2") true (some login)).0;
  serving =
      joined (next_id env sys.server)
        (open_connection env (pos 0) sys.server (bytes "10.0.0.2") true (some login)).1 sys.serving;
}

abbrev second : Text
second = 1 ∷ []

abbrev start : System
start = record { server = server; serving = [] }

abbrev once : System
once = after_login start

abbrev twice : System
twice = after_login once

first_id : next_id env start.server ≡ 0 ∷ []
first_id = refl

steps : Steps env start twice
unfolding open_connection admit authenticate check_payload check_token accept add_connection
    get_connection decode find eqb close send modify set_agent get_agent_by_token lookup insert
    update_where new_connection new_message
steps =
    next (next here (arrive start (pos 0) (bytes "10.0.0.2") true (some login) refl tt))
      (arrive once (pos 0) (bytes "10.0.0.2") true (some login) refl ((λ e. ground (arith, e)), tt))

-- The agent logs in a second time: both handlers run, and the first one's object was closed.
one_open_example : (lookup agent_id twice.server.registry ≡ some second) × (second ≡ second)
unfolding open_connection admit authenticate check_payload check_token accept add_connection
    get_connection decode find eqb close send modify set_agent get_agent_by_token lookup insert
    update_where new_connection new_message is_open
one_open_example =
    one_open env server twice steps [] ((0 ∷ [], agent_id) ∷ []) [] ((0 ∷ [], agent_id) ∷ []) second
      second agent_id refl refl refl refl

-- The first handler ends after the agent has logged in a second time.
stale_cleanup_example :
    let s' = remove_connection env (pos 1) twice.server agent_id in
    (is_open twice.server (0 ∷ []) ≡ false)
    × (lookup agent_id twice.server.registry ≡ some second)
    × Step env twice (record { server = s'; serving = (second, agent_id) ∷ [] })
    × (is_open s' second ≡ false)
    × (lookup agent_id s'.registry ≡ none)
    × ((cmd : Command) → (send_command env s' agent_id cmd).1 ≡ false)
unfolding open_connection admit authenticate check_payload check_token accept add_connection
    get_connection decode find eqb close send modify set_agent get_agent_by_token lookup insert
    update_where new_connection new_message is_open
stale_cleanup_example =
    stale_cleanup env server twice (pos 1) steps ((second, agent_id) ∷ []) [] []
      ((0 ∷ [], agent_id) ∷ []) (0 ∷ []) second agent_id refl refl (λ e. ground (arith, e)) refl
