-- ===== src/Server/Sessions/Stale.antt =====
-- What the clean-up of `handleConnection` in internal/tcp/server.go does to an agent that has logged in
-- again in the meantime: it removes by agent, not by connection.
use uruflow.Prelude.{
  ◌≡◌, ◌≢◌, refl, true, false, [], List, ◌∷◌, ◌++◌, none, some, Text, arith, Bool-cases, eqb_self,
  inl, inr,
}
use uruflow.Prelude.Maps.{lookup, lookup-delete}
use uruflow.Models.{Time, Command}
use uruflow.Server.{Server, Env}
use uruflow.Server.Connections.{get_connection}
use uruflow.Server.Registry.{remove_connection, send_command}
use uruflow.Server.Registry.Liveness.{is_open, is_open-close}
use uruflow.Server.Sessions.{System, Step, Steps, leave}
use uruflow.Server.Sessions.Alive.{one_open, Steps-AllServe, AllServe, AllServe-at}

-- The connection that the map has for the agent is closed and forgotten.
removed :
    (env : Env) (now : Time) (s : Server) (agent_id conn_id : Text)
    → lookup agent_id s.registry ≡ some conn_id
    → let s' = remove_connection env now s agent_id in
      (is_open s' conn_id ≡ false) × (lookup agent_id s'.registry ≡ none)
unfolding remove_connection is_open get_connection
removed env now s agent_id conn_id e = (
  ground (arith, e, is_open-close s conn_id conn_id, eqb_self conn_id),
  ground (arith, e, lookup-delete agent_id agent_id s.registry, eqb_self agent_id),
)

unreachable :
    (env : Env) (s : Server) (agent_id : Text) (cmd : Command)
    → lookup agent_id s.registry ≡ none
    → (send_command env s agent_id cmd).1 ≡ false
unfolding send_command
unreachable env s agent_id cmd e = rw (send_command, e) refl

-- In every interleaving of the handlers: where an agent has two handlers with different connections
-- and that of the second is open, the second replaced the first, whose connection is closed, and the
-- map has the second. The clean-up of the first handler, which comes after that, closes the second
-- connection and takes the agent out of the map, so that no command can be sent to it, although its
-- second handler still runs.
pub stale_cleanup :
    (env : Env) (s : Server) (sys : System) (now : Time)
    → Steps env (record { server = s; serving = [] }) sys
    → (before after before' after' : List (Text × Text)) (old new a : Text)
    → sys.serving ≡ before ++ (old, a) ∷ after
    → sys.serving ≡ before' ++ (new, a) ∷ after'
    → old ≢ new
    → is_open sys.server new ≡ true
    → let s' = remove_connection env now sys.server a in
      (is_open sys.server old ≡ false)
      × (lookup a sys.server.registry ≡ some new)
      × Step env sys (record { server = s'; serving = before ++ after })
      × (is_open s' new ≡ false)
      × (lookup a s'.registry ≡ none)
      × ((cmd : Command) → (send_command env s' a cmd).1 ≡ false)
unfolding AllServe
stale_cleanup env s sys now steps before after before' after' old new a at_old at_new ne up =
    let all = Steps-AllServe env (record { server = s; serving = [] }) sys steps tt in
    let mine = AllServe-at sys.server sys.serving before' after' new a at_new all up in
    let (shut, gone) = removed env now sys.server a new mine in
    (
      elim (Bool-cases (is_open sys.server old)) [
        | inl o ↦ absurd (
            ne
              (one_open env s sys steps before after before' after' old new a at_old at_new o up).1)
        | inr c ↦ c
      ],
      mine,
      leave sys now before after old a at_old,
      shut,
      gone,
      λ cmd. unreachable env (remove_connection env now sys.server a) a cmd gone,
    )
