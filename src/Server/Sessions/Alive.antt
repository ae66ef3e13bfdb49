-- ===== src/Server/Sessions/Alive.antt =====
-- The sessions of internal/tcp/server.go: what every interleaving of the handlers keeps.
use uruflow.Prelude.{
  ◌≡◌, ◌≢◌, refl, sym, subst, Bool, true, List, [], ◌∷◌, ◌++◌, Option, none, some, Text, arith, All,
  map, Option-cases, Bool-cases, inl, inr, eqb, eqb_iff, find,
}
use uruflow.Prelude.Int.{pos, ltb_ℤ, ◌-ℤ◌}
use uruflow.Prelude.Maps.{lookup}
use uruflow.Models.{Time, Command}
use uruflow.Protocol.{Message}
use uruflow.Server.{Connection, Server, Env, next_id, drawn}
use uruflow.Server.Connections.{get_connection, new_connection}
use uruflow.Protocol.Payloads
use uruflow.Server.Registry.{
  pong_timeout, add_connection, ping_one, ping_each, ping_all, send_command,
}
use uruflow.Server.Registry.Liveness.{
  is_open, Serves, add_connection-Serves, remove_connection-Serves,
}
use uruflow.Server.Auth.{authenticate}
use uruflow.Server.Dispatch.{open_connection, admit}
use uruflow.Server.Sessions.{
  System, Step, arrive, receive, leave, ping, command, Steps, here, next, joined, NewTo,
}
use uruflow.Server.Sessions.Effects.{
  Keeps, Keeps-refl, Keeps-Serves, close-Keeps, send-Keeps, authenticate-Keeps,
  process_message-Keeps,
}

-- Every handler's connection, while it is open, is the one that the map has for its agent.
unfoldable pub AllServe : Server → List (Text × Text) → Type 0
AllServe s = All (λ e. Serves s e.0 e.1)

abbrev Pred : Type 1
Pred = Text × Text → Type 0

All-map :
    (P Q : Pred) → ((e : Text × Text) → P e → Q e) → (es : List (Text × Text)) → All P es → All Q es
All-map P Q f [] h = h
All-map P Q f (e ∷ es) h = (f e h.0, All-map P Q f es h.1)

All-both : (P Q : Pred) (es : List (Text × Text)) → All P es → All Q es → All (λ e. P e × Q e) es
All-both P Q [] h k = h
All-both P Q (e ∷ es) h k = ((h.0, k.0), All-both P Q es h.1 k.1)

All-without :
    (P : Pred) (before after : List (Text × Text)) (e : Text × Text)
    → All P (before ++ e ∷ after)
    → All P (before ++ after)
All-without P [] after e h = h.1
All-without P (x ∷ before) after e h = (h.0, All-without P before after e h.1)

-- A change that keeps what every single connection serves.
all-AllServe :
    (s s' : Server) (es : List (Text × Text))
    → ((c a : Text) → Serves s c a → Serves s' c a)
    → AllServe s es
    → AllServe s' es
unfolding AllServe
all-AllServe s s' es f =
    All-map (λ e. Serves s e.0 e.1) (λ e. Serves s' e.0 e.1) (λ e. f e.0 e.1) es

Keeps-AllServe :
    (s s' : Server) (es : List (Text × Text)) → Keeps s s' → AllServe s es → AllServe s' es
Keeps-AllServe s s' es k = all-AllServe s s' es (λ c a. Keeps-Serves c a k)

ping_one-Serves :
    (env : Env) (now : Time) (s : Server) (target c a : Text)
    → Serves s c a
    → Serves (ping_one env now s target) c a
unfolding ping_one get_connection
ping_one-Serves env now s target c a h = elim (Option-cases (get_connection s target)) [
  | inl e ↦ rw (ping_one, e) h
  | inr (conn, e) ↦ elim (Bool-cases (ltb_ℤ (pos pong_timeout) (now -ℤ conn.last_ping))) [
    | inl late ↦ rw (ping_one, e, late) (remove_connection-Serves env now s conn.agent_id c a h)
    | inr soon ↦ rw (ping_one, e, soon) (Keeps-Serves c a (send-Keeps s target Payloads.ping) h)
  ]
]

ping_each-Serves :
    (env : Env) (now : Time) (s : Server) (targets : List Text) (c a : Text)
    → Serves s c a
    → Serves (ping_each env now s targets) c a
unfolding ping_each
ping_each-Serves env now s [] c a h = h
ping_each-Serves env now s (t ∷ ts) c a h =
    ping_each-Serves env now (ping_one env now s t) ts c a (ping_one-Serves env now s t c a h)

send_command-Keeps :
    (env : Env) (s : Server) (agent_id : Text) (cmd : Command)
    → Keeps s (send_command env s agent_id cmd).0
unfolding send_command
send_command-Keeps env s agent_id cmd = elim (Option-cases (lookup agent_id s.registry)) [
  | inl e ↦ rw (send_command, e) (Keeps-refl s)
  | inr (c, e) ↦ rw (send_command, e) (send-Keeps s c _)
]

-- The server with one more object.
abbrev with_object : Server → Connection → Server
with_object s conn = drawn (record s { conns = conn ∷ s.conns })

with_object-Serves :
    (s : Server) (conn : Connection) (c a : Text)
    → c ≢ conn.id
    → Serves s c a
    → Serves (with_object s conn) c a
unfolding is_open get_connection find
with_object-Serves s conn c a ne h o = elim (Bool-cases (eqb conn.id c)) [
  | inl e ↦ absurd (ne (sym ((eqb_iff conn.id c).0 e)))
  | inr e ↦ h (ground (arith, e, o))
]

admit-AllServe :
    (s : Server) (conn_id : Text) (login : Option Text) (es : List (Text × Text))
    → AllServe s es
    → NewTo conn_id es
    → AllServe (admit conn_id (s, login)).0 (joined conn_id (admit conn_id (s, login)).1 es)
unfolding admit AllServe
admit-AllServe s conn_id none es h fresh = Keeps-AllServe s _ es (close-Keeps s conn_id) h
admit-AllServe s conn_id (some agent_id) es h fresh =
    let (mine, others) = add_connection-Serves s agent_id conn_id in
    (
      λ o. mine,
      All-map (λ e. Serves s e.0 e.1 × e.0 ≢ conn_id)
          (λ e. Serves (add_connection s agent_id conn_id) e.0 e.1)
          (λ e both. others e.0 e.1 both.1 both.0) es
          (All-both (λ e. Serves s e.0 e.1) (λ e. e.0 ≢ conn_id) es h fresh),
    )

open_connection-AllServe :
    (env : Env) (now : Time) (s : Server) (host : Text) (reachable : Bool) (first : Option Message)
    (es : List (Text × Text))
    → NewTo (next_id env s) es
    → AllServe s es
    → AllServe
        (open_connection env now s host reachable first).0
        (joined (next_id env s) (open_connection env now s host reachable first).1 es)
unfolding open_connection AllServe new_connection
open_connection-AllServe env now s host reachable first es fresh h =
    let conn_id = next_id env s in
    let conn = new_connection conn_id host reachable now in
    let t = with_object s conn in
    let login = authenticate env now t conn first in
    let opened =
      All-map (λ e. Serves s e.0 e.1 × e.0 ≢ conn_id) (λ e. Serves t e.0 e.1)
        (λ e both. with_object-Serves s conn e.0 e.1 both.1 both.0) es
        (All-both (λ e. Serves s e.0 e.1) (λ e. e.0 ≢ conn_id) es h fresh) in
    let greeted = Keeps-AllServe t login.0 es (authenticate-Keeps env now t conn first) opened in
    admit-AllServe login.0 conn_id login.1 es greeted fresh

ping_all-Serves :
    (env : Env) (now : Time) (s : Server) (c a : Text)
    → Serves s c a
    → Serves (ping_all env now s) c a
unfolding ping_all
ping_all-Serves env now s = ping_each-Serves env now s (map (λ e. e.1) s.registry)

left_out :
    (s : Server) (es before after : List (Text × Text)) (e : Text × Text)
    → es ≡ before ++ e ∷ after
    → AllServe s es
    → AllServe s (before ++ after)
unfolding AllServe
left_out s es before after e split h =
    All-without (λ e. Serves s e.0 e.1) before after e (subst (AllServe s) split h)

-- One step, whichever handler takes it, keeps every handler's connection, while it is open, the
-- one that the map has for its agent.
pub Step-AllServe :
    (env : Env) (a b : System)
    → Step env a b
    → AllServe a.server a.serving
    → AllServe b.server b.serving
Step-AllServe env a b (arrive sys now host reachable first fresh new) h =
    open_connection-AllServe env now sys.server host reachable first sys.serving new h
Step-AllServe env a b (receive sys now conn msg) h =
    Keeps-AllServe sys.server _ sys.serving (process_message-Keeps env now sys.server conn msg) h
Step-AllServe env a b (leave sys now before after conn_id agent_id split) h =
    all-AllServe sys.server _ (before ++ after)
      (λ c d. remove_connection-Serves env now sys.server agent_id c d)
      (left_out sys.server sys.serving before after (conn_id, agent_id) split h)
Step-AllServe env a b (ping sys now) h =
    all-AllServe sys.server _ sys.serving (λ c d. ping_all-Serves env now sys.server c d) h
Step-AllServe env a b (command sys agent_id cmd) h =
    Keeps-AllServe sys.server _ sys.serving (send_command-Keeps env sys.server agent_id cmd) h

pub Steps-AllServe :
    (env : Env) (a b : System)
    → Steps env a b
    → AllServe a.server a.serving
    → AllServe b.server b.serving
Steps-AllServe env a b here h = h
Steps-AllServe env a b (next {a = c} steps step) h =
    Step-AllServe env c b step (Steps-AllServe env a c steps h)

pub AllServe-at :
    (s : Server) (es : List (Text × Text)) (before after : List (Text × Text)) (c a : Text)
    → es ≡ before ++ (c, a) ∷ after
    → AllServe s es
    → Serves s c a
unfolding AllServe
AllServe-at s es [] after c a e h = (subst (AllServe s) e h).0
AllServe-at s es (x ∷ before) after c a e h =
    AllServe-at s (before ++ (c, a) ∷ after) before after c a refl (subst (AllServe s) e h).1

-- From a server that has no handler yet, whatever the interleaving of logins, messages, clean-ups,
-- pings and commands: the connection of every handler, while it is open, is the one that
-- `SendCommand` finds for the handler's agent, so that two handlers of one agent whose connections
-- are both open share one connection.
pub one_open :
    (env : Env) (s : Server) (b : System)
    → Steps env (record { server = s; serving = [] }) b
    → (before after before' after' : List (Text × Text)) (c d a : Text)
    → b.serving ≡ before ++ (c, a) ∷ after
    → b.serving ≡ before' ++ (d, a) ∷ after'
    → is_open b.server c ≡ true
    → is_open b.server d ≡ true
    → (lookup a b.server.registry ≡ some c) × (c ≡ d)
unfolding AllServe
one_open env s b steps before after before' after' c d a at_c at_d open_c open_d =
    let all = Steps-AllServe env (record { server = s; serving = [] }) b steps tt in
    let i = AllServe-at b.server b.serving before after c a at_c all open_c in
    let j = AllServe-at b.server b.serving before' after' d a at_d all open_d in
    (i, ground (arith, i, j))
