-- ===== src/Agent/Daemon/Streams/Upkeep.antt =====
-- What each operation on the streams of an agent (internal/agent/daemon/daemon.go) does to their
-- accounts.
use uruflow.Prelude.{
  ◌≡◌, refl, ℕ, ◌+◌, ◌==◌, List, [], ◌∷◌, Option, none, some, Text, arith, map, eqb_iff, eqb,
  eqb_self, count, count-append, Bool-cases, Option-cases, inl, inr, if◌then◌else◌,
}
use uruflow.Prelude.Int.{ℤ}
use uruflow.Prelude.Maps.{
  lookup, insert, delete, lookup-delete, Unique, Unique-delete, Unique-insert, delete-none,
}
use uruflow.Protocol.{Message}
use uruflow.Protocol.Payloads.{Json, SystemMetrics}
use uruflow.Agent.Deploy.{LogLine}
use uruflow.Agent.Docker.{DockerContainer, ContainerStats}
use uruflow.Agent.Daemon.{Agent, safe_write, disconnect, stop_container_stream}
use uruflow.Agent.Daemon.Tasks.{emit_log, begin_stream, register_stream, send_metrics}
use uruflow.Agent.Daemon.Streams.{running, times, Accounted}

-- What the accounts say depends on these columns alone.
abbrev pub Same : Agent → Agent → Type 0
Same b a = (b.streams ≡ a.streams) × (b.cancelled ≡ a.cancelled) × (b.next_stream ≡ a.next_stream)

pub Accounted-Same : (a b : Agent) → Same b a → Accounted a → Accounted b
unfolding Accounted
Accounted-Same a b (s, c, n) h = rw s (rw c (rw n h))

pub safe_write-Same : (a : Agent) (msg : Message) → Same (safe_write a msg) a
unfolding safe_write
safe_write-Same a msg = elim (Bool-cases a.socket_open) [
  | inl e ↦ rw (safe_write, e) (refl, refl, refl)
  | inr e ↦ rw (safe_write, e) (refl, refl, refl)
]

pub safe_write-Accounted : (a : Agent) (msg : Message) → Accounted a → Accounted (safe_write a msg)
safe_write-Accounted a msg = Accounted-Same a (safe_write a msg) (safe_write-Same a msg)

times-delete :
    (n v : ℕ) (k : Text) (m : List (Text × ℕ))
    → lookup k m ≡ some v
    → Unique m
    → times n (map (λ e. e.1) (delete k m)) + (if v == n then 1 else 0) ≡ times n (map (λ e. e.1) m)
unfolding lookup delete count
times-delete n v k [] e u = absurd cc
times-delete n v k ((j, w) ∷ m) e u = elim (Bool-cases (eqb j k)) [
  | inl same ↦ ground (arith, same, e, delete-none k m, eqb_iff j k, u.0)
  | inr other ↦ ground (arith, other, e, times-delete n v k m, u.1)
]

pub times-insert :
    (n : ℕ) (k : Text) (v : ℕ) (m : List (Text × ℕ))
    → lookup k m ≡ none
    → times n (map (λ e. e.1) (insert k v m))
      ≡ times n (map (λ e. e.1) m) + (if v == n then 1 else 0)
unfolding lookup insert count
times-insert n k v [] e = ground arith
times-insert n k v ((j, w) ∷ m) e = ground (arith, e, times-insert n k v m)

pub stop_container_stream-Accounted :
    (a : Agent) (k : Text) → Accounted a → Accounted (stop_container_stream a k)
unfolding Accounted stop_container_stream count
stop_container_stream-Accounted a k (u, c) = elim (Option-cases (lookup k a.streams)) [
  | inl e ↦ rw (stop_container_stream, e) (u, c)
  | inr (v, e) ↦
      rw (stop_container_stream, e)
        (
          Unique-delete k a.streams u,
          λ n. ground (
            arith,
            c n,
            times-delete n v k a.streams e u,
            count-append (λ i. i == n) a.cancelled (v ∷ []),
          ),
        )
]

pub lookup-stop_container_stream :
    (a : Agent) (k : Text) → lookup k (stop_container_stream a k).streams ≡ none
unfolding stop_container_stream
lookup-stop_container_stream a k = elim (Option-cases (lookup k a.streams)) [
  | inl e ↦ rw (stop_container_stream, e) e
  | inr (v, e) ↦
      rw (stop_container_stream, e) (ground (arith, lookup-delete k k a.streams, eqb_self k))
]

pub begin_stream-Accounted : (a : Agent) (k : Text) → Accounted a → Accounted (begin_stream a k)
unfolding Accounted begin_stream register_stream
begin_stream-Accounted a k h =
    let (u, c) = stop_container_stream-Accounted a k h in
    let free = lookup-stop_container_stream a k in
    let s = stop_container_stream a k in
    (
      Unique-insert k s.next_stream s.streams u,
      λ n. ground (arith, c n, times-insert n k s.next_stream s.streams free),
    )

pub disconnect-Accounted : (a : Agent) → Accounted a → Accounted (disconnect a)
unfolding Accounted disconnect safe_write count
disconnect-Accounted a (u, c) = elim (Bool-cases a.connected) [
  | inl e ↦ elim (Bool-cases a.socket_open) [
    | inl o ↦
        rw (disconnect, e, safe_write, o)
          (tt, λ n. ground (arith, c n, count-append (λ i. i == n) a.cancelled (running a)))
    | inr o ↦
        rw (disconnect, e, safe_write, o)
          (tt, λ n. ground (arith, c n, count-append (λ i. i == n) a.cancelled (running a)))
  ]
  | inr e ↦
      rw (disconnect, e)
        (tt, λ n. ground (arith, c n, count-append (λ i. i == n) a.cancelled (running a)))
]

pub emit_log-Accounted :
    (json : Json) (now : ℤ) (a : Agent) (l : LogLine)
    → Accounted a
    → Accounted (emit_log json now a l)
unfolding emit_log
emit_log-Accounted json now a l h = elim (Option-cases a.log_target) [
  | inl e ↦ rw (emit_log, e) h
  | inr (id, e) ↦ rw (emit_log, e) (safe_write-Accounted a _ h)
]

pub send_metrics-Accounted :
    (json : Json) (now : ℤ) (system : Option SystemMetrics) (stats : Text → Option ContainerStats)
    (containers : Option (List DockerContainer)) (a : Agent)
    → Accounted a
    → Accounted (send_metrics json now system stats containers a)
unfolding send_metrics
send_metrics-Accounted json now none stats containers a h = h
send_metrics-Accounted json now (some system) stats containers a h = safe_write-Accounted a _ h
