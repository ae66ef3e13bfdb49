-- ===== src/Agent/Daemon/Streams/Races.antt =====
-- What the log streams of internal/agent/daemon/daemon.go lose when requests for one container
-- overlap.
use uruflow.Prelude.{
  ◌≡◌, ap, ◌∙◌, ℕ, suc, ◌+◌, ◌==◌, map, [], ◌∷◌, none, some, Text, arith, eqb_self, count,
  count-append, Bool-cases, inl, inr,
}
use uruflow.Prelude.Maps.{lookup, lookup-insert, insert-insert}
use uruflow.Agent.Daemon.{Agent, safe_write, disconnect, stop_container_stream}
use uruflow.Agent.Daemon.Tasks.{begin_stream, register_stream}
use uruflow.Agent.Daemon.Streams.{running, times, Accounted}
use uruflow.Agent.Daemon.Streams.Upkeep.{
  stop_container_stream-Accounted, lookup-stop_container_stream, begin_stream-Accounted,
  times-insert,
}

next-stop : (a : Agent) (k : Text) → (stop_container_stream a k).next_stream ≡ a.next_stream
unfolding stop_container_stream
next-stop a k = ground arith

times-stop :
    (v : ℕ) (a : Agent) (k : Text)
    → lookup k a.streams ≡ some v
    → times v a.cancelled ≡ 0
    → times v (stop_container_stream a k).cancelled ≡ 1
unfolding stop_container_stream count
times-stop v a k e z =
    rw (stop_container_stream, e)
      (ground (arith, z, count-append (λ i. i == v) a.cancelled (v ∷ [])))

-- When a container's log is asked for twice, and the first stream ends after the second began, its
-- clean-up cancels the second, which was running, and takes it out of the map.
pub late_end :
    (a : Agent) (k : Text)
    → Accounted a
    → let newer = begin_stream (begin_stream a k) k in
      let second = (begin_stream a k).next_stream in
      (lookup k newer.streams ≡ some second)
      × (times second newer.cancelled ≡ 0)
      × (lookup k (stop_container_stream newer k).streams ≡ none)
      × (times second (stop_container_stream newer k).cancelled ≡ 1)
unfolding Accounted begin_stream register_stream count
late_end a k h =
    let first = begin_stream a k in
    let s = stop_container_stream first k in
    let accounts = (stop_container_stream-Accounted first k (begin_stream-Accounted a k h)).1 in
    let found : lookup k (begin_stream first k).streams ≡ some first.next_stream =
      ground (arith, lookup-insert k k s.next_stream s.streams, eqb_self k, next-stop first k) in
    (
      found,
      ground (arith, accounts first.next_stream, next-stop first k),
      lookup-stop_container_stream (begin_stream first k) k,
      times-stop first.next_stream (begin_stream first k) k found
          (ground (arith, accounts first.next_stream, next-stop first k)),
    )

disconnect-times :
    (n : ℕ) (a : Agent)
    → times n (disconnect a).cancelled ≡ times n a.cancelled + times n (running a)
unfolding disconnect safe_write count
disconnect-times n a = elim (Bool-cases a.connected) [
  | inl e ↦ elim (Bool-cases a.socket_open) [
    | inl o ↦ rw (disconnect, e, safe_write, o) (count-append (λ i. i == n) a.cancelled (running a))
    | inr o ↦ rw (disconnect, e, safe_write, o) (count-append (λ i. i == n) a.cancelled (running a))
  ]
  | inr e ↦ rw (disconnect, e) (count-append (λ i. i == n) a.cancelled (running a))
]

-- The lock is taken twice, so that two requests for one container's log may both have stopped the
-- older stream before one registers its own. Then the first of the two new streams is neither in
-- the map nor cancelled, and not even a disconnect cancels it.
pub lost_stream :
    (a : Agent) (k : Text)
    → Accounted a
    → let both = stop_container_stream (stop_container_stream a k) k in
      let b = register_stream (register_stream both k) k in
      (times both.next_stream (running b) ≡ 0)
      × (times both.next_stream b.cancelled ≡ 0)
      × (times both.next_stream (disconnect b).cancelled ≡ 0)
unfolding Accounted register_stream count
lost_stream a k h =
    let one = stop_container_stream a k in
    let s = stop_container_stream one k in
    let n = s.next_stream in
    let free = lookup-stop_container_stream one k in
    let accounts =
      (stop_container_stream-Accounted one k (stop_container_stream-Accounted a k h)).1 n in
    let b = register_stream (register_stream s k) k in
    let gone : times n (running b) ≡ 0 =
      ap (λ m. times n (map (λ e. e.1) m)) (insert-insert k n (suc n) s.streams)
      ∙ ground (arith, accounts, times-insert n k (suc n) s.streams, free) in
    let kept : times n b.cancelled ≡ 0 = ground (arith, accounts) in
    (gone, kept, disconnect-times n b ∙ omega (arith, gone, kept))
