-- ===== src/Agent/Daemon/Overlap.antt =====
-- Two deployments at a time in internal/agent/daemon/daemon.go: they share the executor's handler.
use uruflow.Prelude.{sym, some, List, map, ◌≡◌, refl, ap, ◌∙◌, true, [], ◌∷◌, ◌++◌, Text}
use uruflow.Prelude.Int.{ℤ}
use uruflow.Protocol.{Message}
use uruflow.Protocol.Payloads.{Json}
use mathlib.Core.List.{append_assoc, append-nil}
use uruflow.Agent.Daemon.Verdict.{safe_write-Wrote, emit_log_target, Wrote, safe_write-log_target}
use uruflow.Agent.Deploy.{LogLine}
use uruflow.Agent.Daemon.{Agent, safe_write}
use uruflow.Agent.Daemon.Tasks.{begin_deploy, start_message, emit_log, log_message}

-- Lines that are handed on one after the other, each at its time.
abbrev pub emit_each : Json → Agent → List (ℤ × LogLine) → Agent
emit_each json a [] = a
emit_each json a ((now, l) ∷ ls) = emit_each json (emit_log json now a l) ls

emit_each-Wrote :
    (json : Json) (id : Text) (ls : List (ℤ × LogLine)) (a : Agent) {ms : List Message}
    → Wrote a ms
    → a.log_target ≡ some id
    → (emit_each json a ls).sent ≡ ms ++ map (λ l. log_message json l.0 id l.1) ls
emit_each-Wrote json id [] a {ms} (o, s) e = s ∙ sym (append-nil ms)
emit_each-Wrote json id ((now, l) ∷ ls) a {ms} h e =
    let m = log_message json now id l in
    ap (λ b. (emit_each json b ls).sent) (emit_log_target json now a l e)
    ∙ emit_each-Wrote json id ls (safe_write a m) (safe_write-Wrote a m h)
        (safe_write-log_target a m ∙ e)
    ∙ append_assoc ms (m ∷ []) (map (λ l. log_message json l.0 id l.1) ls)

-- When a second deployment begins before the first has ended, every line after that, until one of
-- them ends, is sent under the id of the second, whichever of the two runs hands it on; the lines
-- are sent in the order in which they are handed on.
pub emit_log-overlap :
    (json : Json) (first second : ℤ) (a : Agent) (id other : Text) (ls : List (ℤ × LogLine))
    → a.socket_open ≡ true
    → (emit_each json (begin_deploy json second (begin_deploy json first a id) other) ls).sent
      ≡ a.sent
        ++ start_message json first id
          ∷ start_message json second other
          ∷ map (λ l. log_message json l.0 other l.1) ls
unfolding begin_deploy
emit_log-overlap json first second a id other ls o =
    let one = safe_write-Wrote a (start_message json first id) (o, refl) in
    let two =
      safe_write-Wrote (begin_deploy json first a id) (start_message json second other) one in
    emit_each-Wrote json other ls (begin_deploy json second (begin_deploy json first a id) other)
      two refl
    ∙ simp append_assoc
