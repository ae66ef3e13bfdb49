-- ===== src/Agent/Daemon/Lines.antt =====
-- A line of a container on its way through internal/agent/docker/docker.go and
-- internal/agent/daemon/daemon.go: the mark for the error stream is put on and taken off again.
use uruflow.Prelude.{
  ◌≡◌, ◌≢◌, ◌⊎◌, refl, sym, ap, ◌∙◌, ℕ, ◌==◌, Bool, true, false, ◌&&◌, [], ◌∷◌, ◌++◌, some, Text,
  bytes, arith, length, take, drop, take-drop, subst, is_nil, ltb, eqb, eqb_iff, Bool-cases, inl,
  inr, if◌then◌else◌,
}
use uruflow.Prelude.Int.{ℤ}
use uruflow.Agent.Docker.{log_line, trim_space}
use uruflow.Agent.Daemon.Tasks.{payload_of_line}

marked : Text → Text
marked line = bytes "[stderr] " ++ line

payload-marked :
    (now : ℤ) (id line : Text)
    → is_nil line ≡ false
    → payload_of_line now id (marked line)
      ≡ record { container_id = id; line = line; stream = bytes "stderr"; timestamp = now }
unfolding payload_of_line marked eqb
payload-marked now id [] e = absurd cc
payload-marked now id (c ∷ line) e = ground arith

payload-plain :
    (now : ℤ) (id line : Text)
    → let p = payload_of_line now id line in
      ((p.stream ≡ bytes "stdout") × (p.line ≡ line))
      ⊎ ((p.stream ≡ bytes "stderr") × (line ≡ bytes "[stderr] " ++ p.line))
unfolding payload_of_line
payload-plain now id line =
    elim (Bool-cases (ltb 9 (length line) && eqb (take 9 line) (bytes "[stderr] "))) [
      | inl e ↦
          rw (payload_of_line, e)
            (inr (refl, sym (take-drop 9 line) ∙ ap (◌++ drop 9 line) (prefix e)))
      | inr e ↦ rw (payload_of_line, e) (inl (refl, refl))
    ]
  where
    prefix :
        ltb 9 (length line) && eqb (take 9 line) (bytes "[stderr] ") ≡ true
        → take 9 line ≡ bytes "[stderr] "
    prefix e = (eqb_iff (take 9 line) (bytes "[stderr] ")).0 (ground (arith, e))

-- The line that is handed on, for trimmed content that is not empty.
log_line-some :
    (stream : ℕ) (content l : Text)
    → log_line stream content ≡ some l
    → (is_nil (trim_space content) ≡ false)
      × (l ≡ (if stream == 2 then marked (trim_space content) else trim_space content))
unfolding log_line marked
log_line-some stream content l e = elim (Bool-cases (is_nil (trim_space content))) [
  | inl n ↦ absurd (ground (arith, e, n))
  | inr n ↦ (n, ground (arith, e, n))
]

-- What is sent for a line that Docker's stream hands on: a line of the error stream is sent as such, trimmed; a line of another stream is sent trimmed as standard output, but if it starts with the mark of the error stream itself it is taken for a line of that and loses the mark.
pub payload_of_line-log_line :
    (now : ℤ) (id : Text) (stream : ℕ) (content l : Text)
    → log_line stream content ≡ some l
    → let p = payload_of_line now id l in
      ((stream ≡ 2) × (p.stream ≡ bytes "stderr") × (p.line ≡ trim_space content))
      ⊎ (stream ≢ 2)
        × (((p.stream ≡ bytes "stdout") × (p.line ≡ trim_space content))
            ⊎ ((p.stream ≡ bytes "stderr") × (trim_space content ≡ bytes "[stderr] " ++ p.line)))
unfolding log_line
payload_of_line-log_line now id stream content l e =
    let (full, same) = log_line-some stream content l e in
    let line = trim_space content in
    let choice = λ (b : Bool). if b then marked line else line in
    elim (Bool-cases (stream == 2)) [
      | inl two ↦
          let sent =
            ap (payload_of_line now id) (same ∙ ap choice two) ∙ payload-marked now id line full in
          inl (ground (arith, two), ap (λ p. p.stream) sent, ap (λ p. p.line) sent)
      | inr other ↦ inr (
        ground (arith, other),
        subst
            (λ t.
              let p = payload_of_line now id t in
              ((p.stream ≡ bytes "stdout") × (p.line ≡ line))
              ⊎ ((p.stream ≡ bytes "stderr") × (line ≡ bytes "[stderr] " ++ p.line)))
            (sym (same ∙ ap choice other)) (payload-plain now id line),
      )
    ]
