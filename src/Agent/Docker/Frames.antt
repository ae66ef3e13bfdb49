-- ===== src/Agent/Docker/Frames.antt =====
-- The frames that `StreamLogsWithTail` of internal/agent/docker/docker.go reads back.
use uruflow.Prelude.{
  ◌==◌, bytes, is_nil, Bool-cases, inl, inr, if◌then◌else◌, ℕ, zero, suc, ◌+◌, ◌*◌, ◌/◌, ◌%◌, ◌^◌,
  ◌≤◌, ◌<◌, ◌≡◌, refl, ap, ◌∙◌, List, [], ◌∷◌, ◌++◌, none, Text, arith, length, take-append_length,
  drop-append_length, length-append,
}
use uruflow.Protocol.{put_uint32}
use uruflow.Agent.Docker.{
  trim_space, read_frame, Ending, ended, more, log_line, max_frame, next_frame, hand_on,
  stream_logs,
}

-- A frame as the Docker API writes it: the stream, and the bytes.
abbrev pub frame : ℕ → Text → Text
frame stream content = stream ∷ 0 ∷ 0 ∷ 0 ∷ (put_uint32 (length content) ++ content)

abbrev pub wire : List (ℕ × Text) → Text
wire [] = []
wire ((stream, content) ∷ frames) = frame stream content ++ wire frames

-- The line of a frame: its trimmed content, if that is not empty, with a mark for stream 2.
abbrev pub line_of : ℕ → Text → List Text
line_of stream content =
    if is_nil (trim_space content)
    then []
    else if stream == 2
    then (bytes "[stderr] " ++ trim_space content) ∷ []
    else trim_space content ∷ []

abbrev pub lines : List (ℕ × Text) → List Text
lines [] = []
lines ((stream, content) ∷ frames) = line_of stream content ++ lines frames

hand_on-line_of :
    (stream : ℕ) (content : Text) (ls : List Text) (e : Ending)
    → hand_on (log_line stream content) (ls, e) ≡ (line_of stream content ++ ls, e)
unfolding log_line
hand_on-line_of stream content ls e = elim (Bool-cases (is_nil (trim_space content))) [
  | inl n ↦ rw n refl
  | inr n ↦ rw n (elim (Bool-cases (stream == 2)) [ inl t ↦ rw t refl | inr t ↦ rw t refl ])
]

abbrev pub AllReadable : List (ℕ × Text) → Type 0
AllReadable [] = Unit {0}
AllReadable ((stream, content) ∷ frames) = (length content < max_frame) × AllReadable frames

size_read :
    (n : ℕ)
    → n < 2 ^ 32
    → n / 2 ^ 24 % 256 * 2 ^ 24 + n / 2 ^ 16 % 256 * 2 ^ 16 + n / 2 ^ 8 % 256 * 2 ^ 8 + n % 256 ≡ n
size_read n h = omega arith

next_frame-read_frame :
    (stream : ℕ) (content rest : Text)
    → length content < 2 ^ 32
    → next_frame (frame stream content ++ rest)
      ≡ read_frame stream (length content) (content ++ rest)
unfolding next_frame
next_frame-read_frame stream content rest h =
    ap (λ n. read_frame stream n (content ++ rest)) (size_read (length content) h)

next_frame-frame :
    (stream : ℕ) (content rest : Text)
    → length content < max_frame
    → next_frame (frame stream content ++ rest) ≡ more (log_line stream content) rest
unfolding read_frame log_line trim_space
next_frame-frame stream [] rest h = next_frame-read_frame stream [] rest (omega arith)
next_frame-frame stream (c ∷ content) rest h =
    next_frame-read_frame stream (c ∷ content) rest (omega arith)
    ∙ ground (
      arith,
      h,
      length-append (c ∷ content) rest,
      take-append_length (c ∷ content) rest,
      drop-append_length (c ∷ content) rest,
    )

-- The lines of an answer, in their order, with the mark of the error stream, where every frame is
-- below the limit and the context is not cancelled before the end; empty lines are left out.
pub stream_logs-wire :
    (frames : List (ℕ × Text)) (rounds : ℕ)
    → AllReadable frames
    → length frames < rounds
    → stream_logs rounds (wire frames) ≡ (lines frames, ended)
unfolding stream_logs
stream_logs-wire frames zero small h = absurd (omega arith)
stream_logs-wire [] (suc n) small h = refl
stream_logs-wire ((stream, content) ∷ frames) (suc n) small h =
    rw (stream_logs, next_frame-frame stream content (wire frames) small.0)
      (rw (stream_logs-wire frames n small.1 (omega arith))
        (hand_on-line_of stream content (lines frames) ended))

-- A frame of at least 1 MiB is not skipped: only its header is read, and the next round takes the
-- first bytes of the frame for a header.
pub stream_logs-oversized :
    (stream : ℕ) (content rest : Text) (rounds : ℕ)
    → max_frame ≤ length content
    → length content < 2 ^ 32
    → stream_logs (suc rounds) (frame stream content ++ rest) ≡ stream_logs rounds (content ++ rest)
unfolding stream_logs read_frame
stream_logs-oversized stream content rest rounds lo hi =
    rw (stream_logs, next_frame-read_frame stream content rest hi)
      (ground (arith, lo, hand_on_none (stream_logs rounds (content ++ rest))))
  where
    hand_on_none : (r : List Text × Ending) → hand_on none r ≡ r
    hand_on_none (ls, e) = refl
