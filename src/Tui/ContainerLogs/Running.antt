-- ===== src/Tui/ContainerLogs/Running.antt =====
-- A log that is followed in internal/tui/views/container_logs.go, message by message.
use mathlib.Core.List.{append_assoc, append-nil}
use uruflow.Prelude.{
  ℕ, ◌-◌, ◌≤◌, Bool, true, false, not, ◌&&◌, List, [], ◌∷◌, ◌++◌, Option, none, some, Text, bytes,
  eqb, length, drop, ◌≡◌, refl, ap, sym, ◌∙◌, subst, arith, Bool-cases, inl, inr, if◌then◌else◌,
}
use uruflow.Prelude.Int.{ℤ}
use uruflow.Protocol.Payloads.{ContainerLogsDataPayload}
use uruflow.Tui.Run.{every}
use uruflow.Tui.Logs.{LogRow}
use uruflow.Tui.Logs.Window.{length-drop}
use uruflow.Tui.Dialog.{one_of}
use uruflow.Tui.ContainerLogs.{
  ContainerLogsModel, Msg, key, log_line, other, Call, update, update_select, update_view,
  append_line, row_of,
}
use uruflow.Tui.ContainerLogs.Buffer.{keep_last, keep_last-append, append_line_lem}

-- The log stays open and is not cleared.
abbrev pub is_quiet : Msg → Bool
is_quiet (key pressed) = not (one_of pressed (bytes "esc" ∷ bytes "c" ∷ []))
is_quiet _ = true

abbrev IsKept : ContainerLogsModel → ContainerLogsModel → Type 0
IsKept m m' = (m'.logs ≡ m.logs) × (m'.follows ≡ m.follows) × (m'.container_id ≡ m.container_id)

view-IsKept :
    (m : ContainerLogsModel) (pressed : Text)
    → is_quiet (key pressed) ≡ true
    → IsKept m (update_view m pressed).0
unfolding update_view one_of
view-IsKept m pressed quiet = ground (arith, quiet)

append-IsKept :
    (m : ContainerLogsModel) (row : LogRow)
    → ((append_line m row).follows ≡ m.follows)
      × ((append_line m row).container_id ≡ m.container_id)
unfolding append_line
append-IsKept m row = ground arith

module _ (time_of_day : ℤ → Text) where
  unfoldable pub after : ContainerLogsModel → List Msg → Option ContainerLogsModel
  unfolding update
  after m [] = some m
  after m (msg ∷ msgs) = elim (update time_of_day m msg) [ none ↦ none | some r ↦ after r.0 msgs ]

  -- The lines that arrive for a container.
  unfoldable pub lines_for : Text → List Msg → List LogRow
  lines_for id [] = []
  lines_for id (log_line p ∷ msgs) =
      let rest = lines_for id msgs in
      if eqb p.container_id id then row_of time_of_day p ∷ rest else rest
  lines_for id (_ ∷ msgs) = lines_for id msgs

  abbrev pub IsBuffered : ContainerLogsModel → List Msg → Type 0
  IsBuffered m msgs =
      (m' : ContainerLogsModel) × (after m msgs ≡ some m')
      × (m'.logs ≡ keep_last 2000 (m.logs ++ lines_for m.container_id msgs))

  key_step :
      (m : ContainerLogsModel) (pressed : Text)
      → m.follows ≡ true
      → update time_of_day m (key pressed) ≡ some (update_view m pressed)
  unfolding update
  key_step m pressed follows =
      ap (λ b. if b then some (update_view m pressed) else update_select m pressed) follows

  line_step :
      (m : ContainerLogsModel) (p : ContainerLogsDataPayload)
      → m.follows ≡ true
      → update time_of_day m (log_line p)
        ≡ some (
          (if eqb p.container_id m.container_id then append_line m (row_of time_of_day p) else m),
          [],
        )
  unfolding update
  line_step m p follows =
      ap
        (λ b. some (
          (if b && eqb p.container_id m.container_id
              then append_line m (row_of time_of_day p)
              else m),
          [],
        ))
        follows

  none_over : (n : ℕ) → n ≤ 2000 → 0 ≡ n - 2000
  none_over n h = omega arith

  all_kept : (rows : List LogRow) → length rows ≤ 2000 → rows ≡ keep_last 2000 rows
  all_kept rows few = ap (λ n. drop n rows) (none_over (length rows) few)

  short : (rows : List LogRow) → length (keep_last 2000 rows) ≤ 2000
  short rows = omega (arith, length-drop (length rows - 2000) rows)

  -- What is kept of the old rows, of a new one and of the rest.
  kept_on :
      (old rows rest : List LogRow)
      → rows ≡ keep_last 2000 old
      → keep_last 2000 (rows ++ rest) ≡ keep_last 2000 (old ++ rest)
  kept_on old rows rest e = ap (λ x. keep_last 2000 (x ++ rest)) e ∙ keep_last-append 2000 old rest

  -- After a step that changes no more than the rows.
  continued :
      (m m₁ : ContainerLogsModel) (msg : Msg) (msgs : List Msg) (cs : List Call) (old : List LogRow)
      → update time_of_day m msg ≡ some (m₁, cs)
      → m₁.container_id ≡ m.container_id
      → m₁.logs ≡ keep_last 2000 old
      → m.logs ++ lines_for m.container_id (msg ∷ msgs) ≡ old ++ lines_for m.container_id msgs
      → IsBuffered m₁ msgs
      → IsBuffered m (msg ∷ msgs)
  unfolding after
  continued m m₁ msg msgs cs old stepped same_id rows same (m', ran, kept) = (
    m',
    ap (λ o. elim o [ none ↦ none | some r ↦ after r.0 msgs ]) stepped ∙ ran,
    kept
        ∙ kept_on old m₁.logs (lines_for m₁.container_id msgs) rows
        ∙ ap (λ i. keep_last 2000 (old ++ lines_for i msgs)) same_id
        ∙ ap (keep_last 2000) (sym same),
  )

  -- What a line adds to the rows.
  line_rows :
      (m : ContainerLogsModel) (p : ContainerLogsDataPayload) (msgs : List Msg)
      → eqb p.container_id m.container_id ≡ true
      → m.logs ++ lines_for m.container_id (log_line p ∷ msgs)
        ≡ (m.logs ++ row_of time_of_day p ∷ []) ++ lines_for m.container_id msgs
  unfolding lines_for
  line_rows m p msgs mine =
      rw mine
        (sym (append_assoc m.logs (row_of time_of_day p ∷ []) (lines_for m.container_id msgs)))

  foreign_rows :
      (m : ContainerLogsModel) (p : ContainerLogsDataPayload) (msgs : List Msg)
      → eqb p.container_id m.container_id ≡ false
      → m.logs ++ lines_for m.container_id (log_line p ∷ msgs)
        ≡ m.logs ++ lines_for m.container_id msgs
  unfolding lines_for
  foreign_rows m p msgs other_one = rw other_one

  -- As long as the log of a container stays open and is not cleared, the view runs without a panic
  -- and keeps the last 2000 of the lines that it had and those that arrive for the container, in
  -- order.
  pub buffer_lem :
      (m : ContainerLogsModel) (msgs : List Msg)
      → m.follows ≡ true
      → length m.logs ≤ 2000
      → every is_quiet msgs ≡ true
      → IsBuffered m msgs
  unfolding after lines_for every update
  buffer_lem m [] follows few quiet = (
    m,
    refl,
    ap (λ n. drop n m.logs) (none_over (length m.logs) few)
        ∙ ap (keep_last 2000) (sym (append-nil m.logs)),
  )
  buffer_lem m (key pressed ∷ msgs) follows few quiet =
      let m₁ = (update_view m pressed).0 in
      let (logs, follows', id) = view-IsKept m pressed (ground (arith, quiet)) in
      continued m m₁ (key pressed) msgs (update_view m pressed).1 m.logs
        (key_step m pressed follows) id (logs ∙ all_kept m.logs few) refl
        (buffer_lem m₁ msgs (follows' ∙ follows) (subst (λ l. length l ≤ 2000) (sym logs) few)
          (ground (arith, quiet)))
  buffer_lem m (log_line p ∷ msgs) follows few quiet =
      let row = row_of time_of_day p in
      let m₁ = append_line m row in
      let (follows', id) = append-IsKept m row in
      let logs = append_line_lem m row few in
      elim (Bool-cases (eqb p.container_id m.container_id)) [
        | inl mine ↦
            continued m m₁ (log_line p) msgs [] (m.logs ++ row ∷ [])
              (line_step m p follows ∙ rw mine) id logs (line_rows m p msgs mine)
              (buffer_lem m₁ msgs (follows' ∙ follows)
                (subst (λ l. length l ≤ 2000) (sym logs) (short (m.logs ++ row ∷ []))) quiet)
        | inr foreign ↦
            continued m m (log_line p) msgs [] m.logs (line_step m p follows ∙ rw foreign) refl
              (all_kept m.logs few) (foreign_rows m p msgs foreign)
              (buffer_lem m msgs follows few quiet)
      ]
  buffer_lem m (other ∷ msgs) follows few quiet =
      continued m m other msgs [] m.logs refl refl (all_kept m.logs few) refl
        (buffer_lem m msgs follows few quiet)
