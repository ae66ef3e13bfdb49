-- ===== src/Tui/Logs/Window.antt =====
-- The visible part of a log in internal/tui/views/logs.go.
use uruflow.Prelude.{
  ◌≡◌, refl, sym, ap, ◌∙◌, ℕ, zero, suc, ◌+◌, ◌-◌, ◌≤◌, ◌<◌, Bool, true, false, List, [], ◌∷◌, some,
  arith, ltb, leb, length, take, drop, Bool-cases, inl, inr, if◌then◌else◌,
}
use uruflow.Tui.Logs.{
  LogRow, LogsModel, fetched_logs, update, nth, rows_from, visible_rows, visible_lines,
}

nth-drop :
    (i : ℕ) (logs : List LogRow)
    → i < length logs
    → (row : LogRow) × (nth i logs ≡ some row) × (drop i logs ≡ row ∷ drop (suc i) logs)
unfolding nth
nth-drop i [] h = absurd (omega arith)
nth-drop zero (row ∷ logs) h = (row, refl, refl)
nth-drop (suc i) (row ∷ logs) h = nth-drop i logs (omega arith)

-- The loop stays inside the log.
rows_from-drop :
    (n i : ℕ) (logs : List LogRow)
    → n + i ≤ length logs
    → rows_from n i logs ≡ some (take n (drop i logs))
unfolding rows_from
rows_from-drop zero i logs h = refl
rows_from-drop (suc n) i logs h =
    let (row, here, rest) = nth-drop i logs (omega arith) in
    rw (rows_from, here, rows_from-drop n (suc i) logs (omega arith), rest) refl

take-short : (n : ℕ) (xs : List LogRow) → length xs ≤ n → take n xs ≡ xs
take-short zero [] h = refl
take-short zero (x ∷ xs) h = absurd (omega arith)
take-short (suc n) [] h = refl
take-short (suc n) (x ∷ xs) h = ap (◌∷◌ x) (take-short n xs (omega arith))

pub length-drop : (n : ℕ) (xs : List LogRow) → length (drop n xs) ≡ length xs - n
length-drop zero xs = omega arith
length-drop (suc n) [] = omega arith
length-drop (suc n) (x ∷ xs) = length-drop n xs ∙ omega arith

drop-past : (n : ℕ) (xs : List LogRow) → length xs ≤ n → drop n xs ≡ []
drop-past zero [] h = refl
drop-past zero (x ∷ xs) h = absurd (omega arith)
drop-past (suc n) [] h = refl
drop-past (suc n) (x ∷ xs) h = drop-past n xs (omega arith)

take-nil : (n : ℕ) → take {A = LogRow} n [] ≡ []
take-nil zero = refl
take-nil (suc n) = refl

-- A window that reaches the end of the log.
window-rest :
    (lines offset : ℕ) (logs : List LogRow)
    → length logs < offset + lines
    → rows_from (length logs - offset) offset logs ≡ some (take lines (drop offset logs))
unfolding rows_from
window-rest lines offset logs short = elim (Bool-cases (leb offset (length logs))) [
  | inl e ↦
      rows_from-drop (length logs - offset) offset logs (ground (arith, e))
      ∙ ap some (
          take-short (length logs - offset) (drop offset logs)
            (omega (arith, length-drop offset logs))
          ∙ sym (take-short lines (drop offset logs) (omega (arith, length-drop offset logs))))
  | inr e ↦
      ap (λ n. rows_from n offset logs) (gone e)
      ∙ ap some (sym (ap (take lines) (drop-past offset logs (past e)) ∙ take-nil lines))
]
  where
    past : leb offset (length logs) ≡ false → length logs ≤ offset
    past e = ground (arith, e)

    gone : leb offset (length logs) ≡ false → length logs - offset ≡ 0
    gone e = ground (arith, e)

pub window :
    (lines offset : ℕ) (logs : List LogRow)
    → rows_from
        ((if ltb (length logs) (offset + lines) then length logs else offset + lines) - offset)
        offset
        logs
      ≡ some (take lines (drop offset logs))
window lines offset logs = elim (Bool-cases (ltb (length logs) (offset + lines))) [
  | inl e ↦ rw e (window-rest lines offset logs (ground (arith, e)))
  | inr e ↦ rw e (
      ap (λ n. rows_from n offset logs) (count lines offset)
      ∙ rows_from-drop lines offset logs (ground (arith, e)))
]
  where
    count : (lines offset : ℕ) → offset + lines - offset ≡ lines
    count lines offset = omega arith

-- The visible rows are those from the offset on, as many as the window has lines; no offset makes
-- the view panic.
pub visible_rows_lem :
    (m : LogsModel) → visible_rows m ≡ some (take (visible_lines m.height) (drop m.offset m.logs))
unfolding visible_rows
visible_rows_lem m = window (visible_lines m.height) m.offset m.logs

-- The last rows of a log, in a window of a height.
pub last_rows :
    (height : ℕ) (rows : List LogRow)
    → take (visible_lines height) (drop (length rows + 12 - height) rows)
      ≡ (if leb 13 height then drop (length rows + 12 - height) rows else [])
last_rows height rows = elim (Bool-cases (leb 13 height)) [
  | inl e ↦ rw e (
      take-short (height - 12) (drop (length rows + 12 - height) rows)
        (ground (arith, e, length-drop (length rows + 12 - height) rows)))
  | inr e ↦ rw e (ap (take 1) (drop-past (length rows + 12 - height) rows (ground (arith, e))))
]

drop-nil : (n : ℕ) → drop {A = LogRow} n [] ≡ []
drop-nil zero = refl
drop-nil (suc n) = refl

no_rows :
    (lines offset n : ℕ) (large : Bool)
    → take lines (drop {A = LogRow} offset []) ≡ (if large then drop n [] else [])
no_rows lines offset n true = ap (take lines) (drop-nil offset) ∙ take-nil lines ∙ sym (drop-nil n)
no_rows lines offset n false = ap (take lines) (drop-nil offset) ∙ take-nil lines

-- A view that follows its log shows the last lines of what it fetched, as many as the window has
-- lines for the log, if the window has more than twelve rows; in a smaller one it shows none.
pub follow_shows_last :
    (m : LogsModel) (rows : List LogRow)
    → m.auto_follow ≡ true
    → visible_rows (update m (fetched_logs rows)).0
      ≡ some (if leb 13 m.height then drop (length rows + 12 - m.height) rows else [])
unfolding update
follow_shows_last m [] follow = rw follow (
    visible_rows_lem (record m { logs = []; auto_follow = true })
    ∙ ap some (no_rows (visible_lines m.height) m.offset (12 - m.height) (leb 13 m.height)))
follow_shows_last m (row ∷ rows) follow = rw follow (
    visible_rows_lem (record m {
      logs = row ∷ rows;
      offset = length (row ∷ rows) + 12 - m.height;
      auto_follow = true;
    })
    ∙ ap some (last_rows m.height (row ∷ rows)))
