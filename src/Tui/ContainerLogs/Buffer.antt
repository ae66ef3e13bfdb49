-- ===== src/Tui/ContainerLogs/Buffer.antt =====
-- The lines that internal/tui/views/container_logs.go keeps of a followed log.
use uruflow.Prelude.{
  ℕ, zero, suc, ◌+◌, ◌-◌, ◌≤◌, Bool, true, false, List, [], ◌∷◌, ◌++◌, ltb, length, drop,
  length-append, ◌≡◌, refl, ap, sym, ◌∙◌, arith, Bool-cases, inl, inr, if◌then◌else◌,
}
use uruflow.Tui.Logs.{LogRow}
use uruflow.Tui.Logs.Window.{length-drop}
use uruflow.Tui.ContainerLogs.{ContainerLogsModel, append_line, to_end}

-- The last rows, at most so many.
abbrev pub keep_last : ℕ → List LogRow → List LogRow
keep_last n rows = drop (length rows - n) rows

add_suc : (j k : ℕ) → suc (k + j) ≡ suc k + j
add_suc j k = omega arith

drop-drop : (j k : ℕ) (xs : List LogRow) → drop j (drop k xs) ≡ drop (k + j) xs
drop-drop j zero xs = ap (λ n. drop n xs) (omega arith)
drop-drop j (suc k) [] = drop_nil j ∙ sym (drop_nil (suc k + j))
  where
    drop_nil : (n : ℕ) → drop {A = LogRow} n [] ≡ []
    drop_nil zero = refl
    drop_nil (suc n) = refl
drop-drop j (suc k) (x ∷ xs) = drop-drop j k xs ∙ ap (λ n. drop n (x ∷ xs)) (add_suc j k)

drop-append : (k : ℕ) (xs ys : List LogRow) → k ≤ length xs → drop k xs ++ ys ≡ drop k (xs ++ ys)
drop-append zero xs ys h = refl
drop-append (suc k) [] ys h = absurd (omega arith)
drop-append (suc k) (x ∷ xs) ys h = drop-append k xs ys (omega arith)

same_start : (n a b ab left : ℕ) → ab ≡ a + b → left ≡ ab - (a - n) → a - n + (left - n) ≡ ab - n
same_start n a b ab left h k = omega arith

pub keep_last-append :
    (n : ℕ) (xs ys : List LogRow) → keep_last n (keep_last n xs ++ ys) ≡ keep_last n (xs ++ ys)
keep_last-append n xs ys =
    let k = length xs - n in
    let inside : k ≤ length xs = omega arith in
    ap (keep_last n) (drop-append k xs ys inside)
    ∙ drop-drop (length (drop k (xs ++ ys)) - n) k (xs ++ ys)
    ∙ ap (λ i. drop i (xs ++ ys))
        (same_start n (length xs) (length ys) (length (xs ++ ys)) (length (drop k (xs ++ ys)))
          (length-append xs ys) (length-drop k (xs ++ ys)))

pub follow-logs :
    (b : Bool) (m : ContainerLogsModel)
    → ((if b then to_end m else m).logs ≡ m.logs)
      × ((if b then to_end m else m).follows ≡ m.follows)
      × ((if b then to_end m else m).container_id ≡ m.container_id)
follow-logs true m = (refl, refl, refl)
follow-logs false m = (refl, refl, refl)

full :
    (m : ContainerLogsModel) (rows : List LogRow)
    → length rows ≤ 2001
    → (if ltb 2000 (length rows)
        then record m { logs = drop 1 rows; offset = m.offset - 1 }
        else record m { logs = rows }).logs
      ≡ keep_last 2000 rows
full m rows h = elim (Bool-cases (ltb 2000 (length rows))) [
  | inl more ↦ rw more (ap (λ n. drop n rows) (one_over (length rows) (ground (arith, more, h))))
  | inr fits ↦ rw fits (ap (λ n. drop n rows) (none_over (length rows) (ground (arith, fits))))
]
  where
    one_over : (n : ℕ) → n ≡ 2001 → 1 ≡ n - 2000
    one_over n e = omega arith

    none_over : (n : ℕ) → n ≤ 2000 → 0 ≡ n - 2000
    none_over n e = omega arith

pub append_line_lem :
    (m : ContainerLogsModel) (row : LogRow)
    → length m.logs ≤ 2000
    → (append_line m row).logs ≡ keep_last 2000 (m.logs ++ row ∷ [])
unfolding append_line
append_line_lem m row h =
    (follow-logs m.auto_follow _).0
    ∙ full m (m.logs ++ row ∷ []) (omega (arith, length-append m.logs (row ∷ [])))
