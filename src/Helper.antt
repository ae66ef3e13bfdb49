-- ===== src/Helper.antt =====
-- pkg/helper/tui.go: text for the terminal. A Go string that is ranged over is a list of code
-- points here, one that is sliced a list of bytes.
pub mod Sizes
pub mod Splitting
use uruflow.Prelude.{
  ℕ, zero, suc, ◌+◌, ◌-◌, ◌*◌, ◌/◌, ◌%◌, ◌^◌, Bool, true, false, List, [], ◌∷◌, ◌++◌, Option, none,
  some, Text, bytes, leb, ltb, ◌==◌, is_nil, length, take, if◌then◌else◌,
}
use uruflow.Prelude.Int.{ℤ, pos, negsuc}

abbrev pub newline : ℕ
newline = 10

-- The loop of `SplitLines`; `current` is the line so far.
unfoldable pub split_from : Text → Text → List Text
split_from current [] = if is_nil current then [] else current ∷ []
split_from current (c ∷ s) =
    let ended = current ∷ split_from [] s in
    let longer = split_from (current ++ c ∷ []) s in if c == newline then ended else longer

-- `SplitLines`
unfoldable pub split_lines : Text → List Text
unfolding split_from
split_lines s = split_from [] s

-- `CountLines`
unfoldable pub count_lines : Text → ℕ
count_lines [] = 0
count_lines (c ∷ s) = let rest = count_lines s in if c == newline then suc rest else rest

-- `Spaces`
unfoldable pub spaces : ℕ → Text
spaces zero = []
spaces (suc n) = 32 ∷ spaces n

-- `CenterText`; half of a negative number is at most zero.
unfoldable pub center_text : Text → ℤ → Text
unfolding spaces
center_text text (pos width) = spaces ((width - length text) / 2) ++ text
center_text text (negsuc n) = text

-- The loop of `FormatBytes` with at most so many rounds: the unit, and the index of its letter.
unfoldable pub scale_up : ℕ → ℕ → ℕ → ℕ → Option (ℕ × ℕ)
scale_up zero n div exp = none
scale_up (suc k) n div exp =
    let more = scale_up k (n / 1024) (div * 1024 % 2 ^ 64) (suc exp) in
    if leb 1024 n then more else some (div, exp)

-- The six rounds are enough for a uint64.
unfoldable pub scale_of : ℕ → Option (ℕ × ℕ)
unfolding scale_up
scale_of size = scale_up 6 (size / 1024) 1024 0

-- "KMGTPE"[exp]; `none` is the panic.
unfoldable pub letter_at : ℕ → Text → Option Text
letter_at i [] = none
letter_at zero (c ∷ cs) = some (c ∷ [])
letter_at (suc i) (c ∷ cs) = letter_at i cs

abbrev with_letter : Text → Option Text → Option Text
with_letter quotient none = none
with_letter quotient (some letter) = some (quotient ++ bytes " " ++ letter ++ bytes "B")

-- `FormatBytes`; `whole` prints a number, `tenths` a quotient with one digit after the point.
unfoldable pub format_bytes : (ℕ → Text) → (ℕ → ℕ → Text) → ℕ → Option Text
unfolding scale_of letter_at
format_bytes whole tenths size =
    if ltb size 1024 then some (whole size ++ bytes " B") else elim (scale_of size) [
      | none ↦ none
      | some scale ↦ with_letter (tenths size scale.0) (letter_at scale.1 (bytes "KMGTPE"))
    ]

-- `TruncateString`; `none` is the panic of a negative length.
unfoldable pub truncate_string : Text → ℤ → Option Text
truncate_string s (negsuc n) = none
truncate_string s (pos max_len) =
    if leb (length s) max_len
    then some s
    else if leb max_len 3
    then some (take max_len s)
    else some (take (max_len - 3) s ++ bytes "...")
