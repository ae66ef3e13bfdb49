-- ===== src/Helper/Splitting.antt =====
-- Lines of pkg/helper/tui.go: what `SplitLines` loses, and how `CountLines` counts.
use uruflow.Prelude.{
  ◌≡◌, ◌⊎◌, refl, sym, ap, ◌∙◌, subst, ℕ, suc, ◌+◌, ◌==◌, true, List, [], ◌∷◌, ◌++◌, Text, arith,
  length, Bool-cases, inl, inr,
}
use mathlib.Core.List.{append-nil, append_assoc}
use uruflow.Helper.{newline, split_from, split_lines, count_lines}

-- Lines, each with its newline.
unfoldable pub unlines : List Text → Text
unlines [] = []
unlines (l ∷ ls) = l ++ newline ∷ unlines ls

-- The lines of a text with the newline of the last one, or without.
abbrev Restores : List Text → Text → ℕ → Type 0
Restores ls s count =
    ((unlines ls ≡ s) × (length ls ≡ count))
    ⊎ ((unlines ls ≡ s ++ newline ∷ []) × (length ls ≡ count + 1))

-- A finished line in front.
Restores-cons :
    (current s : Text) (ls : List Text) (count : ℕ)
    → Restores ls s count
    → Restores (current ∷ ls) (current ++ newline ∷ s) (suc count)
unfolding unlines
Restores-cons current s ls count (inl (u, n)) =
    inl (ap (λ t. current ++ newline ∷ t) u, omega (arith, n))
Restores-cons current s ls count (inr (u, n)) = inr (
  ap (λ t. current ++ newline ∷ t) u ∙ sym (append_assoc current (newline ∷ s) (newline ∷ [])),
  omega (arith, n),
)

split_from-Restores :
    (current s : Text) → Restores (split_from current s) (current ++ s) (count_lines s)
unfolding split_from count_lines unlines
split_from-Restores [] [] = inl (refl, refl)
split_from-Restores (c ∷ current) [] =
    inr (ap (◌++ (newline ∷ [])) (sym (append-nil (c ∷ current))), omega arith)
split_from-Restores current (c ∷ s) = elim (Bool-cases (c == newline)) [
  | inl e ↦
      rw (split_from, count_lines, e)
        (subst (λ x. Restores (current ∷ split_from [] s) (current ++ x ∷ s) (suc (count_lines s)))
          (sym (newline_is c e))
          (Restores-cons current s (split_from [] s) (count_lines s) (split_from-Restores [] s)))
  | inr e ↦
      rw (split_from, count_lines, e)
        (subst (λ t. Restores (split_from (current ++ c ∷ []) s) t (count_lines s))
          (append_assoc current (c ∷ []) s) (split_from-Restores (current ++ c ∷ []) s))
]
  where
    newline_is : (c : ℕ) → (c == newline) ≡ true → c ≡ newline
    newline_is c e = ground (arith, e)

-- `SplitLines` loses nothing but whether the last line ended: the lines, each with a newline, are
-- the text, or the text with one more newline. There are as many lines as `CountLines` counts
-- newlines, and in the second case one more.
pub split_lines-unlines :
    (s : Text)
    → ((unlines (split_lines s) ≡ s) × (length (split_lines s) ≡ count_lines s))
      ⊎ ((unlines (split_lines s) ≡ s ++ newline ∷ [])
          × (length (split_lines s) ≡ count_lines s + 1))
unfolding split_lines
split_lines-unlines s = split_from-Restores [] s
