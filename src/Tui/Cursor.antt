-- ===== src/Tui/Cursor.antt =====
-- The rows at the cursors of internal/tui/views: an index past the end is the panic `none`.
use uruflow.Prelude.{
  ℕ, suc, ◌≤◌, Bool, true, false, List, [], ◌∷◌, Option, none, some, Text, bytes, is_nil, leb,
  length, ◌≡◌, refl, arith,
}
use uruflow.Tui.Logs.{nth}

abbrev pub is_none {ℓ} : {A : Type ℓ} → Option A → Bool
is_none none = true
is_none (some _) = false

pub nth-is_none {ℓ} : {A : Type ℓ} (n : ℕ) (xs : List A) → is_none (nth n xs) ≡ leb (length xs) n
unfolding nth
nth-is_none n [] = ground arith
nth-is_none ℕ.zero (x ∷ xs) = ground arith
nth-is_none (suc n) (x ∷ xs) = ground (arith, nth-is_none n xs)

abbrev pub delete_keys : List Text
delete_keys = bytes "-" ∷ bytes "delete" ∷ bytes "backspace" ∷ []

pub nth_past : {A : Type 0} (n : ℕ) (xs : List A) → length xs ≤ n → nth n xs ≡ none
unfolding nth
nth_past n [] h = refl
nth_past ℕ.zero (x ∷ xs) h = absurd (ground arith)
nth_past (suc n) (x ∷ xs) h = nth_past n xs (ground arith)

pub nth_inside : {A : Type 0} (n : ℕ) (xs : List A) {a : A} → nth n xs ≡ some a → is_nil xs ≡ false
unfolding nth
nth_inside n [] h = cc
nth_inside n (x ∷ xs) h = refl
