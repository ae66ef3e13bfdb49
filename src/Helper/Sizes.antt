-- ===== src/Helper/Sizes.antt =====
-- The bounds of pkg/helper/tui.go: the units of sizes, and the lengths of shortened texts.
use uruflow.Prelude.{
  subst, ◌⊎◌, ◌≡◌, refl, ℕ, suc, ◌-◌, ◌*◌, ◌/◌, ◌^◌, ◌%◌, zero, [], ◌∷◌, ◌≤◌, ◌<◌, true, false,
  ◌++◌, Option, some, Text, bytes, arith, leb, length, length-append, length-take_le, take,
  Bool-cases, inl, inr,
}
use uruflow.Prelude.Int.{pos}
use uruflow.Helper.{scale_up, scale_of, letter_at, format_bytes, truncate_string}

-- A unit with the index of its letter, so that the size is at least one and below 1024 of them.
abbrev pub Fits : ℕ → ℕ × ℕ → Type 0
Fits size (div, exp) = (exp < 6) × (div ≤ size) × (size < div * 1024)

abbrev Found : ℕ → Option (ℕ × ℕ) → Type 0
Found size o = (p : ℕ × ℕ) × (o ≡ some p) × Fits size p × (p.0 ≡ 1024 ^ suc p.1)

-- One round of the loop: it goes on to a larger unit, or has found its own.
rise :
    (k n div exp size : ℕ)
    → (leb 1024 n ≡ true → Found size (scale_up k (n / 1024) (div * 1024 % 2 ^ 64) (suc exp)))
    → exp < 6
    → div ≤ size
    → (leb 1024 n ≡ false → size < div * 1024)
    → div ≡ 1024 ^ suc exp
    → Found size (scale_up (suc k) n div exp)
unfolding scale_up
rise k n div exp size up small lo hi power = elim (Bool-cases (leb 1024 n)) [
  | inl a ↦ rw (scale_up, a) (up a)
  | inr b ↦ rw (scale_up, b) ((div, exp), refl, (small, lo, hi b), power)
]

scale_of-Found : (size : ℕ) → 1024 ≤ size → size < 2 ^ 64 → Found size (scale_of size)
unfolding scale_of
scale_of-Found size lo hi =
    rise 5 (size / 1024) 1024 0 size
      (λ a1.
        rise 4 (size / 1024 / 1024) 1048576 1 size
          (λ a2.
            rise 3 (size / 1024 / 1024 / 1024) 1073741824 2 size
              (λ a3.
                rise 2 (size / 1024 / 1024 / 1024 / 1024) 1099511627776 3 size
                  (λ a4.
                    rise 1 (size / 1024 / 1024 / 1024 / 1024 / 1024) 1125899906842624 4 size
                      (λ a5.
                        rise 0 (size / 1024 / 1024 / 1024 / 1024 / 1024 / 1024) 1152921504606846976
                          5 size (λ a6. absurd (ground (arith, a1, a2, a3, a4, a5, a6)))
                          (omega arith) (ground (arith, a1, a2, a3, a4, a5))
                          (λ b. ground (arith, a1, a2, a3, a4, a5, b)) (omega arith))
                      (omega arith) (ground (arith, a1, a2, a3, a4))
                      (λ b. ground (arith, a1, a2, a3, a4, b)) (omega arith))
                  (omega arith) (ground (arith, a1, a2, a3)) (λ b. ground (arith, a1, a2, a3, b))
                  (omega arith))
              (omega arith) (ground (arith, a1, a2)) (λ b. ground (arith, a1, a2, b)) (omega arith))
          (omega arith) (ground (arith, a1)) (λ b. ground (arith, a1, b)) (omega arith))
      (omega arith) (ground (arith)) (λ b. ground (arith, b)) (omega arith)

letter_at-some :
    (i : ℕ) (s : Text) → i < length s → (c : Text) × (letter_at i s ≡ some c) × (length c ≡ 1)
unfolding letter_at
letter_at-some i [] h = absurd (omega arith)
letter_at-some zero (c ∷ s) h = (c ∷ [], refl, refl)
letter_at-some (suc i) (c ∷ s) h = letter_at-some i s (omega arith)

-- `FormatBytes` never panics and its unit does not overflow: a size of at least 1024 is printed
-- with one of the six letters, and its unit, 1024 to the power of the letter's place, is the one of
-- which it holds at least one and fewer than 1024.
pub format_bytes_lem :
    (whole : ℕ → Text) (tenths : ℕ → ℕ → Text) (size : ℕ)
    → 1024 ≤ size
    → size < 2 ^ 64
    → (exp : ℕ) × (letter : Text) × (letter_at exp (bytes "KMGTPE") ≡ some letter)
      × Fits size (1024 ^ suc exp, exp)
      × (format_bytes whole tenths size
          ≡ some (tenths size (1024 ^ suc exp) ++ bytes " " ++ letter ++ bytes "B"))
unfolding format_bytes
format_bytes_lem whole tenths size lo hi =
    let ((div, exp), found, (small, least, most), power) = scale_of-Found size lo hi in
    let (letter, at, one) = letter_at-some exp (bytes "KMGTPE") small in
    (
      exp,
      letter,
      at,
      (small, subst (λ d. d ≤ size) power least, subst (λ d. size < d * 1024) power most),
      subst
          (λ d.
            format_bytes whole tenths size
            ≡ some (tenths size d ++ bytes " " ++ letter ++ bytes "B"))
          power (printed found at),
    )
  where
    printed :
        {div exp : ℕ} {letter : Text}
        → scale_of size ≡ some (div, exp)
        → letter_at exp (bytes "KMGTPE") ≡ some letter
        → format_bytes whole tenths size
          ≡ some (tenths size div ++ bytes " " ++ letter ++ bytes "B")
    printed found at = ground (arith, found, at, lo)

-- Only a negative limit panics: a text within the limit is left as it is, and a longer one is cut
-- to a text of exactly that length.
pub truncate_string_lem :
    (s : Text) (max_len : ℕ)
    → (t : Text) × (truncate_string s (pos max_len) ≡ some t)
      × (((length s ≤ max_len) × (t ≡ s)) ⊎ ((max_len < length s) × (length t ≡ max_len)))
unfolding truncate_string
truncate_string_lem s max_len = elim (Bool-cases (leb (length s) max_len)) [
  | inl fits ↦ rw (truncate_string, fits) (s, refl, inl (ground (arith, fits), refl))
  | inr long ↦ elim (Bool-cases (leb max_len 3)) [
    | inl few ↦
        rw (truncate_string, long, few)
          (
            take max_len s,
            refl,
            inr (ground (arith, long), length-take_le max_len s (ground (arith, long))),
          )
    | inr more ↦
        rw (truncate_string, long, more)
          (
            take (max_len - 3) s ++ bytes "...",
            refl,
            inr (
              ground (arith, long),
              ground (
                arith,
                long,
                more,
                length-append (take (max_len - 3) s) (bytes "..."),
                length-take_le (max_len - 3) s,
              ),
            ),
          )
  ]
]
