-- ===== src/Tests/Formatting.antt =====
-- Texts for the terminal at concrete sizes and lines, and runs of the code.
use uruflow.Prelude.{◌≡◌, refl, ℕ, suc, ◌^◌, ◌∷◌, ◌++◌, some, Text, bytes, arith}
use uruflow.Prelude.Int.{pos}
use uruflow.Helper.{
  newline, center_text, spaces, letter_at, format_bytes, scale_of, scale_up, truncate_string,
}
use uruflow.Helper.Sizes.{Fits, format_bytes_lem}

abbrev whole : ℕ → Text
whole n = bytes "n"

abbrev tenths : ℕ → ℕ → Text
tenths n d = bytes "q"

format_bytes_lem_example :
    (exp : ℕ) × (letter : Text) × (letter_at exp (bytes "KMGTPE") ≡ some letter)
    × Fits 5000000 (1024 ^ suc exp, exp)
    × (format_bytes whole tenths 5000000
        ≡ some (tenths 5000000 (1024 ^ suc exp) ++ bytes " " ++ letter ++ bytes "B"))
format_bytes_lem_example = format_bytes_lem whole tenths 5000000 (omega arith) (omega arith)

megabytes : format_bytes whole tenths 5000000 ≡ some (bytes "q MB")
unfolding format_bytes scale_of scale_up letter_at
megabytes = refl

shortened : truncate_string (bytes "uruflow") (pos 5) ≡ some (bytes "ur...")
unfolding truncate_string
shortened = refl

centred : center_text (bytes "ab") (pos 7) ≡ bytes "  ab"
unfolding center_text spaces
centred = refl

abbrev two_lines : Text
two_lines = bytes "a" ++ newline ∷ bytes "b"
