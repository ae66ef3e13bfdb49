-- ===== src/Prelude/Texts.antt =====
-- Go strings: lists of bytes. A literal is written as a quoted text of ASCII characters.
use Prim.Native.Char.{code}
use Prim.Native.String.{String}
use Prim.Native.Nat.{ℕ}
use mathlib.Core.Path.{◌≡◌, refl}
use mathlib.Core.Logic.{◌↔◌}
use mathlib.Core.Bool.{Bool, true, false, ◌&&◌}
use mathlib.Core.List.{List, [], ◌∷◌, ◌++◌}
use native.Mathlib.Omega.{arith}
use uruflow.Prelude.Tests.{◌==◌, if◌then◌else◌}

abbrev pub Text : Type 0
Text = List ℕ

abbrev pub bytes : String → Text
bytes String.[] = []
bytes (String.◌∷◌ c s) = code c ∷ bytes s

-- `a == b` on Go strings.
unfoldable pub eqb : Text → Text → Bool
eqb [] [] = true
eqb (x ∷ a) (y ∷ b) = x == y && eqb a b
eqb _ _ = false

pub eqb_iff : (a b : Text) → (eqb a b ≡ true) ↔ (a ≡ b)
unfolding eqb
eqb_iff (x ∷ a) (y ∷ b) = ground (arith, eqb_iff a b)
eqb_iff _ _ = ground arith

pub eqb_self : (a : Text) → eqb a a ≡ true
eqb_self a = (eqb_iff a a).1 refl

-- strings.HasPrefix(s, prefix)
unfoldable pub has_prefix : Text → Text → Bool
has_prefix s [] = true
has_prefix [] (c ∷ pre) = false
has_prefix (d ∷ s) (c ∷ pre) = d == c && has_prefix s pre

-- The rest of `s` behind `prefix`; meaningful where `s` has that prefix.
unfoldable pub drop_prefix : Text → Text → Text
drop_prefix s [] = s
drop_prefix [] (c ∷ pre) = []
drop_prefix (d ∷ s) (c ∷ pre) = drop_prefix s pre

-- strings.TrimPrefix(s, prefix)
unfoldable pub trim_prefix : Text → Text → Text
unfolding has_prefix drop_prefix
trim_prefix s pre = if has_prefix s pre then drop_prefix s pre else s

pub has_prefix-append : (pre s : Text) → has_prefix (pre ++ s) pre ≡ true
unfolding has_prefix
has_prefix-append [] s = refl
has_prefix-append (c ∷ pre) s = ground (arith, has_prefix-append pre s)

pub drop_prefix-append : (pre s : Text) → drop_prefix (pre ++ s) pre ≡ s
unfolding drop_prefix
drop_prefix-append [] s = refl
drop_prefix-append (c ∷ pre) s = drop_prefix-append pre s

pub has_prefix_split : (pre s : Text) → has_prefix s pre ≡ true → s ≡ pre ++ drop_prefix s pre
unfolding has_prefix drop_prefix
has_prefix_split [] s h = refl
has_prefix_split (c ∷ pre) [] h = ground arith
has_prefix_split (c ∷ pre) (d ∷ s) h = ground (arith, has_prefix_split pre s)

pub append_cancel : (pre s t : Text) → pre ++ s ≡ pre ++ t → s ≡ t
append_cancel [] s t h = h
append_cancel (c ∷ pre) s t h = append_cancel pre s t (ground arith)
