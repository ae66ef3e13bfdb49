-- ===== src/Prelude/Sort.antt =====
-- `ORDER BY`: a stable insertion sort by a test "comes before", and what it keeps.
use Prim.Native.Nat.{ℕ, zero, suc, ◌+◌}
use mathlib.Core.Path.{◌≡◌, refl, ap, ◌∙◌}
use mathlib.Core.Logic.{inl, inr}
use mathlib.Core.Bool.{Bool, true, false, ◌&&◌, ◌||◌}
use mathlib.Core.List.{List, [], ◌∷◌, Perm}
use mathlib.Core.List.Perm
use native.Mathlib.Omega.{arith}
use uruflow.Prelude.Tests.{◌==◌, ltb, Bool-cases, if◌then◌else◌}
use uruflow.Prelude.Lists.{count, take}
use uruflow.Prelude.Texts.{Text}

-- The binary collation of texts.
unfoldable pub before_text : Text → Text → Bool
before_text [] [] = false
before_text [] (y ∷ b) = true
before_text (x ∷ a) [] = false
before_text (x ∷ a) (y ∷ b) = ltb x y || (x == y && before_text a b)

module _ {ℓ} {A : Type ℓ} (before : A → A → Bool) where
  insert_by : A → List A → List A
  insert_by x [] = x ∷ []
  insert_by x (y ∷ ys) = if before y x then y ∷ insert_by x ys else x ∷ y ∷ ys

  unfoldable pub sort_by : List A → List A
  unfolding insert_by
  sort_by [] = []
  sort_by (x ∷ xs) = insert_by x (sort_by xs)

  count-insert_by :
      (p : A → Bool) (x : A) (ys : List A) → count p (insert_by x ys) ≡ count p (x ∷ ys)
  unfolding insert_by count
  count-insert_by p x [] = refl
  count-insert_by p x (y ∷ ys) = ground (arith, count-insert_by p x ys)

  -- Sorting keeps how often each test passes.
  pub count-sort_by : (p : A → Bool) (xs : List A) → count p (sort_by xs) ≡ count p xs
  unfolding sort_by count
  count-sort_by p [] = refl
  count-sort_by p (x ∷ xs) =
      count-insert_by p x (sort_by xs) ∙ ap (λ n. (if p x then 1 else 0) + n) (count-sort_by p xs)

  insert_by-perm : (x : A) (ys : List A) → Perm (insert_by x ys) (x ∷ ys)
  unfolding insert_by
  insert_by-perm x [] = Perm.refl (x ∷ [])
  insert_by-perm x (y ∷ ys) = elim (Bool-cases (before y x)) [
    | inl e ↦ rw e (Perm.trans (Perm.cons y (insert_by-perm x ys)) (Perm.swap x y ys))
    | inr e ↦ rw e (Perm.refl (x ∷ y ∷ ys))
  ]

  pub sort_by-perm : (xs : List A) → Perm (sort_by xs) xs
  unfolding sort_by
  sort_by-perm [] = Perm.refl []
  sort_by-perm (x ∷ xs) = Perm.trans (insert_by-perm x (sort_by xs)) (Perm.cons x (sort_by-perm xs))

  -- No element stands in front of one that comes before it.
  abbrev pub FirstOf : A → List A → Type 0
  FirstOf x [] = Unit {0}
  FirstOf x (y ∷ ys) = (before y x ≡ false) × FirstOf x ys

  abbrev pub IsSortedBy : List A → Type 0
  IsSortedBy [] = Unit {0}
  IsSortedBy (x ∷ xs) = FirstOf x xs × IsSortedBy xs

module _ {ℓ} {A : Type ℓ} (before : A → A → Bool)
    (asym : (x y : A) → before x y ≡ true → before y x ≡ false)
    (trans : (x y z : A) → before y x ≡ false → before z y ≡ false → before z x ≡ false) where
  FirstOf-trans :
      (x y : A) (ys : List A) → before y x ≡ false → FirstOf before y ys → FirstOf before x ys
  FirstOf-trans x y [] h f = tt
  FirstOf-trans x y (z ∷ ys) h f = (trans x y z h f.0, FirstOf-trans x y ys h f.1)

  FirstOf-insert_by :
      (y x : A) (ys : List A)
      → before x y ≡ false
      → FirstOf before y ys
      → FirstOf before y (insert_by before x ys)
  unfolding insert_by
  FirstOf-insert_by y x [] h f = (h, tt)
  FirstOf-insert_by y x (z ∷ ys) h f = elim (Bool-cases (before z x)) [
    | inl e ↦ rw e (f.0, FirstOf-insert_by y x ys h f.1)
    | inr e ↦ rw e (h, f)
  ]

  insert_by-IsSortedBy :
      (x : A) (ys : List A) → IsSortedBy before ys → IsSortedBy before (insert_by before x ys)
  unfolding insert_by
  insert_by-IsSortedBy x [] s = (tt, tt)
  insert_by-IsSortedBy x (y ∷ ys) s = elim (Bool-cases (before y x)) [
    | inl e ↦ rw e (FirstOf-insert_by y x ys (asym y x e) s.0, insert_by-IsSortedBy x ys s.1)
    | inr e ↦ rw e ((e, FirstOf-trans x y ys e s.0), s)
  ]

  pub sort_by-IsSortedBy : (xs : List A) → IsSortedBy before (sort_by before xs)
  unfolding sort_by
  sort_by-IsSortedBy [] = tt
  sort_by-IsSortedBy (x ∷ xs) = insert_by-IsSortedBy x (sort_by before xs) (sort_by-IsSortedBy xs)

-- The first rows of a sorted list are sorted.
module _ {ℓ} {A : Type ℓ} (before : A → A → Bool) where
  FirstOf-take : (n : ℕ) (x : A) (xs : List A) → FirstOf before x xs → FirstOf before x (take n xs)
  FirstOf-take zero x xs f = tt
  FirstOf-take (suc n) x [] f = tt
  FirstOf-take (suc n) x (y ∷ ys) f = (f.0, FirstOf-take n x ys f.1)

  pub take-IsSortedBy : (n : ℕ) (xs : List A) → IsSortedBy before xs → IsSortedBy before (take n xs)
  take-IsSortedBy zero xs s = tt
  take-IsSortedBy (suc n) [] s = tt
  take-IsSortedBy (suc n) (x ∷ xs) s = (FirstOf-take n x xs s.0, take-IsSortedBy n xs s.1)
