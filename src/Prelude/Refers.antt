-- ===== src/Prelude/Refers.antt =====
-- Rows that refer to rows of another table: the foreign keys of a database.
use mathlib.Core.Path.{◌≡◌, refl}
use mathlib.Core.Logic.{inl, inr}
use mathlib.Core.Bool.{Bool, true, false, not, ◌&&◌}
use mathlib.Core.List.{List, [], ◌∷◌, ◌++◌}
use native.Mathlib.Omega.{arith}
use uruflow.Prelude.Tests.{Bool-cases}
use uruflow.Prelude.Texts.{Text, eqb, eqb_iff}
use uruflow.Prelude.Lists.{All, any, filter, update_where}
use uruflow.Prelude.Keys.{key_is}

module _ {ℓ} {A : Type ℓ} (f : A → Text) where
  -- The text that `f` reads from each row is known.
  abbrev pub Refers : (Text → Bool) → List A → Type 0
  Refers known xs = All (λ x. known (f x) ≡ true) xs

  pub Refers-snoc :
      (known : Text → Bool) (xs : List A) (x : A)
      → Refers known xs
      → known (f x) ≡ true
      → Refers known (xs ++ x ∷ [])
  Refers-snoc known [] x h e = (e, tt)
  Refers-snoc known (y ∷ xs) x h e = (h.0, Refers-snoc known xs x h.1 e)

  pub Refers-mono :
      (known known' : Text → Bool) (xs : List A)
      → ((t : Text) → known t ≡ true → known' t ≡ true)
      → Refers known xs
      → Refers known' xs
  Refers-mono known known' [] m h = tt
  Refers-mono known known' (x ∷ xs) m h = (m (f x) h.0, Refers-mono known known' xs m h.1)

  pub Refers-filter :
      (known : Text → Bool) (p : A → Bool) (xs : List A)
      → Refers known xs
      → Refers known (filter p xs)
  unfolding filter
  Refers-filter known p [] h = tt
  Refers-filter known p (x ∷ xs) h = elim (Bool-cases (p x)) [
    | inl e ↦ rw e (h.0, Refers-filter known p xs h.1)
    | inr e ↦ rw e (Refers-filter known p xs h.1)
  ]

  pub Refers-update_where :
      (known : Text → Bool) (p : A → Bool) (g : A → A) (xs : List A)
      → ((x : A) → known (f x) ≡ true → known (f (g x)) ≡ true)
      → Refers known xs
      → Refers known (update_where p g xs)
  unfolding update_where
  Refers-update_where known p g [] m h = tt
  Refers-update_where known p g (x ∷ xs) m h = elim (Bool-cases (p x)) [
    | inl e ↦ rw e (m x h.0, Refers-update_where known p g xs m h.1)
    | inr e ↦ rw e (h.0, Refers-update_where known p g xs m h.1)
  ]

  -- The known texts lose `k`, and no row refers to it.
  pub Refers-without :
      (known : Text → Bool) (k : Text) (xs : List A)
      → any (key_is f k) xs ≡ false
      → Refers known xs
      → Refers (λ t. known t && not (eqb t k)) xs
  unfolding any
  Refers-without known k [] n h = tt
  Refers-without known k (x ∷ xs) n h =
      (ground (arith, h.0), Refers-without known k xs (ground arith) h.1)

  -- The known texts lose `k`, and so do the rows.
  pub Refers-filter_without :
      (known : Text → Bool) (k : Text) (xs : List A)
      → Refers known xs
      → Refers (λ t. known t && not (eqb t k)) (filter (λ x. not (eqb (f x) k)) xs)
  unfolding filter
  Refers-filter_without known k [] h = tt
  Refers-filter_without known k (x ∷ xs) h = elim (Bool-cases (eqb (f x) k)) [
    | inl e ↦ rw e (Refers-filter_without known k xs h.1)
    | inr e ↦ rw e ((rw (h.0, e)), Refers-filter_without known k xs h.1)
  ]

  -- Which keys are left without the rows of key `k`.
  pub any-filter_without :
      (t k : Text) (xs : List A)
      → any (key_is f t) (filter (λ x. not (eqb (f x) k)) xs)
        ≡ (any (key_is f t) xs && not (eqb t k))
  unfolding any filter
  any-filter_without t k [] = refl
  any-filter_without t k (x ∷ xs) =
      ground (arith, any-filter_without t k xs, eqb_iff (f x) t, eqb_iff (f x) k, eqb_iff t k)
