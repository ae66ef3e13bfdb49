-- ===== src/Prelude/Maps.antt =====
-- Go maps from strings as association lists with one entry for a key.
use mathlib.Core.Path.{◌≡◌, refl, subst}
use mathlib.Core.Logic.{inl, inr}
use mathlib.Core.Option.{Option, none, some}
use mathlib.Core.List.{List, [], ◌∷◌}
use native.Mathlib.Omega.{arith}
use uruflow.Prelude.Tests.{Bool-cases, if◌then◌else◌}
use uruflow.Prelude.Texts.{Text, eqb, eqb_iff, eqb_self}

module _ {ℓ} {V : Type ℓ} where
  unfoldable pub lookup : Text → List (Text × V) → Option V
  lookup k [] = none
  lookup k ((j, v) ∷ m) = if eqb j k then some v else lookup k m

  -- m[k] = v
  unfoldable pub insert : Text → V → List (Text × V) → List (Text × V)
  insert k v [] = (k, v) ∷ []
  insert k v ((j, w) ∷ m) = if eqb j k then (k, v) ∷ m else (j, w) ∷ insert k v m

  -- delete(m, k)
  unfoldable pub delete : Text → List (Text × V) → List (Text × V)
  delete k [] = []
  delete k ((j, w) ∷ m) = if eqb j k then delete k m else (j, w) ∷ delete k m

  pub lookup-insert :
      (k j : Text) (v : V) (m : List (Text × V))
      → lookup j (insert k v m) ≡ (if eqb k j then some v else lookup j m)
  unfolding lookup insert
  lookup-insert k j v [] = refl
  lookup-insert k j v ((i, w) ∷ m) =
      ground (arith, eqb_iff k j, eqb_iff i k, eqb_iff i j, lookup-insert k j v m)

  pub lookup-delete :
      (k j : Text) (m : List (Text × V))
      → lookup j (delete k m) ≡ (if eqb k j then none else lookup j m)
  unfolding lookup delete
  lookup-delete k j [] = ground arith
  lookup-delete k j ((i, w) ∷ m) =
      ground (arith, eqb_iff k j, eqb_iff i k, eqb_iff i j, lookup-delete k j m)

  -- One entry for a key.
  abbrev pub Unique : List (Text × V) → Type ℓ
  Unique [] = Unit
  Unique ((k, v) ∷ m) = (lookup k m ≡ none) × Unique m

  pub delete-none : (k : Text) (m : List (Text × V)) → lookup k m ≡ none → delete k m ≡ m
  unfolding lookup delete
  delete-none k [] e = refl
  delete-none k ((j, w) ∷ m) e = ground (arith, e, delete-none k m)

  pub Unique-delete : (k : Text) (m : List (Text × V)) → Unique m → Unique (delete k m)
  unfolding delete
  Unique-delete k [] u = tt
  Unique-delete k ((j, w) ∷ m) u = elim (Bool-cases (eqb j k)) [
    | inl e ↦ rw e (Unique-delete k m u.1)
    | inr e ↦ rw e (ground (arith, lookup-delete k j m, u.0), Unique-delete k m u.1)
  ]

  pub Unique-insert : (k : Text) (v : V) (m : List (Text × V)) → Unique m → Unique (insert k v m)
  unfolding lookup insert
  Unique-insert k v [] u = (refl, tt)
  Unique-insert k v ((j, w) ∷ m) u = elim (Bool-cases (eqb j k)) [
    | inl e ↦ rw e (subst (λ i. lookup i m ≡ none) ((eqb_iff j k).0 e) u.0, u.1)
    | inr e ↦ rw e (
      ground (arith, lookup-insert k j v m, eqb_iff k j, eqb_iff j k, u.0),
      Unique-insert k v m u.1,
    )
  ]

  -- The last of two insertions counts.
  pub insert-insert :
      (k : Text) (v w : V) (m : List (Text × V)) → insert k w (insert k v m) ≡ insert k w m
  unfolding insert
  insert-insert k v w [] = ground (arith, eqb_self k)
  insert-insert k v w ((j, u) ∷ m) = ground (arith, eqb_self k, insert-insert k v w m)
