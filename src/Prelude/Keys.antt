-- ===== src/Prelude/Keys.antt =====
-- Lists of rows that are looked up by a text key: one row for a key, insertion at the end, changes
-- that keep the key.
use Prim.Native.Nat.{◌≤◌}
use mathlib.Core.Option
use mathlib.Core.Path.{refl, ◌≡◌, subst}
use mathlib.Core.Bool.{Bool, true, false}
use mathlib.Core.List.{List, [], ◌∷◌, ◌++◌}
use mathlib.Core.Option.{none, some}
use native.Mathlib.Omega.{arith}
use uruflow.Prelude.Tests.{if◌then◌else◌}
use uruflow.Prelude.Texts.{Text, eqb, eqb_iff, eqb_self}
use uruflow.Prelude.Lists.{
  update_where, find, any, count, remove_first, count-append, any-count, find-append_none,
  count-remove_first_le, count-remove_first_self, find-remove_first_other, count_zero_find,
}

-- Does the key of `x` equal `k`?
abbrev pub key_is {ℓ} : {A : Type ℓ} → (A → Text) → Text → A → Bool
key_is f k x = eqb (f x) k

pub key_is_ne {ℓ} :
    {A : Type ℓ} (f : A → Text) (j k : Text) (x : A)
    → (j ≡ k → ⊥)
    → eqb (f x) j ≡ true
    → eqb (f x) k ≡ false
key_is_ne f j k x ne h = ground (arith, eqb_iff (f x) j, eqb_iff (f x) k, ne)

module _ {ℓ} {A : Type ℓ} (key : A → Text) where
  -- At most one row for each key.
  abbrev pub Keyed : List A → Type 0
  Keyed xs = (k : Text) → count (key_is key k) xs ≤ 1

  not_any :
      (xs : List A) (x : A) (k : Text)
      → any (key_is key (key x)) xs ≡ false
      → eqb (key x) k ≡ true
      → count (key_is key k) xs ≡ 0
  not_any xs x k fresh e =
      any-count (key_is key k) xs
        (subst (λ t. any (key_is key t) xs ≡ false) ((eqb_iff (key x) k).0 e) fresh)

  pub Keyed-snoc :
      (xs : List A) (x : A) → any (key_is key (key x)) xs ≡ false → Keyed xs → Keyed (xs ++ x ∷ [])
  unfolding count
  Keyed-snoc xs x fresh h k =
      ground (arith, count-append (key_is key k) xs (x ∷ []), not_any xs x k fresh, h k)

  pub find_snoc_self :
      (xs : List A) (x : A)
      → any (key_is key (key x)) xs ≡ false
      → find (key_is key (key x)) (xs ++ x ∷ []) ≡ some x
  unfolding find
  find_snoc_self xs x fresh = ground (
    arith,
    find-append_none (key_is key (key x)) xs (x ∷ []),
    count_zero_find (key_is key (key x)) xs,
    any-count (key_is key (key x)) xs,
    eqb_self (key x),
  )

  pub find_snoc_other :
      (p : A → Bool) (xs : List A) (x : A) → p x ≡ false → find p (xs ++ x ∷ []) ≡ find p xs
  unfolding find
  find_snoc_other p [] x h = ground arith
  find_snoc_other p (y ∷ xs) x h = ground (arith, find_snoc_other p xs x)

  pub Keyed-remove_first : (p : A → Bool) (xs : List A) → Keyed xs → Keyed (remove_first p xs)
  Keyed-remove_first p xs h k = omega (arith, count-remove_first_le p (key_is key k) xs, h k)

  pub find-remove_first_self :
      (k : Text) (xs : List A)
      → Keyed xs
      → find (key_is key k) (remove_first (key_is key k) xs) ≡ none
  find-remove_first_self k xs h =
      count_zero_find (key_is key k) (remove_first (key_is key k) xs)
        (count-remove_first_self (key_is key k) xs (h k))

  pub find-remove_first_ne :
      (j k : Text) (xs : List A)
      → (j ≡ k → ⊥)
      → find (key_is key k) (remove_first (key_is key j) xs) ≡ find (key_is key k) xs
  find-remove_first_ne j k xs ne =
      find-remove_first_other (key_is key j) (key_is key k) xs (λ x. key_is_ne key j k x ne)

  -- A change of the rows of key `j`, seen by a search for key `k`.
  pub find-update_where_key :
      (j k : Text) (f : A → A) (xs : List A)
      → ((x : A) → key (f x) ≡ key x)
      → find (key_is key k) (update_where (key_is key j) f xs)
        ≡ Option.map (λ r. if eqb j k then f r else r) (find (key_is key k) xs)
  unfolding find update_where
  find-update_where_key j k f [] h = refl
  find-update_where_key j k f (x ∷ xs) h = ground (
    arith,
    h x,
    eqb_iff (key x) j,
    eqb_iff (key x) k,
    eqb_iff j k,
    find-update_where_key j k f xs h,
  )
