-- ===== src/Prelude/Numbered.antt =====
-- Rows that are numbered by a counter: no two have the same number, and all are below the next.
use mathlib.Core.Path.{◌≡◌, sym, ◌∙◌}
use mathlib.Core.Logic.{◌≢◌, inl, inr}
use mathlib.Core.Bool.{Bool}
use mathlib.Core.List.{List, [], ◌∷◌, ◌++◌}
use native.Mathlib.Omega.{arith}
use Prim.Native.Nat.{ℕ, suc, ◌<◌}
use uruflow.Prelude.Tests.{Bool-cases}
use uruflow.Prelude.Lists.{All, All-append, filter, update_where}

All-mono :
    {A : Type 0} (P Q : A → Type 0) (xs : List A) → ((x : A) → P x → Q x) → All P xs → All Q xs
All-mono P Q [] m h = tt
All-mono P Q (x ∷ xs) m h = (m x h.0, All-mono P Q xs m h.1)

All-filter :
    {A : Type 0} (P : A → Type 0) (p : A → Bool) (xs : List A) → All P xs → All P (filter p xs)
unfolding filter
All-filter P p [] h = tt
All-filter P p (x ∷ xs) h = elim (Bool-cases (p x)) [
  | inl e ↦ rw e (h.0, All-filter P p xs h.1)
  | inr e ↦ rw e (All-filter P p xs h.1)
]

All-update_where :
    {A : Type 0} (P : A → Type 0) (p : A → Bool) (h : A → A) (xs : List A)
    → ((x : A) → P x → P (h x))
    → All P xs
    → All P (update_where p h xs)
unfolding update_where
All-update_where P p h [] k a = tt
All-update_where P p h (x ∷ xs) k a = elim (Bool-cases (p x)) [
  | inl e ↦ rw e (k x a.0, All-update_where P p h xs k a.1)
  | inr e ↦ rw e (a.0, All-update_where P p h xs k a.1)
]

module _ {A B : Type 0} (f : A → B) (number : ℕ → B) where
  abbrev Below : ℕ → A → Type 0
  Below next x = (k : ℕ) × (f x ≡ number k) × (k < next)

  abbrev Apart : A → List A → Type 0
  Apart x ys = All (λ y. f x ≢ f y) ys

  abbrev Distinct : List A → Type 0
  Distinct [] = Unit {0}
  Distinct (x ∷ xs) = Apart x xs × Distinct xs

  abbrev pub Numbered : ℕ → List A → Type 0
  Numbered next xs = All (Below next) xs × Distinct xs

  Distinct-snoc :
      (xs : List A) (y : A) → All (λ x. f x ≢ f y) xs → Distinct xs → Distinct (xs ++ y ∷ [])
  Distinct-snoc [] y h d = (tt, tt)
  Distinct-snoc (x ∷ xs) y h d =
      (All-append (λ z. f x ≢ f z) xs (y ∷ []) d.0 (h.0, tt), Distinct-snoc xs y h.1 d.1)

  -- A row that is inserted gets the next number.
  pub Numbered-snoc :
      (next : ℕ) (xs : List A) (y : A)
      → ((i j : ℕ) → number i ≡ number j → i ≡ j)
      → f y ≡ number next
      → Numbered next xs
      → Numbered (suc next) (xs ++ y ∷ [])
  Numbered-snoc next xs y inj e (below, distinct) = (
    All-append (Below (suc next)) xs (y ∷ [])
        (All-mono (Below next) (Below (suc next)) xs (λ x (k, n, l). (k, n, omega (arith, l)))
          below)
        ((next, e, omega arith), tt),
    Distinct-snoc xs y
        (All-mono (Below next) (λ x. f x ≢ f y) xs
          (λ x (k, n, l) same. omega (arith, l, inj k next (sym n ∙ same ∙ e))) below)
        distinct,
  )

  Distinct-filter : (p : A → Bool) (xs : List A) → Distinct xs → Distinct (filter p xs)
  unfolding filter
  Distinct-filter p [] d = tt
  Distinct-filter p (x ∷ xs) d = elim (Bool-cases (p x)) [
    | inl e ↦ rw e (All-filter (λ y. f x ≢ f y) p xs d.0, Distinct-filter p xs d.1)
    | inr e ↦ rw e (Distinct-filter p xs d.1)
  ]

  pub Numbered-filter :
      (next : ℕ) (p : A → Bool) (xs : List A) → Numbered next xs → Numbered next (filter p xs)
  Numbered-filter next p xs (below, distinct) =
      (All-filter (Below next) p xs below, Distinct-filter p xs distinct)

  Distinct-update_where :
      (p : A → Bool) (h : A → A) (xs : List A)
      → ((x : A) → f (h x) ≡ f x)
      → Distinct xs
      → Distinct (update_where p h xs)
  unfolding update_where
  Distinct-update_where p h [] k d = tt
  Distinct-update_where p h (x ∷ xs) k d =
      let later = All-update_where (λ y. f x ≢ f y) p h xs (λ y ne e. ne (e ∙ k y)) d.0 in
      elim (Bool-cases (p x)) [
        | inl e ↦ rw e (
          All-mono (λ y. f x ≢ f y) (λ y. f (h x) ≢ f y) (update_where p h xs)
              (λ y ne s. ne (sym (k x) ∙ s)) later,
          Distinct-update_where p h xs k d.1,
        )
        | inr e ↦ rw e (later, Distinct-update_where p h xs k d.1)
      ]

  -- A change that keeps the numbers.
  pub Numbered-update_where :
      (next : ℕ) (p : A → Bool) (h : A → A) (xs : List A)
      → ((x : A) → f (h x) ≡ f x)
      → Numbered next xs
      → Numbered next (update_where p h xs)
  Numbered-update_where next p h xs k (below, distinct) = (
    All-update_where (Below next) p h xs (λ x (j, n, l). (j, k x ∙ n, l)) below,
    Distinct-update_where p h xs k distinct,
  )
