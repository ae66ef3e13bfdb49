-- ===== src/Tui/Run.antt =====
-- Runs of a view of internal/tui/views: what its model is and which commands it has given after any
-- messages, and what holds along every run.
use uruflow.Prelude.{
  ◌∷◌, Bool, arith, ◌&&◌, true, refl, List, [], ◌++◌, Option, none, some, ◌≡◌, subst,
}

-- From a first model, one message after the other, none of which panicked.
pub data Reached {M Msg Cmd : Type 0} (update : M → Msg → Option (M × List Cmd)) (start : M)
    : M → List Cmd → Type 0 where
  first : Reached update start start []
  next :
      {m : M} {cs : List Cmd} (msg : Msg) {m' : M} {cs' : List Cmd}
      → Reached update start m cs
      → update m msg ≡ some (m', cs')
      → Reached update start m' (cs ++ cs')

unfoldable pub every : {A : Type 0} → (A → Bool) → List A → Bool
every q [] = true
every q (x ∷ xs) = q x && every q xs

pub every-append :
    {A : Type 0} (q : A → Bool) (xs ys : List A)
    → every q xs ≡ true
    → every q ys ≡ true
    → every q (xs ++ ys) ≡ true
unfolding every
every-append q [] ys _ h = h
every-append q (x ∷ xs) ys h k = ground (arith, every-append q xs ys)

-- What a step may give: a model that passes, and commands that pass.
abbrev pub safe : {M Cmd : Type 0} → (M → Bool) → (Cmd → Bool) → Option (M × List Cmd) → Bool
safe p q none = true
safe p q (some (m, cs)) = p m && every q cs

module _ {M Msg Cmd : Type 0} {update : M → Msg → Option (M × List Cmd)} {start : M} where
  -- What the first model passes and each step keeps, every model of a run passes; and with it all
  -- its commands pass.
  pub Reached-safe :
      (p : M → Bool) (q : Cmd → Bool)
      → p start ≡ true
      → ((m : M) (msg : Msg) → p m ≡ true → safe p q (update m msg) ≡ true)
      → (m : M) (cs : List Cmd) → Reached update start m cs
      → (p m ≡ true) × (every q cs ≡ true)
  unfolding every
  Reached-safe p q begins keeps m [] first = (begins, refl)
  Reached-safe p q begins keeps m _ (next {m = m₀} {cs = cs} msg {cs' = cs'} before e) =
      let (here, given) = Reached-safe p q begins keeps m₀ cs before in
      let after = subst (λ o. safe p q o ≡ true) e (keeps m₀ msg here) in
      (ground (arith, after), every-append q cs cs' given (ground (arith, after)))
