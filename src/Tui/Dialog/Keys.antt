-- ===== src/Tui/Dialog/Keys.antt =====
-- Keys of internal/tui/views told apart: a key that is one of some is none of others.
use uruflow.Prelude.{
  Bool, true, false, not, ◌&&◌, ◌||◌, List, [], ◌∷◌, Text, bytes, eqb, eqb_iff, ◌≡◌, refl, subst,
  sym, inl, inr, Bool-cases, arith,
}
use uruflow.Tui.Dialog.{chosen, Dialog, is_confirmed, one_of, Answer, confirmed, answer}

-- Has no key of the first list a place in the second?
abbrev pub no_common : List Text → List Text → Bool
no_common [] js = true
no_common (k ∷ ks) js = not (one_of k js) && no_common ks js

pub one_of_other :
    (pressed : Text) (ks js : List Text)
    → no_common ks js ≡ true
    → one_of pressed ks ≡ true
    → one_of pressed js ≡ false
unfolding one_of
one_of_other pressed [] js apart is = cc
one_of_other pressed (k ∷ ks) js apart is = elim (Bool-cases (eqb pressed k)) [
  | inl same ↦ subst (λ t. one_of t js ≡ false) (sym ((eqb_iff pressed k).0 same)) (ground arith)
  | inr other ↦ one_of_other pressed ks js (ground arith) (ground arith)
]

-- A key that is one of some is not a key that is none of them.
pub eqb_other :
    (pressed : Text) (ks : List Text) (j : Text)
    → one_of j ks ≡ false
    → one_of pressed ks ≡ true
    → eqb pressed j ≡ false
eqb_other pressed ks j apart is = elim (Bool-cases (eqb pressed j)) [
  | inl same ↦
      absurd (ground (arith, subst (λ t. one_of t ks ≡ true) ((eqb_iff pressed j).0 same) is))
  | inr other ↦ other
]

-- No key of the second list is one of the first.
pub one_of_apart :
    (pressed : Text) (ks js : List Text)
    → no_common ks js ≡ true
    → one_of pressed js ≡ true
    → one_of pressed ks ≡ false
one_of_apart pressed ks js apart is = elim (Bool-cases (one_of pressed ks)) [
  | inl both ↦ absurd (ground (arith, one_of_other pressed ks js apart both))
  | inr not_one ↦ not_one
]

-- Does the key confirm the question?
abbrev pub confirms : Dialog → Text → Bool
confirms d pressed = eqb pressed (bytes "y") || (eqb pressed (bytes "enter") && is_confirmed d)

abbrev pub is_yes : Answer → Bool
is_yes confirmed = true
is_yes _ = false

abbrev no_keys : List Text
no_keys = bytes "esc" ∷ bytes "n" ∷ []

abbrev toggle_keys : List Text
toggle_keys = bytes "left" ∷ bytes "right" ∷ bytes "h" ∷ bytes "l" ∷ bytes "tab" ∷ []

chosen-is_yes : (b : Bool) → is_yes (chosen b) ≡ b
chosen-is_yes true = refl
chosen-is_yes false = refl

-- A question is confirmed by "y", and by "enter" where the second button is selected.
pub answer-is_yes : (d : Dialog) (pressed : Text) → is_yes (answer d pressed) ≡ confirms d pressed
unfolding answer one_of eqb
answer-is_yes d pressed = elim (Bool-cases (one_of pressed no_keys)) [
  | inl is ↦ ground (
    arith,
    is,
    eqb_other pressed no_keys (bytes "y") refl is,
    eqb_other pressed no_keys (bytes "enter") refl is,
  )
  | inr other ↦ elim (Bool-cases (one_of pressed toggle_keys)) [
    | inl is ↦ ground (
      arith,
      is,
      other,
      eqb_other pressed toggle_keys (bytes "y") refl is,
      eqb_other pressed toggle_keys (bytes "enter") refl is,
    )
    | inr none ↦ elim (Bool-cases (eqb pressed (bytes "enter"))) [
      | inl enter ↦
          let not_y =
            eqb_other pressed (bytes "enter" ∷ []) (bytes "y") refl (ground (arith, enter)) in
          rw (other, none, enter, not_y) (chosen-is_yes (is_confirmed d))
      | inr not_enter ↦ ground (arith, other, none, not_enter)
    ]
  ]
]
