-- ===== src/Tui/Setup/Fields.antt =====
-- What can be typed in internal/tui/views/init.go.
use uruflow.Prelude.{
  ℕ, zero, suc, ◌-◌, ◌==◌, ◌≤◌, Bool, true, false, not, ◌&&◌, List, [], ◌∷◌, ◌++◌, Option, none,
  some, Text, bytes, eqb, eqb_iff, eqb_self, leb, length, take, length-append, length-take_le, ◌≡◌,
  refl, arith,
}
use uruflow.Prelude.Int.{ℤ}
use uruflow.Config.{Config}
use uruflow.Tui.Run.{Reached, Reached-safe, safe, every, every-append}
use uruflow.Tui.Dialog.{one_of}
use uruflow.Tui.Setup.{
  InitModel, new_init, Cmd, quit, saved, shorter, config_of, told, erase, type_byte, type_in,
  proceed, up, down, other_field, update,
}

abbrev is_digit : ℕ → Bool
is_digit c = leb 48 c && leb c 57

-- Neither "j" nor "k".
abbrev pub is_plain : ℕ → Bool
is_plain c = not (c == 106) && not (c == 107)

abbrev pub is_port : Text → Bool
is_port t = leb (length t) 5 && every is_digit t

unfoldable is_typed : Text → InitModel → Bool
is_typed secret m =
    is_port m.http_port
    && is_port m.tcp_port
    && every is_plain m.data_dir
    && leb m.step 4
    && m.total_steps == 4
    && eqb m.secret secret

-- What is written has such a data directory, and this secret.
abbrev pub is_written : Text → Cmd → Bool
is_written secret quit = true
is_written secret (saved c) = every is_plain c.server.data_dir && eqb c.webhook.secret secret

every-take : (q : ℕ → Bool) (n : ℕ) (t : Text) → every q t ≡ true → every q (take n t) ≡ true
unfolding every
every-take q zero t h = refl
every-take q (suc n) [] h = refl
every-take q (suc n) (c ∷ t) h = ground (arith, h, every-take q n t)

every_one : (q : ℕ → Bool) (c : ℕ) → q c ≡ true → every q (c ∷ []) ≡ true
unfolding every
every_one q c h = ground (arith, h)

shorter-is_port : (t : Text) → is_port t ≡ true → is_port (shorter t) ≡ true
shorter-is_port t h =
    ground (arith, h, length-take_le (length t - 1) t, every-take is_digit (length t - 1) t)

longer-is_port :
    (t : Text) (c : ℕ)
    → is_port t ≡ true
    → length t ≤ 4
    → is_digit c ≡ true
    → is_port (t ++ c ∷ []) ≡ true
longer-is_port t c h short digit = ground (
  arith,
  h,
  short,
  length-append t (c ∷ []),
  every-append is_digit t (c ∷ []),
  every_one is_digit c digit,
)

longer-is_plain :
    (t : Text) (c : ℕ)
    → every is_plain t ≡ true
    → is_plain c ≡ true
    → every is_plain (t ++ c ∷ []) ≡ true
longer-is_plain t c h plain = every-append is_plain t (c ∷ []) h (every_one is_plain c plain)

module _ (secret : Text) (m : InitModel) (h : is_typed secret m ≡ true) where
  erase-is_typed : is_typed secret (erase m) ≡ true
  unfolding erase is_typed
  erase-is_typed = ground (
    arith,
    h,
    shorter-is_port m.http_port,
    shorter-is_port m.tcp_port,
    every-take is_plain (length m.data_dir - 1) m.data_dir,
  )

  byte-is_typed : (c : ℕ) → is_plain c ≡ true → is_typed secret (type_byte m c) ≡ true
  unfolding type_byte is_typed
  byte-is_typed c plain = ground (
    arith,
    h,
    plain,
    longer-is_port m.http_port c,
    longer-is_port m.tcp_port c,
    longer-is_plain m.data_dir c,
  )

  type-is_typed :
      (pressed : Text)
      → one_of pressed (bytes "up" ∷ bytes "k" ∷ []) ≡ false
      → one_of pressed (bytes "down" ∷ bytes "j" ∷ []) ≡ false
      → is_typed secret (type_in m pressed) ≡ true
  unfolding one_of eqb
  type-is_typed [] not_k not_j = h
  type-is_typed (c ∷ []) not_k not_j = byte-is_typed c (ground (arith, not_k, not_j))
  type-is_typed (c ∷ d ∷ t) not_k not_j = h

  module _ (scan : Text → ℤ) (drawn : Text) (saving : Config → Option Text) where
    told-is_typed :
        (m' : InitModel) (e : Option Text)
        → is_typed secret m' ≡ true
        → is_typed secret (told m' e) ≡ true
    unfolding is_typed
    told-is_typed m' none h' = h'
    told-is_typed m' (some e) h' = ground (arith, h')

    proceed-safe :
        safe (is_typed secret) (is_written secret) (some (proceed scan drawn saving m)) ≡ true
    unfolding proceed is_typed every config_of
    proceed-safe =
        ground
          (arith, h, told-is_typed (record m { done = true }) (saving (config_of scan drawn m)))

    up-is_typed : is_typed secret (up scan drawn saving m) ≡ true
    unfolding is_typed
    up-is_typed = ground (arith, h)

    down-is_typed : is_typed secret (down scan drawn saving m) ≡ true
    unfolding is_typed
    down-is_typed = ground (arith, h)

    tab-is_typed : is_typed secret (other_field scan drawn saving m) ≡ true
    unfolding is_typed
    tab-is_typed = ground (arith, h)

    update-safe :
        (pressed : Text)
        → safe (is_typed secret) (is_written secret) (update scan drawn saving m pressed) ≡ true
    unfolding update every
    update-safe pressed = ground (
      arith,
      h,
      up-is_typed,
      down-is_typed,
      tab-is_typed,
      proceed-safe,
      erase-is_typed,
      type-is_typed pressed,
    )

start-is_typed : (secret : Text) → is_typed secret (new_init secret) ≡ true
unfolding is_typed every
start-is_typed secret = ground (arith, eqb_self secret)

-- Whatever keys are pressed, each port is a text of at most five digits, the step is at most 4, and
-- the data directory has neither a "j" nor a "k", and so no configuration that is written has; the
-- secret that is shown and written is the one that was drawn at the start, whichever option is chosen.
pub typed_lem :
    (scan : Text → ℤ) (drawn : Text) (saving : Config → Option Text) (secret : Text) (m : InitModel)
    (cs : List Cmd)
    → Reached (update scan drawn saving) (new_init secret) m cs
    → (is_port m.http_port ≡ true)
      × (is_port m.tcp_port ≡ true)
      × (every is_plain m.data_dir ≡ true)
      × (m.step ≤ 4)
      × (m.secret ≡ secret)
      × (every (is_written secret) cs ≡ true)
unfolding is_typed
typed_lem scan drawn saving secret m cs run =
    let (typed, written) =
      Reached-safe (is_typed secret) (is_written secret) (start-is_typed secret)
        (λ m' pressed h. update-safe secret m' h scan drawn saving pressed) m cs run in
    (
      ground (arith, typed),
      ground (arith, typed),
      ground (arith, typed),
      ground (arith, typed),
      (eqb_iff m.secret secret).0 (ground (arith, typed)),
      written,
    )
