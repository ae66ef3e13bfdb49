-- ===== src/Tui/Repos/Back.antt =====
-- A step forward in internal/tui/views/repos.go, and the step back.
use uruflow.Prelude.{
  ℕ, suc, ◌-◌, ◌==◌, Bool, true, false, ◌&&◌, ◌||◌, List, [], some, Text, bytes, if◌then◌else◌, eqb,
  is_nil, ltb, ◌≡◌, ◌⊎◌, Option-cases, refl, ap, sym, subst, ◌∙◌, arith, Bool-cases, inl, inr,
}
use uruflow.Tui.Run.{Reached}
use uruflow.Tui.Cursor.{is_none}
use uruflow.Tui.Switch.{repo_add, repo_select_agent}
use uruflow.Tui.Repos.{
  NewRepo, key, Cmd, TextInput, ReposModel, new_repos, update, on_key, update_add,
  update_select_agent, enter_step, step_back, step_on, noted, restored, prepared,
}
use uruflow.Tui.Repos.Wizard.{is_ready, run-is_ready}
use uruflow.Tui.Repos.Panics.{noted_panic}

-- A text that a field had can be set again.
unfoldable pub KeepsTexts : {T : Type 0} → TextInput T → Type 0
KeepsTexts {T} field = (t u : T) → field.value (field.set_value t (field.value u)) ≡ field.value u

-- The steps that ask for a text.
abbrev pub asks_text : ℕ → Bool
asks_text step = ltb step 3 || step == 4 || step == 5

module _ {T : Type 0} (field : TextInput T) where
  restored_lem :
      (input : T) (r r' : NewRepo) (step n : ℕ) (text : Text)
      → noted r step text n ≡ some r'
      → asks_text step ≡ true
      → restored field input r' step ≡ field.set_value input text
  unfolding noted restored
  restored_lem input r r' step n text e asks = ground (arith, e, asks)

  on_add :
      (m : ReposModel T) (pressed : Text)
      → m.mode ≡ repo_add
      → update field m (key pressed) ≡ update_add field m pressed
  unfolding update
  on_add m pressed adding =
      subst (λ mode. on_key field m mode pressed ≡ update_add field m pressed) (sym adding) refl

  on_select :
      (m : ReposModel T) (pressed : Text)
      → m.mode ≡ repo_select_agent
      → update field m (key pressed) ≡ update_select_agent field m pressed
  unfolding update
  on_select m pressed selecting =
      subst (λ mode. on_key field m mode pressed ≡ update_select_agent field m pressed)
        (sym selecting) refl

  add_enters :
      (m : ReposModel T) (r : NewRepo)
      → (ltb m.add_step 2 && is_nil (field.value m.input)) ≡ false
      → noted m.new_repo m.add_step (field.value m.input) m.build_cursor ≡ some r
      → update_add field m (bytes "enter") ≡ some (step_on field m r, [])
  unfolding update_add enter_step eqb
  add_enters m r filled e = rw (filled, e)

  add_escapes : (m : ReposModel T) → update_add field m (bytes "esc") ≡ some (step_back field m, [])
  unfolding update_add eqb
  add_escapes m = refl

  select_escapes :
      (m : ReposModel T)
      → update_select_agent field m (bytes "esc")
        ≡ some (record m { mode = repo_add; add_step = 6 }, [])
  unfolding update_select_agent eqb
  select_escapes m = refl

  -- What "enter" did, and "esc" after it: before the last step the next one is shown and then this
  -- one again, with its text; the last step leads to the choice of an agent and back.
  abbrev pub IsReversible : ReposModel T → Type 0
  IsReversible m =
      (on : ReposModel T) × (back : ReposModel T) × (update field m (key (bytes "enter"))
        ≡ some (on, []))
      × (update field on (key (bytes "esc")) ≡ some (back, []))
      × (on.mode ≡ (if ltb m.add_step 6 then repo_add else repo_select_agent))
      × (on.add_step ≡ (if ltb m.add_step 6 then suc m.add_step else 6))
      × (back.mode ≡ repo_add)
      × (back.add_step ≡ m.add_step)
      × (back.new_repo ≡ on.new_repo)
      × ((asks_text m.add_step ≡ false) ⊎ (field.value back.input ≡ field.value m.input))

  step_back_lem :
      (m : ReposModel T) (n : ℕ)
      → step_back field (record m { add_step = suc n })
        ≡ record m { add_step = n; input = restored field m.input m.new_repo n }
  unfolding step_back
  step_back_lem m n =
      let there : ltb 0 (suc n) ≡ true = ground arith in
      let before : suc n - 1 ≡ n = omega arith in rw (there, before)

  inner_step :
      KeepsTexts field
      → (m : ReposModel T) (r : NewRepo) → m.mode ≡ repo_add
      → ltb m.add_step 6 ≡ true
      → update field m (key (bytes "enter")) ≡ some (step_on field m r, [])
      → noted m.new_repo m.add_step (field.value m.input) m.build_cursor ≡ some r
      → IsReversible m
  unfolding step_on KeepsTexts
  inner_step keeps m r adding inner entered e =
      let on = record m {
        new_repo = r;
        add_step = suc m.add_step;
        input = prepared field m.input (suc m.add_step);
      } in
      let back = record on {
        add_step = m.add_step;
        input = restored field on.input r m.add_step;
      } in
      (
        on,
        back,
        entered ∙ (rw inner),
        on_add on (bytes "esc") adding
            ∙ add_escapes on
            ∙ ap (λ x. some (x, [])) (step_back_lem on m.add_step),
        rw inner adding,
        rw inner,
        adding,
        refl,
        refl,
        elim (Bool-cases (asks_text m.add_step)) [
          | inl asks ↦ inr (
              ap field.value (
                restored_lem on.input m.new_repo r m.add_step m.build_cursor (field.value m.input) e
                  asks)
              ∙ keeps on.input m.input)
          | inr silent ↦ inl silent
        ],
      )

  last_step :
      (m : ReposModel T) (r : NewRepo)
      → m.mode ≡ repo_add
      → m.add_step ≡ 6
      → update field m (key (bytes "enter")) ≡ some (step_on field m r, [])
      → IsReversible m
  unfolding step_on
  last_step m r adding last entered =
      let on = record m { new_repo = r; mode = repo_select_agent; agent_cursor = 0 } in
      let back = record on { mode = repo_add; add_step = 6 } in
      (
        on,
        back,
        entered ∙ rw last,
        on_select on (bytes "esc") refl ∙ select_escapes on,
        rw last,
        rw last,
        refl,
        sym last,
        refl,
        inr refl,
      )

  entered_lem :
      (m : ReposModel T)
      → is_ready m ≡ true
      → m.mode ≡ repo_add
      → (ltb m.add_step 2 && is_nil (field.value m.input)) ≡ false
      → (r : NewRepo) × (noted m.new_repo m.add_step (field.value m.input) m.build_cursor ≡ some r)
        × (update field m (key (bytes "enter")) ≡ some (step_on field m r, []))
  unfolding is_ready
  entered_lem m ready adding filled =
      let text = field.value m.input in
      let no_panic =
        noted_panic m.new_repo m.add_step m.build_cursor text (ground (arith, ready)) in
      elim (Option-cases (noted m.new_repo m.add_step text m.build_cursor)) [
        | inl nothing ↦ absurd (cc (ap is_none nothing, no_panic))
        | inr (r, e) ↦ (r, e, on_add m (bytes "enter") adding ∙ add_enters m r filled e)
      ]

-- In every run of the view of repositories: a step that adds a repository and is answered, which for
-- the name and the address means with a text that is not empty, is left by "enter" for the next one,
-- the last for the choice of an agent; "esc" then shows the step again with the answers that were
-- given and, where it asks for a text, that text in the field, if the field keeps texts.
pub enter-escape :
    {T : Type 0} (field : TextInput T) (input : T) (m : ReposModel T) (cs : List Cmd)
    → KeepsTexts field
    → Reached (update field) (new_repos input) m cs
    → m.mode ≡ repo_add
    → (ltb m.add_step 2 && is_nil (field.value m.input)) ≡ false
    → IsReversible field m
unfolding is_ready
enter-escape field input m cs keeps run adding filled =
    let ready = run-is_ready field input m cs run in
    let (r, e, entered) = entered_lem field m ready adding filled in
    elim (Bool-cases (ltb m.add_step 6)) [
      | inl inner ↦ inner_step field keeps m r adding inner entered e
      | inr last ↦ last_step field m r adding (ground (arith, last, ready)) entered
    ]
