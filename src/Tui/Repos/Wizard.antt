-- ===== src/Tui/Repos/Wizard.antt =====
-- What the steps of internal/tui/views/repos.go keep true, whatever is pressed and whatever arrives.
use uruflow.Prelude.{
  ℕ, suc, ◌==◌, ◌≤◌, Bool, true, false, not, ◌&&◌, ◌||◌, List, Option, none, some, Text, bytes, eqb,
  is_nil, ltb, leb, ◌≡◌, refl, arith, Bool-cases, inl, inr,
}
use uruflow.Tui.Run.{Reached, Reached-safe, safe, every}
use uruflow.Tui.Logs.{nth}
use uruflow.Tui.Switch.{RepoMode, repo_list, repo_add, repo_select_agent, repo_confirm_delete}
use uruflow.Tui.Rows.{RepoRow, ChoiceRow}
use uruflow.Tui.Dialog.{one_of, Answer, closed, toggled, confirmed, ignored, answer}
use uruflow.Tui.Repos.{
  NewRepo, Msg, key, spinner_tick, added, not_added, fetched, fetched_agents, failed, other, Cmd,
  add, TextInput, ReposModel, new_repos, build_systems, update, on_key, ask, delete_at, answered,
  update_list, update_add, update_select_agent, update_confirm_delete, enter_step, step_back,
  choose, stepped, step_on, noted, with_build_system, add_for, Next, type_in, to_field,
}

-- A repository has a name and an address, and one of the three build systems.
abbrev pub is_complete : Cmd → Bool
is_complete (add r) =
    not (is_nil r.name) && not (is_nil r.url) && one_of r.build_system build_systems
is_complete _ = true

abbrev is_selecting : RepoMode → Bool
is_selecting repo_select_agent = true
is_selecting _ = false

-- What is past a step has its answer.
abbrev pub is_answered : ℕ → NewRepo → Bool
is_answered step r =
    (step == 0 || not (is_nil r.name))
    && (ltb step 2 || not (is_nil r.url))
    && one_of r.build_system build_systems

unfoldable pub is_ready : {T : Type 0} → ReposModel T → Bool
is_ready m =
    is_answered m.add_step m.new_repo
    && leb m.add_step 6
    && ltb m.build_cursor 3
    && (not (is_selecting m.mode) || m.add_step == 6)

build_system_lem :
    (r : NewRepo) (n : ℕ)
    → ltb n 3 ≡ true
    → (b : Text) × (nth n build_systems ≡ some b) × (one_of b build_systems ≡ true)
unfolding nth one_of eqb
build_system_lem r ℕ.zero h = (bytes "compose", refl, refl)
build_system_lem r (suc ℕ.zero) h = (bytes "dockerfile", refl, refl)
build_system_lem r (suc (suc ℕ.zero)) h = (bytes "makefile", refl, refl)
build_system_lem r (suc (suc (suc n))) h = absurd (ground (arith, h))

-- Is the next step answered?
abbrev pub answers : ℕ → Option NewRepo → Bool
answers step none = false
answers step (some r) = is_answered (suc step) r

build-answers :
    (r : NewRepo) (step n : ℕ)
    → ltb n 3 ≡ true
    → 2 ≤ step
    → is_answered step r ≡ true
    → answers step (with_build_system r (nth n build_systems)) ≡ true
build-answers r step n few late h =
    let (b, at, one) = build_system_lem r n few in rw at (ground (arith, one, h))

noted-answers :
    (r : NewRepo) (step n : ℕ) (text : Text)
    → ltb n 3 ≡ true
    → (ltb step 2 && is_nil text) ≡ false
    → is_answered step r ≡ true
    → answers step (noted r step text n) ≡ true
unfolding noted
noted-answers r step n text few filled h =
    ground (arith, h, filled, few, build-answers r step n few)

module _ {T : Type 0} (field : TextInput T) where
  abbrev is_safe : Next field → Bool
  is_safe = safe is_ready is_complete

  module _ (m : ReposModel T) (pressed : Text) (h : is_ready m ≡ true) where
    ask-is_safe : (o : Option RepoRow) → is_safe (ask field m o) ≡ true
    unfolding every is_ready
    ask-is_safe none = refl
    ask-is_safe (some r) = ground (arith, h)

    list-is_safe : is_safe (update_list field m pressed) ≡ true
    unfolding update_list every is_ready one_of eqb
    list-is_safe = ground (arith, h, ask-is_safe (nth m.cursor m.repos))

    choose-is_ready : is_ready (choose field m pressed) ≡ true
    unfolding choose is_ready
    choose-is_ready = ground (arith, h)

    type-is_safe : (msg : Msg) → is_safe (type_in field m msg) ≡ true
    unfolding every is_ready
    type-is_safe msg = ground (arith, h)

    field-is_safe : (msg : Msg) → is_safe (to_field field m msg) ≡ true
    unfolding every is_ready
    field-is_safe msg = ground (arith, h)

    add-is_safe :
        m.mode ≡ repo_select_agent → (o : Option ChoiceRow) → is_safe (add_for field m o) ≡ true
    unfolding every is_ready
    add-is_safe e none = refl
    add-is_safe e (some a) = ground (arith, h, e)

    select-is_safe :
        m.mode ≡ repo_select_agent → is_safe (update_select_agent field m pressed) ≡ true
    unfolding update_select_agent every is_ready
    select-is_safe e = ground (arith, h, add-is_safe e (nth m.agent_cursor m.agents))

    delete-is_safe : (o : Option RepoRow) → is_safe (delete_at field m o) ≡ true
    unfolding every is_ready
    delete-is_safe none = refl
    delete-is_safe (some r) = ground (arith, h)

    confirm-is_safe : (a : Answer) → is_safe (answered field m a) ≡ true
    unfolding every is_ready
    confirm-is_safe closed = ground (arith, h)
    confirm-is_safe toggled = ground (arith, h)
    confirm-is_safe confirmed = delete-is_safe (nth m.cursor m.repos)
    confirm-is_safe ignored = ground (arith, h)

    back-is_ready : m.mode ≡ repo_add → is_ready (step_back field m) ≡ true
    unfolding step_back is_ready
    back-is_ready adding = ground (arith, h, adding)

    on-is_ready :
        (r : NewRepo) → is_answered (suc m.add_step) r ≡ true → is_ready (step_on field m r) ≡ true
    unfolding step_on is_ready
    on-is_ready r answered = ground (arith, h, answered)

    stepped-is_safe :
        (o : Option NewRepo) → answers m.add_step o ≡ true → is_safe (stepped field m o) ≡ true
    unfolding every
    stepped-is_safe none answered = absurd (ground (arith, answered))
    stepped-is_safe (some r) answered = ground (arith, on-is_ready r answered)

    enter-is_safe : m.mode ≡ repo_add → is_safe (enter_step field m) ≡ true
    unfolding enter_step noted step_on is_ready every
    enter-is_safe adding = elim (Bool-cases (ltb m.add_step 2 && is_nil (field.value m.input))) [
      | inl empty ↦ rw empty (ground (arith, h))
      | inr filled ↦
          let next =
            noted-answers m.new_repo m.add_step m.build_cursor (field.value m.input)
              (ground (arith, h)) filled (ground (arith, h)) in
          rw filled (
            stepped-is_safe (noted m.new_repo m.add_step (field.value m.input) m.build_cursor) next)
    ]

  adding-is_safe :
      (m : ReposModel T) (pressed : Text)
      → is_ready m ≡ true
      → m.mode ≡ repo_add
      → is_safe (update_add field m pressed) ≡ true
  unfolding update_add every
  adding-is_safe m pressed h adding =
      let chosen = choose field m pressed in
      let typed = type-is_safe chosen pressed (choose-is_ready m pressed h) (key pressed) in
      elim (Bool-cases (eqb pressed (bytes "esc"))) [
        | inl esc ↦ rw esc (ground (arith, back-is_ready m pressed h adding))
        | inr not_esc ↦ elim (Bool-cases (eqb pressed (bytes "enter"))) [
          | inl enter ↦ rw (not_esc, enter) (enter-is_safe m pressed h adding)
          | inr neither ↦ rw (not_esc, neither) typed
        ]
      ]

  start-is_ready : (input : T) → is_ready (new_repos input) ≡ true
  unfolding is_ready one_of eqb
  start-is_ready input = refl

  mode-is_safe :
      (m : ReposModel T) (pressed : Text) (mode : RepoMode)
      → is_ready m ≡ true
      → m.mode ≡ mode
      → is_safe (on_key field m mode pressed) ≡ true
  unfolding update_confirm_delete
  mode-is_safe m pressed repo_list h e = list-is_safe m pressed h
  mode-is_safe m pressed repo_add h e = adding-is_safe m pressed h e
  mode-is_safe m pressed repo_select_agent h e = select-is_safe m pressed h e
  mode-is_safe m pressed repo_confirm_delete h e =
      confirm-is_safe m pressed h (answer m.dialog pressed)

  pub update-is_safe :
      (m : ReposModel T) (msg : Msg) → is_ready m ≡ true → is_safe (update field m msg) ≡ true
  unfolding update every is_ready
  update-is_safe m (key pressed) h = mode-is_safe m pressed m.mode h refl
  update-is_safe m spinner_tick h = ground (arith, h)
  update-is_safe m (added name) h = ground (arith, h)
  update-is_safe m (not_added e) h = ground (arith, h)
  update-is_safe m (fetched rows) h = ground (arith, h)
  update-is_safe m (fetched_agents rows) h = ground (arith, h)
  update-is_safe m (failed e) h = ground (arith, h)
  update-is_safe m other h = ground (arith, h)

  pub run-is_ready :
      (input : T) (m : ReposModel T) (cs : List Cmd)
      → Reached (update field) (new_repos input) m cs
      → is_ready m ≡ true
  run-is_ready input m cs run =
      (Reached-safe is_ready is_complete (start-is_ready input) update-is_safe m cs run).0

  -- Whatever is pressed and whatever arrives, the view of repositories asks only to add a repository
  -- with a name, with an address, and with one of the three build systems; and its step is at most 6
  -- and its choice of a build system one of the three.
  pub repositories_are_complete :
      (input : T) (m : ReposModel T) (cs : List Cmd)
      → Reached (update field) (new_repos input) m cs
      → (every is_complete cs ≡ true) × (m.add_step ≤ 6) × (m.build_cursor ≤ 2)
  unfolding is_ready
  repositories_are_complete input m cs run =
      let (ready, complete) =
        Reached-safe is_ready is_complete (start-is_ready input) update-is_safe m cs run in
      (complete, ground (arith, ready), ground (arith, ready))
