-- ===== src/Tui/Switch/Moves.antt =====
-- When a key of internal/tui/model.go stops the program with an index out of range.
use uruflow.Prelude.{
  ◌≡◌, ◌⊎◌, refl, sym, ◌∙◌, subst, ℕ, zero, suc, Bool, true, false, not, ◌&&◌, List, [], ◌∷◌, none,
  some, Text, bytes, arith, eqb, eqb_iff, is_nil, leb, length, Bool-cases, inl, inr,
}
use uruflow.Tui.Logs.{nth}
use uruflow.Tui.Switch.{
  View, dashboard, agents, repos, alerts, deploy, logs, init, container_logs, AgentMode, agent_list,
  agent_add, agent_result, agent_confirm_delete, Nav, Outcome, crashed, is_input_active, open_logs,
  on_command_key, unless_typing, press,
}

abbrev pub is_crash : Outcome → Bool
is_crash crashed = true
is_crash _ = false

-- The list of agents has the key, and the cursor is past its end.
abbrev pub lists_past_end : View → AgentMode → List ℕ → ℕ → Bool
lists_past_end agents agent_add counts cursor = false
lists_past_end agents _ counts cursor = not (is_nil counts) && leb (length counts) cursor
lists_past_end _ mode counts cursor = false

nth_end :
    (n : ℕ) (counts : List ℕ)
    → ((nth n counts ≡ none) × (leb (length counts) n ≡ true))
      ⊎ ((c : ℕ) × (nth n counts ≡ some c) × (leb (length counts) n ≡ false))
unfolding nth
nth_end n [] = inl (refl, ground arith)
nth_end zero (c ∷ counts) = inr (c, refl, ground arith)
nth_end (suc n) (c ∷ counts) = elim (nth_end n counts) [
  | inl (e, l) ↦ inl (e, ground (arith, l))
  | inr (d, e, l) ↦ inr (d, e, ground (arith, l))
]

-- The cursor's agent is asked for if there are agents.
open_logs-crash :
    (m : Nav)
    → is_crash (open_logs agents m).1
      ≡ (not (is_nil m.container_counts) && leb (length m.container_counts) m.agent_cursor)
unfolding open_logs
open_logs-crash m = elim (nth_end m.agent_cursor m.container_counts) [
  | inl (e, l) ↦ elim (Bool-cases (is_nil m.container_counts)) [
    | inl n ↦ ground (arith, n)
    | inr n ↦ ground (arith, n, e, l)
  ]
  | inr (c, e, l) ↦ elim (Bool-cases (is_nil m.container_counts)) [
    | inl n ↦ ground (arith, n)
    | inr n ↦ ground (arith, n, e, l)
  ]
]

other_key :
    (m : Nav) (k : Text) → eqb k (bytes "l") ≡ false → is_crash (on_command_key m k).1 ≡ false
unfolding on_command_key
other_key m k e = ground (arith, e)

typing-other :
    (m : Nav) (k : Text) → eqb k (bytes "l") ≡ false → is_crash (unless_typing m k).1 ≡ false
unfolding unless_typing
typing-other m k e = ground (arith, other_key m k e)

-- "l" while the active view is `v`, with the agents' mode.
typing-l :
    (v : View) (mode : AgentMode) (m : Nav)
    → is_crash (unless_typing (record m { active = v; agent_mode = mode }) (bytes "l")).1
      ≡ lists_past_end v mode m.container_counts m.agent_cursor
unfolding unless_typing is_input_active on_command_key eqb open_logs
typing-l dashboard mode m = refl
typing-l agents agent_list m =
    open_logs-crash (record m { active = agents; agent_mode = agent_list })
typing-l agents agent_add m = refl
typing-l agents agent_result m =
    open_logs-crash (record m { active = agents; agent_mode = agent_result })
typing-l agents agent_confirm_delete m =
    open_logs-crash (record m { active = agents; agent_mode = agent_confirm_delete })
typing-l repos mode m = ground arith
typing-l alerts mode m = refl
typing-l deploy mode m = refl
typing-l logs mode m = refl
typing-l init mode m = refl
typing-l container_logs mode m = refl

press-other : (m : Nav) (k : Text) → eqb k (bytes "l") ≡ false → is_crash (press m k).1 ≡ false
unfolding press
press-other m k e =
    ground (arith, typing-other m k e, typing-other (record m { show_help = not m.show_help }) k e)

-- Before the active view gets a key, the model stops the program with an index out of range exactly
-- if the key is "l", the view of agents is active, no name is typed, there are agents, and the cursor
-- is past their end. What the view itself does with a key that is passed on is not looked at.
pub press-crash :
    (m : Nav) (k : Text)
    → is_crash (press m k).1 ≡ (
        eqb k (bytes "l") && lists_past_end m.active m.agent_mode m.container_counts m.agent_cursor)
unfolding press eqb
press-crash m k = elim (Bool-cases (eqb k (bytes "l"))) [
  | inl e ↦
      subst
        (λ t. is_crash (press m t).1 ≡ (
          eqb t (bytes "l")
          && lists_past_end m.active m.agent_mode m.container_counts m.agent_cursor))
        (sym ((eqb_iff k (bytes "l")).0 e)) (typing-l m.active m.agent_mode m)
  | inr e ↦ press-other m k e ∙ rw e refl
]
