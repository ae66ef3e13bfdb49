-- ===== src/Tui/Dialog.antt =====
-- internal/tui/components/dialog.go: the question before something is deleted or resolved, and the
-- keys that answer it, which the views of agents, repositories and alerts read alike.
pub mod Keys
use uruflow.Prelude.{
  ℕ, Bool, true, false, ◌||◌, List, [], ◌∷◌, ◌++◌, Text, bytes, eqb, ◌==◌, if◌then◌else◌,
}

pub record Dialog : Type 0 where
  pub title : Text
  pub message : Text
  pub warning : Text
  pub selected : ℕ
  pub visible : Bool

-- The zero value.
abbrev pub no_dialog : Dialog
no_dialog = record { title = []; message = []; warning = []; selected = 0; visible = false }

abbrev pub new_dialog : Text → Text → Text → Dialog
new_dialog title message warning = record {
  title = title;
  message = message;
  warning = warning;
  selected = 0;
  visible = true;
}

abbrev pub toggle_selection : Dialog → Dialog
toggle_selection d = record d { selected = if d.selected == 0 then 1 else 0 }

unfoldable pub is_confirmed : Dialog → Bool
is_confirmed d = d.selected == 1

abbrev pub hidden : Dialog → Dialog
hidden d = record d { visible = false }

abbrev pub delete_agent_dialog : Text → Dialog
delete_agent_dialog name =
    new_dialog (bytes "Delete Agent") (bytes "Remove agent '" ++ name ++ bytes "'?")
      (bytes "This cannot be undone.")

abbrev pub delete_repo_dialog : Text → Dialog
delete_repo_dialog name =
    new_dialog (bytes "Delete Repository") (bytes "Remove repository '" ++ name ++ bytes "'?")
      (bytes "This cannot be undone.")

abbrev pub resolve_alert_dialog : Text → Dialog
resolve_alert_dialog type =
    new_dialog (bytes "Resolve Alert") (bytes "Mark this " ++ type ++ bytes " alert as resolved?")
      []

-- Is the key one of these?
unfoldable pub one_of : Text → List Text → Bool
one_of pressed [] = false
one_of pressed (k ∷ ks) = eqb pressed k || one_of pressed ks

pub data Answer : Type 0 where
  closed : Answer
  toggled : Answer
  confirmed : Answer
  ignored : Answer

abbrev pub chosen : Bool → Answer
chosen true = confirmed
chosen false = closed

-- What a key answers: the switch that `updateConfirmDelete` of agents.go and repos.go and
-- `updateConfirmResolve` of alerts.go have in common.
unfoldable pub answer : Dialog → Text → Answer
answer d pressed =
    if one_of pressed (bytes "esc" ∷ bytes "n" ∷ [])
    then closed
    else if one_of pressed (bytes "left" ∷ bytes "right" ∷ bytes "h" ∷ bytes "l" ∷ bytes "tab" ∷ [])
    then toggled
    else if eqb pressed (bytes "enter")
    then chosen (is_confirmed d)
    else if eqb pressed (bytes "y")
    then confirmed
    else ignored
