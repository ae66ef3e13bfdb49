-- ===== src/Tui/Alerts.antt =====
-- internal/tui/views/alerts.go: the active alerts and those of the last day, and resolving one.
-- `none` is a panic.
pub mod Panics
use uruflow.Prelude.{
  ℕ, suc, ◌+◌, ◌-◌, Bool, true, false, not, List, [], ◌∷◌, Option, none, some, Text, bytes, eqb,
  ltb, length, if◌then◌else◌,
}
use uruflow.Models.{Time}
use uruflow.Storage.{Db}
use uruflow.Storage.Alerts.{resolve_alert}
use uruflow.Tui.Logs.{nth}
use uruflow.Tui.Rows.{AlertRow, Printing, fetch_alerts}
use uruflow.Tui.Dialog.{
  Dialog, toggle_selection, hidden, resolve_alert_dialog, one_of, Answer, closed, toggled,
  confirmed, ignored, answer,
}

pub record AlertsModel : Type 0 where
  pub active : List AlertRow
  pub recent : List AlertRow
  pub cursor : ℕ
  pub expanded : Bool
  pub confirms : Bool
  pub dialog : Dialog
  pub loading : Bool
  pub spinner_frame : ℕ
  pub error : Option Text

pub data Msg : Type 0 where
  key : Text → Msg
  spinner_tick : Msg
  fetched : List AlertRow → List AlertRow → Msg
  failed : Text → Msg
  other : Msg

pub data Cmd : Type 0 where
  fetch : Cmd
  spin : Cmd
  resolve : Text → Cmd

abbrev pub Next : Type 0
Next = Option (AlertsModel × List Cmd)

abbrev stay : AlertsModel → Next
stay m = some (m, [])

abbrev pub ask : AlertsModel → Option AlertRow → Next
ask m none = none
ask m (some a) = stay (record m { dialog = resolve_alert_dialog a.type; confirms = true })

-- The keys of the list.
unfoldable pub update_list : AlertsModel → Text → Next
unfolding nth
update_list m pressed =
    if one_of pressed (bytes "up" ∷ bytes "k" ∷ [])
    then stay (record m { cursor = m.cursor - 1 })
    else if one_of pressed (bytes "down" ∷ bytes "j" ∷ [])
    then stay (
        if ltb (suc m.cursor) (length m.active + length m.recent)
        then record m { cursor = suc m.cursor }
        else m)
    else if eqb pressed (bytes "x")
    then (if ltb m.cursor (length m.active) then ask m (nth m.cursor m.active) else stay m)
    else if eqb pressed (bytes "e")
    then stay (record m { expanded = not m.expanded })
    else if eqb pressed (bytes "r")
    then some (record m { loading = true }, fetch ∷ spin ∷ [])
    else stay m

abbrev back_to_list : AlertsModel → AlertsModel
back_to_list m = record m { confirms = false; dialog = hidden m.dialog }

abbrev pub resolve_at : AlertsModel → Option AlertRow → Next
resolve_at m none = none
resolve_at m (some a) = some (record (back_to_list m) { loading = true }, resolve a.id ∷ spin ∷ [])

abbrev pub answered : AlertsModel → Answer → Next
answered m closed = stay (back_to_list m)
answered m toggled = stay (record m { dialog = toggle_selection m.dialog })
answered m confirmed = resolve_at m (nth m.cursor m.active)
answered m ignored = stay m

-- `updateConfirmResolve`
unfoldable pub update_confirm_resolve : AlertsModel → Text → Next
unfolding answer nth
update_confirm_resolve m pressed = answered m (answer m.dialog pressed)

-- `Update`
unfoldable pub update : AlertsModel → Msg → Next
unfolding update_list update_confirm_resolve
update m (key pressed) =
    if m.confirms then update_confirm_resolve m pressed else update_list m pressed
update m spinner_tick =
    some (record m { spinner_frame = suc m.spinner_frame }, if m.loading then spin ∷ [] else [])
update m (fetched active recent) =
    stay (record m { active = active; recent = recent; loading = false })
update m (failed e) = stay (record m { error = some e; loading = false })
update m other = stay m

-- `resolveAlert`, and the lists after it.
unfoldable pub run_resolve : Printing → Time → Db → Text → Db × Msg
run_resolve print now db id =
    let db' = resolve_alert db now id in
    let (active, recent) = fetch_alerts print db' now in (db', fetched active recent)
