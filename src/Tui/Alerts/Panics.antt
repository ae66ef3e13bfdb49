-- ===== src/Tui/Alerts/Panics.antt =====
-- When a key stops the view of internal/tui/views/alerts.go with an index out of range.
use uruflow.Prelude.{Bool, false, ◌&&◌, Option, none, some, Text, leb, length, ◌≡◌, refl, arith}
use uruflow.Tui.Logs.{nth}
use uruflow.Tui.Cursor.{is_none, nth-is_none}
use uruflow.Tui.Rows.{AlertRow}
use uruflow.Tui.Dialog.{Answer, closed, toggled, confirmed, ignored, answer}
use uruflow.Tui.Dialog.Keys.{confirms, is_yes, answer-is_yes}
use uruflow.Tui.Alerts.{
  AlertsModel, Msg, key, spinner_tick, fetched, failed, other, update, update_list, ask, answered,
  update_confirm_resolve,
}

abbrev pub takes : AlertsModel → Msg → Bool
takes m (key pressed) = m.confirms && confirms m.dialog pressed
takes m _ = false

ask-runs : (m : AlertsModel) (o : Option AlertRow) → is_none (ask m o) ≡ is_none o
ask-runs m none = refl
ask-runs m (some a) = refl

list-runs : (m : AlertsModel) (pressed : Text) → is_none (update_list m pressed) ≡ false
unfolding update_list
list-runs m pressed =
    ground (arith, ask-runs m (nth m.cursor m.active), nth-is_none m.cursor m.active)

answered-panic :
    (m : AlertsModel) (a : Answer)
    → is_none (answered m a) ≡ (is_yes a && leb (length m.active) m.cursor)
answered-panic m confirmed = ground (arith, nth-is_none m.cursor m.active)
answered-panic m closed = refl
answered-panic m toggled = refl
answered-panic m ignored = refl

confirm-panic :
    (m : AlertsModel) (pressed : Text)
    → is_none (update_confirm_resolve m pressed)
      ≡ (confirms m.dialog pressed && leb (length m.active) m.cursor)
unfolding update_confirm_resolve
confirm-panic m pressed =
    ground (arith, answered-panic m (answer m.dialog pressed), answer-is_yes m.dialog pressed)

-- A message stops the view of alerts with an index out of range exactly if it is a key that confirms
-- the question whether an alert is resolved, and the cursor is past the end of the active alerts; the
-- key that asks does not, unlike that of the views of agents and repositories.
pub update-panics :
    (m : AlertsModel) (msg : Msg)
    → is_none (update m msg) ≡ (takes m msg && leb (length m.active) m.cursor)
unfolding update
update-panics m (key pressed) = ground (arith, list-runs m pressed, confirm-panic m pressed)
update-panics m spinner_tick = refl
update-panics m (fetched active recent) = refl
update-panics m (failed e) = refl
update-panics m other = refl
