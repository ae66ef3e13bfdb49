-- ===== src/Tui/Logs.antt =====
-- internal/tui/views/logs.go: the history of deployments, and the log of one. Sizes of the window
-- are not negative; a command is what is fetched or waited for next.
pub mod Window
use uruflow.Prelude.{
  ℕ, zero, suc, ◌+◌, ◌-◌, Bool, true, false, not, ◌&&◌, ◌||◌, List, [], ◌∷◌, Option, none, some,
  Text, bytes, eqb, is_nil, ltb, leb, length, if◌then◌else◌,
}

-- `LogData` and `DeploymentData`.
pub record LogRow : Type 0 where
  pub time : Text
  pub content : Text
  pub stream : Text

pub record DeploymentRow : Type 0 where
  pub id : Text
  pub repo : Text
  pub branch : Text
  pub commit : Text
  pub agent : Text
  pub status : Text
  pub time : Text

pub data LogsMode : Type 0 where
  select : LogsMode
  view : LogsMode

pub record LogsModel : Type 0 where
  pub width : ℕ
  pub height : ℕ
  pub mode : LogsMode
  pub deployments : List DeploymentRow
  pub cursor : ℕ
  pub deployment_id : Text
  pub repo : Text
  pub commit : Text
  pub logs : List LogRow
  pub offset : ℕ
  pub auto_follow : Bool
  pub error : Option Text

pub data Msg : Type 0 where
  tick : Msg
  key : Text → Msg
  fetched_deployments : List DeploymentRow → Msg
  fetched_logs : List LogRow → Msg
  failed : Text → Msg
  other : Msg

pub data Cmd : Type 0 where
  fetch_deployments : Cmd
  fetch_logs : Cmd
  wait : Cmd

-- len(m.Logs) - (m.Height - 12), at least zero.
abbrev pub max_offset : LogsModel → ℕ
max_offset m = length m.logs + 12 - m.height

abbrev to_end : LogsModel → LogsModel
to_end m = record m { offset = max_offset m }

-- The element at an index; `none` is the panic.
unfoldable pub nth {ℓ} : {A : Type ℓ} → ℕ → List A → Option A
nth n [] = none
nth zero (x ∷ xs) = some x
nth (suc n) (x ∷ xs) = nth n xs

-- `SetDeployment`
unfoldable pub set_deployment : LogsModel → Text → Text → Text → LogsModel
set_deployment m id repo commit = record m {
  deployment_id = id;
  repo = repo;
  commit = commit;
  mode = view;
  logs = [];
  offset = 0;
  auto_follow = true;
}

abbrev choose : LogsModel → Option DeploymentRow → LogsModel × List Cmd
choose m none = (m, [])
choose m (some d) = (set_deployment m d.id d.repo d.commit, fetch_logs ∷ [])

abbrev is_key : Text → Text → Text → Bool
is_key pressed a b = eqb pressed a || eqb pressed b

-- `updateSelect`; no deployment is chosen where the cursor is past the end.
unfoldable pub update_select : LogsModel → Text → LogsModel × List Cmd
unfolding set_deployment nth
update_select m pressed =
    if is_key pressed (bytes "up") (bytes "k")
    then (record m { cursor = m.cursor - 1 }, [])
    else if is_key pressed (bytes "down") (bytes "j")
    then (
      (if ltb (suc m.cursor) (length m.deployments) then record m { cursor = suc m.cursor } else m),
      [],
    )
    else if eqb pressed (bytes "enter")
    then choose m (nth m.cursor m.deployments)
    else if eqb pressed (bytes "r")
    then (m, fetch_deployments ∷ [])
    else (m, [])

-- "f" toggles the following of new lines, and goes to the end when it is on.
abbrev toggle_follow : LogsModel → LogsModel
toggle_follow m =
    if m.auto_follow
    then record m { auto_follow = false }
    else to_end (record m { auto_follow = true })

-- `updateView`
unfoldable pub update_view : LogsModel → Text → LogsModel × List Cmd
update_view m pressed =
    if eqb pressed (bytes "esc")
    then (record m { mode = select; deployment_id = []; logs = [] }, fetch_deployments ∷ [])
    else if is_key pressed (bytes "up") (bytes "k")
    then (
      (if ltb 0 m.offset then record m { offset = m.offset - 1; auto_follow = false } else m),
      [],
    )
    else if is_key pressed (bytes "down") (bytes "j")
    then ((if ltb m.offset (max_offset m) then record m { offset = suc m.offset } else m), [])
    else if eqb pressed (bytes "g")
    then (record m { offset = 0; auto_follow = false }, [])
    else if eqb pressed (bytes "G")
    then (to_end (record m { auto_follow = true }), [])
    else if eqb pressed (bytes "f")
    then (toggle_follow m, [])
    else if eqb pressed (bytes "r")
    then (m, fetch_logs ∷ [])
    else (m, [])

abbrev on_key : LogsModel → LogsMode → Text → LogsModel × List Cmd
on_key m select pressed = update_select m pressed
on_key m view pressed = update_view m pressed

abbrev is_view : LogsMode → Bool
is_view select = false
is_view view = true

abbrev with_logs : LogsModel → List LogRow → LogsModel
with_logs m rows =
    let m' = record m { logs = rows } in
    if m.auto_follow && not (is_nil rows) then to_end m' else m'

-- `Update`
unfoldable pub update : LogsModel → Msg → LogsModel × List Cmd
unfolding update_select update_view
update m tick =
    if is_view m.mode && not (is_nil m.deployment_id)
    then (m, fetch_logs ∷ wait ∷ [])
    else (m, fetch_deployments ∷ wait ∷ [])
update m (key pressed) = on_key m m.mode pressed
update m (fetched_deployments rows) = (record m { deployments = rows }, [])
update m (fetched_logs rows) = (with_logs m rows, [])
update m (failed e) = (record m { error = some e }, [])
update m other = (m, [])

abbrev cons_both : Option LogRow → Option (List LogRow) → Option (List LogRow)
cons_both (some row) (some rows) = some (row ∷ rows)
cons_both _ _ = none

-- The loop over the visible rows.
unfoldable pub rows_from : ℕ → ℕ → List LogRow → Option (List LogRow)
unfolding nth
rows_from zero i logs = some []
rows_from (suc n) i logs = cons_both (nth i logs) (rows_from n (suc i) logs)

abbrev pub visible_lines : ℕ → ℕ
visible_lines height = if leb 13 height then height - 12 else 1

-- The rows of the log in `viewLogs`; `none` is a panic of their slice. The heading above them, which
-- slices the id of a deployment without a repository, is left out.
unfoldable pub visible_rows : LogsModel → Option (List LogRow)
unfolding rows_from
visible_rows m =
    let last = m.offset + visible_lines m.height in
    let end = if ltb (length m.logs) last then length m.logs else last in
    rows_from (end - m.offset) m.offset m.logs
