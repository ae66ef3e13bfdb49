-- ===== src/Tui/Setup.antt =====
-- internal/tui/views/init.go: the steps that write the first configuration. What `Save` returns for a
-- configuration, and what fmt.Sscanf reads of a port, are arguments.
pub mod Fields
use uruflow.Prelude.{
  ℕ, suc, ◌+◌, ◌-◌, ◌%◌, ◌==◌, Bool, true, false, ◌&&◌, List, [], ◌∷◌, ◌++◌, Option, none, some,
  Text, bytes, eqb, is_nil, ltb, leb, length, take, if◌then◌else◌,
}
use uruflow.Prelude.Int.{ℤ}
use uruflow.Config.{Config, default_config}
use uruflow.Tui.Dialog.{one_of}

pub record InitModel : Type 0 where
  pub step : ℕ
  pub total_steps : ℕ
  pub http_port : Text
  pub tcp_port : Text
  pub secret : Text
  pub secret_option : ℕ
  pub data_dir : Text
  pub focused_field : ℕ
  pub done : Bool
  pub error : Text

-- `NewInitModel`, with the secret that is drawn.
abbrev pub new_init : Text → InitModel
new_init secret = record {
  step = 0;
  total_steps = 4;
  http_port = bytes "9000";
  tcp_port = bytes "9001";
  secret = secret;
  secret_option = 0;
  data_dir = bytes "/var/lib/uruflow-server";
  focused_field = 0;
  done = false;
  error = [];
}

-- A command ends the program; a configuration was handed to `Save`.
pub data Cmd : Type 0 where
  quit : Cmd
  saved : Config → Cmd

abbrev pub Next : Type 0
Next = Option (InitModel × List Cmd)

abbrev pub shorter : Text → Text
shorter t = take (length t - 1) t

-- The configuration that `saveConfig` makes. The argument `drawn` is the secret of `Default`.
unfoldable pub config_of : (Text → ℤ) → Text → InitModel → Config
unfolding default_config
config_of scan drawn m =
    let c = default_config drawn in
    record c {
      server = record c.server {
        http_port = if is_nil m.http_port then c.server.http_port else scan m.http_port;
        tcp_port = if is_nil m.tcp_port then c.server.tcp_port else scan m.tcp_port;
        data_dir = m.data_dir;
      };
      webhook = record c.webhook { secret = m.secret };
    }

abbrev told : InitModel → Option Text → InitModel
told m none = m
told m (some e) = record m { error = e }

-- "backspace"
unfoldable pub erase : InitModel → InitModel
erase m =
    if m.step == 1
    then (if m.focused_field == 0 && ltb 0 (length m.http_port)
        then record m { http_port = shorter m.http_port }
        else if m.focused_field == 1 && ltb 0 (length m.tcp_port)
        then record m { tcp_port = shorter m.tcp_port }
        else m)
    else if m.step == 3 && ltb 0 (length m.data_dir)
    then record m { data_dir = shorter m.data_dir }
    else m

-- A key of one byte.
unfoldable pub type_byte : InitModel → ℕ → InitModel
type_byte m c =
    if m.step == 1
    then (if leb 48 c && leb c 57
        then (if m.focused_field == 0 && ltb (length m.http_port) 5
            then record m { http_port = m.http_port ++ c ∷ [] }
            else if m.focused_field == 1 && ltb (length m.tcp_port) 5
            then record m { tcp_port = m.tcp_port ++ c ∷ [] }
            else m)
        else m)
    else if m.step == 3
    then record m { data_dir = m.data_dir ++ c ∷ [] }
    else m

abbrev pub type_in : InitModel → Text → InitModel
type_in m (c ∷ []) = type_byte m c
type_in m _ = m

module _ (scan : Text → ℤ) (drawn : Text) (saving : Config → Option Text) where
  -- "enter"
  unfoldable pub proceed : InitModel → InitModel × List Cmd
  unfolding config_of
  proceed m =
      let c = config_of scan drawn m in
      if m.done
      then (m, quit ∷ [])
      else if ltb m.step m.total_steps
      then (record m { step = suc m.step; focused_field = 0 }, [])
      else (told (record m { done = true }) (saving c), saved c ∷ [])

  abbrev up : InitModel → InitModel
  up m =
      if m.step == 2
      then record m { secret_option = m.secret_option - 1 }
      else record m { focused_field = m.focused_field - 1 }

  abbrev down : InitModel → InitModel
  down m =
      if m.step == 2
      then (if ltb m.secret_option 1 then record m { secret_option = suc m.secret_option } else m)
      else if m.step == 1 && ltb m.focused_field 1
      then record m { focused_field = suc m.focused_field }
      else m

  -- The other field of the two.
  abbrev other_field : InitModel → InitModel
  other_field m = if m.step == 1 then record m { focused_field = suc m.focused_field % 2 } else m

  -- The keys of `Update`; a field is one of two.
  unfoldable pub update : InitModel → Text → Next
  unfolding proceed erase type_byte
  update m pressed =
      if eqb pressed (bytes "ctrl+c")
      then some (m, quit ∷ [])
      else if one_of pressed (bytes "up" ∷ bytes "k" ∷ [])
      then some (up m, [])
      else if one_of pressed (bytes "down" ∷ bytes "j" ∷ [])
      then some (down m, [])
      else if eqb pressed (bytes "tab")
      then some (other_field m, [])
      else if eqb pressed (bytes "enter")
      then some (proceed m)
      else if eqb pressed (bytes "backspace")
      then some (erase m, [])
      else some (type_in m pressed, [])
