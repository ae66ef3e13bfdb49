-- ===== src/Tests/Runs.antt =====
-- Messages one after the other, for the runs of a view.
use uruflow.Prelude.{◌≡◌, refl, List, [], ◌∷◌, ◌++◌, Option, none, some}
use uruflow.Tui.Run.{Reached, next}

-- Messages one after the other; one that panics is passed over.
abbrev pub moved : {M Cmd : Type 0} → M × List Cmd → Option (M × List Cmd) → M × List Cmd
moved s none = s
moved (m, cs) (some (m', cs')) = (m', cs ++ cs')

module _ {M Msg Cmd : Type 0} (update : M → Msg → Option (M × List Cmd)) where
  unfoldable pub steps : M × List Cmd → List Msg → M × List Cmd
  steps s [] = s
  steps s (msg ∷ msgs) = steps (moved s (update s.0 msg)) msgs

  moved-Reached :
      (start m : M) (cs : List Cmd) (msg : Msg) (o : Option (M × List Cmd))
      → update m msg ≡ o
      → Reached update start m cs
      → Reached update start (moved (m, cs) o).0 (moved (m, cs) o).1
  moved-Reached start m cs msg none e run = run
  moved-Reached start m cs msg (some (m', cs')) e run = next msg run e

  pub steps-Reached :
      (start : M) (s : M × List Cmd) (msgs : List Msg)
      → Reached update start s.0 s.1
      → Reached update start (steps s msgs).0 (steps s msgs).1
  unfolding steps
  steps-Reached start s [] run = run
  steps-Reached start s (msg ∷ msgs) run =
      steps-Reached start (moved s (update s.0 msg)) msgs
        (moved-Reached start s.0 s.1 msg (update s.0 msg) refl run)
