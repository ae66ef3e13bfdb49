-- ===== src/Tests/Tables.antt =====
-- The tables at concrete rows.
use mathlib.Core.Option
use uruflow.Storage.Deployments.{create_deployment, get_deployment}
use uruflow.Prelude.{find, any, ◌≡◌, refl, List, [], ◌∷◌, some, Text, bytes, eqb}
use uruflow.Prelude.Int.{pos}
use uruflow.Models.{Deployment, DeployStatus}
use uruflow.Protocol.Payloads.{zero_command_ack, zero_command_start, zero_command_done}
use uruflow.Storage.{Db, empty_db}
use uruflow.Storage.Agents.{create_agent}
use uruflow.Storage.Integrity.{
  IsValid, Statement, creates_agent, creates_deployment, updates_deployment, deletes_agent,
  execute_all,
}
use uruflow.Storage.Integrity.Execution.{history-IsValid}
use uruflow.Server.Commands.Lifecycle.{
  Report, acked, started, finished, apply_all, effects, get_deployment-apply_all, verdict_stands,
  Ended,
}
use uruflow.Tests.Fixtures.{one_agent, deployment, agent, agent_id}

abbrev id : Text
id = bytes "d1"

abbrev one_deployment : Db
one_deployment = (create_deployment one_agent deployment).0

abbrev failing : Deployment
failing = record deployment { status = DeployStatus.failed; output = bytes "no" }

abbrev history : List Statement
history =
    creates_agent (pos 0) agent
    ∷ creates_deployment deployment
    ∷ deletes_agent agent_id
    ∷ updates_deployment failing
    ∷ []

history-IsValid_example : IsValid (execute_all empty_db history)
history-IsValid_example = history-IsValid history

abbrev verdict : Report
verdict =
    finished (pos 5000000) (record zero_command_done { command_id = id; status = bytes "success" })

abbrev reports : List Report
reports = started (record zero_command_start { command_id = id }) ∷ verdict ∷ []

get_deployment-apply_all_example :
    get_deployment (apply_all one_deployment reports) id
    ≡ Option.map (effects id reports) (get_deployment one_deployment id)
get_deployment-apply_all_example = get_deployment-apply_all reports one_deployment id

verdict_stands_example :
    (ended : Deployment) × (get_deployment
        (apply_all one_deployment (
          started (record zero_command_start { command_id = id })
          ∷ (verdict ∷ acked (record zero_command_ack { command_id = id }) ∷ [])))
        id
      ≡ some ended)
    × Ended
        (pos 5000000)
        (record zero_command_done { command_id = id; status = bytes "success" })
        deployment
        ended
unfolding get_deployment create_deployment create_agent empty_db find any eqb
verdict_stands_example =
    verdict_stands (started (record zero_command_start { command_id = id }) ∷ [])
      (acked (record zero_command_ack { command_id = id }) ∷ []) (pos 5000000)
      (record zero_command_done { command_id = id; status = bytes "success" }) one_deployment
      {d = deployment} refl (tt, tt)
