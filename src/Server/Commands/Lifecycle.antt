-- ===== src/Server/Commands/Lifecycle.antt =====
-- A deployment through the reports of its agent (the four command handlers of
-- internal/tcp/server.go): the table against a state machine for one deployment.
use mathlib.Core.Option
use uruflow.Prelude.{
  ◌≡◌, ◌≢◌, ◌⊎◌, bytes, Bool-cases, refl, ap, ◌∙◌, false, List, [], ◌∷◌, ◌++◌, Option, none, some,
  Text, arith, All, key_is, eqb, eqb_iff, eqb_self, find_passes, Option-cases, inl, inr,
  if◌then◌else◌,
}
use uruflow.Prelude.Int.{quot, ◌-ℤ◌}
use uruflow.Models.{Time, Deployment, DeployStatus, is_pending}
use uruflow.Protocol.Payloads.{
  CommandAckPayload, CommandStartPayload, CommandLogPayload, CommandDonePayload,
}
use uruflow.Storage.{Db}
use uruflow.Storage.Deployments.{update_deployment, get_deployment, overwrite}
use uruflow.Storage.Lookup.{get_deployment-update_deployment, get_deployment-add_deployment_log}
use uruflow.Server.Commands.{
  set_running, finish, command_ack, command_start, store_log, command_done, log_row, output_line,
}

-- A decoded report, with the time at which the server handles it.
pub data Report : Type 0 where
  acked : CommandAckPayload → Report
  started : CommandStartPayload → Report
  logged : CommandLogPayload → Report
  finished : Time → CommandDonePayload → Report

unfoldable pub apply : Db → Report → Db
apply db (acked p) = command_ack db p
apply db (started p) = command_start db p
apply db (logged p) = store_log db p
apply db (finished now p) = command_done now db p

unfoldable pub apply_all : Db → List Report → Db
apply_all db [] = db
apply_all db (r ∷ rs) = apply_all (apply db r) rs

-- The machine of one deployment.
abbrev pub step : Report → Deployment → Deployment
step (acked p) d = if is_pending d.status then set_running d else d
step (started p) d = set_running d
step (logged p) d = d
step (finished now p) d = finish now p d

abbrev pub subject : Report → Text
subject (acked p) = p.command_id
subject (started p) = p.command_id
subject (logged p) = p.command_id
subject (finished now p) = p.command_id

-- A report about another deployment leaves this one alone.
abbrev pub effect : Text → Report → Deployment → Deployment
effect id r d = if eqb (subject r) id then step r d else d

abbrev pub effects : Text → List Report → Deployment → Deployment
effects id [] d = d
effects id (r ∷ rs) d = effects id rs (effect id r d)

get_deployment_id : (db : Db) (k : Text) {d : Deployment} → get_deployment db k ≡ some d → d.id ≡ k
unfolding get_deployment
get_deployment_id db k {d} e =
    (eqb_iff d.id k).0 (find_passes (key_is (λ r. r.id) k) db.deployments e)

-- An update by a changed copy of the row that was read.
get-updated :
    (db : Db) (k id : Text) (d d' : Deployment)
    → get_deployment db k ≡ some d
    → d'.id ≡ d.id
    → overwrite d' d ≡ d'
    → get_deployment (update_deployment db d') id
      ≡ (if eqb k id then some d' else get_deployment db id)
get-updated db k id d d' e same o =
    ground
      (arith, get_deployment-update_deployment db d' id, get_deployment_id db k e, eqb_iff k id)

abbrev Follows : Db → Db → Text → Report → Type 0
Follows db db' id r = get_deployment db' id ≡ Option.map (effect id r) (get_deployment db id)

unmoved :
    (id : Text) (p : CommandLogPayload) (o : Option Deployment)
    → o ≡ Option.map (effect id (logged p)) o
unmoved id p none = refl
unmoved id p (some d) = ground arith

get_deployment-apply : (db : Db) (id : Text) (r : Report) → Follows db (apply db r) id r
unfolding apply command_ack command_start store_log command_done
get_deployment-apply db id (acked p) = elim (Option-cases (get_deployment db p.command_id)) [
  | inl e ↦ ground (arith, e, eqb_iff p.command_id id)
  | inr (d, e) ↦ ground (
    arith,
    e,
    eqb_iff p.command_id id,
    get-updated db p.command_id id d (set_running d) e refl refl,
  )
]
get_deployment-apply db id (started p) = elim (Option-cases (get_deployment db p.command_id)) [
  | inl e ↦ ground (arith, e, eqb_iff p.command_id id)
  | inr (d, e) ↦ ground (
    arith,
    e,
    eqb_iff p.command_id id,
    get-updated db p.command_id id d (set_running d) e refl refl,
  )
]
get_deployment-apply db id (logged p) =
    get_deployment-add_deployment_log db (log_row p) id ∙ unmoved id p (get_deployment db id)
get_deployment-apply db id (finished now p) = elim (Option-cases (get_deployment db p.command_id)) [
  | inl e ↦ ground (arith, e, eqb_iff p.command_id id)
  | inr (d, e) ↦ ground (
    arith,
    e,
    eqb_iff p.command_id id,
    get-updated db p.command_id id d (finish now p d) e refl refl,
    get_deployment-add_deployment_log (update_deployment db (finish now p d)) (output_line now p)
        id,
  )
]

-- The table refines the machine: after any reports, about any deployments, the deployment of an id
-- is the one that was there, moved by its own reports in their order; reports create no deployment.
pub get_deployment-apply_all :
    (rs : List Report) (db : Db) (id : Text)
    → get_deployment (apply_all db rs) id ≡ Option.map (effects id rs) (get_deployment db id)
unfolding apply_all
get_deployment-apply_all [] db id = kept (get_deployment db id)
  where
    kept : (o : Option Deployment) → o ≡ Option.map (effects id []) o
    kept none = refl
    kept (some d) = refl
get_deployment-apply_all (r ∷ rs) db id =
    get_deployment-apply_all rs (apply db r) id
    ∙ moved (get_deployment db id) (get_deployment-apply db id r)
  where
    moved :
        (o : Option Deployment)
        → get_deployment (apply db r) id ≡ Option.map (effect id r) o
        → Option.map (effects id rs) (get_deployment (apply db r) id)
          ≡ Option.map (effects id (r ∷ rs)) o
    moved none e = rw e
    moved (some d) e = rw e

-- After the verdict: no more starts or verdicts for this deployment.
abbrev IsLate : Text → Report → Type 0
IsLate id (started p) = eqb p.command_id id ≡ false
IsLate id (finished now p) = eqb p.command_id id ≡ false
IsLate id _ = Unit {0}

abbrev pub AllLate : Text → List Report → Type 0
AllLate id = All (IsLate id)

finish-effect :
    (id : Text) (now : Time) (p : CommandDonePayload) (r : Report) (d : Deployment)
    → finish now p (effect id r d) ≡ finish now p d
finish-effect id now p (acked a) d = ground arith
finish-effect id now p (started a) d = ground arith
finish-effect id now p (logged a) d = ground arith
finish-effect id now p (finished t a) d = ground arith

finish-effects :
    (id : Text) (now : Time) (p : CommandDonePayload) (rs : List Report) (d : Deployment)
    → finish now p (effects id rs d) ≡ finish now p d
finish-effects id now p [] d = refl
finish-effects id now p (r ∷ rs) d =
    finish-effects id now p rs (effect id r d) ∙ finish-effect id now p r d

effect_late :
    (id : Text) (now : Time) (p : CommandDonePayload) (r : Report) (d : Deployment)
    → IsLate id r
    → effect id r (finish now p d) ≡ finish now p d
effect_late id now p (acked a) d h = ground arith
effect_late id now p (started a) d h = ground arith
effect_late id now p (logged a) d h = ground arith
effect_late id now p (finished t a) d h = ground arith

effects_late :
    (id : Text) (now : Time) (p : CommandDonePayload) (rs : List Report) (d : Deployment)
    → AllLate id rs
    → effects id rs (finish now p d) ≡ finish now p d
effects_late id now p [] d h = refl
effects_late id now p (r ∷ rs) d h =
    ap (effects id rs) (effect_late id now p r d h.0) ∙ effects_late id now p rs d h.1

effects-append :
    (id : Text) (rs ss : List Report) (d : Deployment)
    → effects id (rs ++ ss) d ≡ effects id ss (effects id rs d)
effects-append id [] ss d = refl
effects-append id (r ∷ rs) ss d = effects-append id rs ss (effect id r d)

-- What the last verdict leaves in the table.
pub verdict_last :
    (before after : List Report) (now : Time) (p : CommandDonePayload) (db : Db) {d : Deployment}
    → get_deployment db p.command_id ≡ some d
    → AllLate p.command_id after
    → get_deployment (apply_all db (before ++ (finished now p ∷ after))) p.command_id
      ≡ some (finish now p d)
verdict_last before after now p db {d} e late =
    get_deployment-apply_all (before ++ (finished now p ∷ after)) db p.command_id
    ∙ rw e (
        ap some (
          effects-append p.command_id before (finished now p ∷ after) d
          ∙ rw (eqb_self p.command_id) (
              effects_late p.command_id now p after (effects p.command_id before d) late
              ∙ finish-effects p.command_id now p before d)))

-- What a verdict makes of a deployment: a success exactly if it says "success", its output, the end,
-- and the time since the start in milliseconds; the other columns stay.
abbrev pub Ended : Time → CommandDonePayload → Deployment → Deployment → Type 0
Ended now p d ended =
    ((p.status ≡ bytes "success") × (ended.status ≡ DeployStatus.success)
      ⊎ (p.status ≢ bytes "success") × (ended.status ≡ DeployStatus.failed))
    × (ended.output ≡ p.output)
    × (ended.ended_at ≡ some now)
    × (ended.duration ≡ quot (now -ℤ d.started_at) 1000000)
    × (record ended {
      status = d.status;
      output = d.output;
      ended_at = d.ended_at;
      duration = d.duration;
    }
        ≡ d)

finish-Ended :
    (now : Time) (p : CommandDonePayload) (d : Deployment) → Ended now p d (finish now p d)
finish-Ended now p d = (
  elim (Bool-cases (eqb p.status (bytes "success"))) [
    | inl e ↦ inl ((eqb_iff p.status (bytes "success")).0 e, rw e refl)
    | inr e ↦ inr (λ s. cc (e, (eqb_iff p.status (bytes "success")).1 s), rw e refl)
  ],
  refl,
  refl,
  refl,
  refl,
)

-- The verdict stands: whatever was reported before, and with any acknowledgements, log lines and
-- reports about other deployments after it, the deployment ends as its last verdict says: a success
-- if the status is "success" and failed otherwise, with the verdict's output, ended when it arrived,
-- after the milliseconds since the start that the deployment was created with, and with its other
-- columns unchanged.
pub verdict_stands :
    (before after : List Report) (now : Time) (p : CommandDonePayload) (db : Db) {d : Deployment}
    → get_deployment db p.command_id ≡ some d
    → AllLate p.command_id after
    → (ended : Deployment) × (get_deployment
          (apply_all db (before ++ (finished now p ∷ after)))
          p.command_id
        ≡ some ended)
      × Ended now p d ended
verdict_stands before after now p db {d} e late =
    (finish now p d, verdict_last before after now p db e late, finish-Ended now p d)
