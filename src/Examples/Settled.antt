-- ===== src/Examples/Settled.antt =====
-- The properties of the handlers over the graph, of src/opspilot/routers/incidents.py and
-- src/opspilot/agent/graph.py, applied to the example.
use opspilot_sre_incident_re.Prelude.{ℕ, String, ◌≡◌, ◌+◌, refl, arith, true, false, none, some}
use opspilot_sre_incident_re.Json.{text, field, end}
use opspilot_sre_incident_re.Models.{Incident}
use opspilot_sre_incident_re.Agent.Schemas.{rollback_deployment}
use opspilot_sre_incident_re.Agent.Client.{transient, ChatFn}
use opspilot_sre_incident_re.Agent.Idempotency.{existing}
use opspilot_sre_incident_re.Agent.Graph.Outage.{IsDown}
use opspilot_sre_incident_re.Incidents.Applying.{Db, ApprovalDecision, App, thread_id}
use opspilot_sre_incident_re.Incidents.Timeout.{deps_for, find_incident}
use opspilot_sre_incident_re.Incidents.{get_incident, run_incident, decide_approval, params_valid}
use opspilot_sre_incident_re.Incidents.Resolution.{WaitsFor}
use opspilot_sre_incident_re.Incidents.Settling.{IsClosed, get_incident-settles}
use opspilot_sre_incident_re.Incidents.Approving.{IsExecuted, decide_approval-executes}
use opspilot_sre_incident_re.Incidents.Outage.{IsGivenUp, run_incident-IsGivenUp}
use opspilot_sre_incident_re.Incidents.Ending.{EndsOver, run_incident-EndsOver}
use opspilot_sre_incident_re.Incidents.Closed.{Reaches, arrived, served, Reaches-keeps}
use opspilot_sre_incident_re.Incidents.Phases.{Life}
use opspilot_sre_incident_re.Incidents.Refinement.{create, run, handle, view, handle-Life}
use opspilot_sre_incident_re.Examples.{outage, rt, bad_deploy, at_gate}
use opspilot_sre_incident_re.Examples.StepEngine.{Checkpoints, step_engine-IsEngine}
use opspilot_sre_incident_re.Examples.Handling.{
  app, db_with, new_db, incident, late_incident, late_db,
}

abbrev waits : WaitsFor app.engine late_db.checkpoints (thread_id 1) bad_deploy at_gate
waits = record { saved_at = refl; known = refl; needs = refl; healthy = refl }

get_incident-settles_example :
    IsClosed app 1 (thread_id 1) (get_incident app 1 none late_db)
    × ((get_incident app 1 none late_db).1.world.executions ≡ late_db.world.executions)
get_incident-settles_example =
    get_incident-settles app (step_engine-IsEngine rt) 1 outage late_incident bad_deploy at_gate
      none late_db refl refl refl waits

-- A pause of a minute, on the rollback.
abbrev asked_incident : Incident
asked_incident = record late_incident {
  awaiting_since = some 100000;
  pending_approval = some (field "action_type" (text "rollback_deployment") end);
}

abbrev asked_db : Db ℕ Checkpoints
asked_db = db_with asked_incident

abbrev go_ahead : ApprovalDecision
go_ahead = record {
  approved = true;
  actor = "ana";
  params = some (field "target_version" (text "v2.7") end);
}

go_ahead-valid :
    params_valid app (some (text "rollback_deployment")) (field "target_version" (text "v2.7") end)
    ≡ true
unfolding params_valid
go_ahead-valid = refl

nothing_executed : (key : String) → existing key asked_db.world.executions ≡ none
unfolding existing
nothing_executed key = refl

decide_approval-executes_example :
    IsClosed app 1 (thread_id 1) (decide_approval app 1 go_ahead none asked_db)
    × IsExecuted rt
        (deps_for app false outage asked_incident asked_db)
        rollback_deployment
        asked_db.world.executions
        (decide_approval app 1 go_ahead none asked_db).1.world.executions
decide_approval-executes_example =
    decide_approval-executes app (step_engine-IsEngine rt) 1 outage asked_incident bad_deploy
      at_gate go_ahead none asked_db refl refl refl refl waits refl refl go_ahead-valid
      (λ params. nothing_executed _)

-- The first moment at which the approval SLA has passed since the run.
abbrev sla_later : ℕ
sla_later =
    (run_incident app 1 none (new_db incident)).1.world.now + app.settings.approval_sla_seconds

run_incident-EndsOver_example :
    EndsOver app 1 sla_later none (run_incident app 1 none (new_db incident))
run_incident-EndsOver_example =
    run_incident-EndsOver app (step_engine-IsEngine rt) 1 sla_later none outage incident none
      (new_db incident) refl refl refl refl (omega arith)

abbrev unreachable : ChatFn ℕ
unreachable request calls = (transient "overloaded", calls)

abbrev down_app : App ℕ Checkpoints
down_app = record app { chat_fn = unreachable }

unreachable-IsDown : IsDown down_app.chat_fn
unreachable-IsDown request calls = refl

run_incident-IsGivenUp_example :
    IsGivenUp down_app 1 (run_incident down_app 1 none (new_db incident))
    × ((run_incident down_app 1 none (new_db incident)).1.world.executions
        ≡ (new_db incident).world.executions)
run_incident-IsGivenUp_example =
    run_incident-IsGivenUp down_app (step_engine-IsEngine rt) unreachable-IsDown 1 outage incident
      none (new_db incident) refl refl refl refl

handle-Life_example :
    Life
      (view app 2 (db_with incident))
      (view app 2 (handle app (create "checkout-deploy-outage" 2) none (db_with incident)))
handle-Life_example =
    handle-Life app (create "checkout-deploy-outage" 2) none (db_with incident) refl 2

abbrev closed_db : Db ℕ Checkpoints
closed_db = db_with (record incident { status = "diagnosed" })

-- It is run again, and then another incident is opened.
abbrev busy_db : Db ℕ Checkpoints
busy_db = handle app (create "checkout-deploy-outage" 2) none (handle app (run 1) none closed_db)

busy_requests : Reaches app closed_db busy_db
unfolding handle run_incident
busy_requests =
    served (run 1) none tt (served (create "checkout-deploy-outage" 2) none refl arrived)

Reaches-keeps_example : find_incident 1 busy_db ≡ some (record incident { status = "diagnosed" })
Reaches-keeps_example =
    Reaches-keeps app 1 (record incident { status = "diagnosed" }) closed_db busy_db
      (record { shut = refl; settled = refl }) refl busy_requests
