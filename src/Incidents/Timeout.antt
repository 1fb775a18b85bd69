-- ===== src/Incidents/Timeout.antt =====
-- `_maybe_apply_approval_timeout` of src/opspilot/routers/incidents.py, and what it shares with the
-- handlers: the calls of the graph, and applying a result to the store.
use opspilot_sre_incident_re.Prelude.{
  ℕ, ◌-◌, String, Bool, true, false, not, ◌&&◌, Option, none, some, ltb, ◌==◌, str_eq,
  if◌then◌else◌, find, get_or, Result, ok, err,
}
use opspilot_sre_incident_re.Json.{Fields, bool, text, obj, end, field}
use opspilot_sre_incident_re.Models.{Scenario, Incident}
use opspilot_sre_incident_re.Agent.Schemas.{InvestigationResult}
use opspilot_sre_incident_re.Agent.State.{NodeDeps, World}
use opspilot_sre_incident_re.Agent.Graph.{build_deps, run_investigation, resume_investigation}
use opspilot_sre_incident_re.Incidents.Applying.{
  Db, ApprovalDecision, thread_id, awaits, put_incident, remember, audited, updated, App,
}

-- The decision that a timeout makes.
abbrev pub timeout_decision : Fields
timeout_decision = field "approved" (bool false) (
    field "actor" (text "system:sla-timeout")
      (field "params" (obj end) (field "timed_out" (bool true) end)))

-- `{"approved": ..., "actor": ..., "params": ...}`
abbrev pub decision_of : ApprovalDecision → Fields
decision_of body =
    field "approved" (bool body.approved)
      (field "actor" (text body.actor) (field "params" (obj (get_or body.params end)) end))

abbrev pub new_incident : ℕ → ℕ → Scenario → Incident
new_incident id now scenario = record {
  id = id;
  scenario_id = scenario.id;
  status = "open";
  diagnosis = none;
  steps_used = none;
  estimated_cost_usd = none;
  created_at = now;
  started_at = none;
  completed_at = none;
  pending_approval = none;
  awaiting_since = none;
  langfuse_trace_id = none;
}

abbrev pub running : Incident → ℕ → Incident
running incident now = record incident { status = "running"; started_at = some now }

-- Has the pause lasted for the SLA?
abbrev pub past : ℕ → ℕ → Option ℕ → Bool
past sla now none = false
past sla now (some since) = not (ltb (now - since) sla)

module _ {S C : Type 0} where
  -- The scenario of an incident; the foreign key promises that there is one.
  abbrev pub scenario_of : Incident → Db S C → Option Scenario
  scenario_of incident db = find (λ s. s.id == incident.scenario_id) db.scenarios

  abbrev pub find_incident : ℕ → Db S C → Option Incident
  find_incident incident_id db = find (λ i. i.id == incident_id) db.incidents

module _ {S C : Type 0} (app : App S C) where
  -- `_apply_result`, on the scenario of the incident.
  unfoldable pub apply_result :
      Scenario → Incident → InvestigationResult → Db S C → Incident × Db S C
  unfolding audited updated
  apply_result scenario incident result db =
      let incident' = updated incident result db.world.now in
      (
        incident',
        record db {
          incidents = put_incident incident' db.incidents;
          audit = audited app.process incident result db.world.now db.audit;
          memory =
              if awaits result.status
              then db.memory
              else remember app.settings app.order db.memory db.world.now scenario.service_id
                  incident.id result;
        },
      )

  -- A resume reads no memory; an investigation does.
  abbrev pub deps_for : Bool → Scenario → Incident → Db S C → NodeDeps S
  deps_for memory_enabled scenario incident db =
      build_deps app.settings app.order app.session db.memory scenario app.chat_fn none none
        (thread_id incident.id) memory_enabled

  -- The result of an investigation, with the store in which it is applied or rolled back.
  abbrev pub investigated : {A : Type 0} → (A × C × World S) → Db S C → A × Db S C
  investigated (result, c, w) db = (result, record db { checkpoints = c; world = w })

  unfoldable pub resumed :
      Scenario
      → Incident
      → Fields
      → Option String
      → Db S C
      → Result String InvestigationResult × Db S C
  resumed scenario incident decision trace db =
      investigated
        (resume_investigation app.engine (deps_for false scenario incident db) decision trace
          db.checkpoints db.world)
        db

  unfoldable pub investigate :
      Scenario → Incident → Option String → Db S C → Result String InvestigationResult × Db S C
  investigate scenario incident trace db =
      investigated
        (run_investigation app.engine (deps_for true scenario incident db) trace db.checkpoints
          db.world)
        db

  -- Is a pause since then past the SLA?
  abbrev pub overdue : Incident → ℕ → Bool
  overdue incident now =
      str_eq incident.status "awaiting_approval"
      && past app.settings.approval_sla_seconds now incident.awaiting_since

  -- A failure of the resume is swallowed: the incident stays as it is.
  abbrev pub settled_timeout :
      Scenario
      → Incident
      → Result String InvestigationResult × Db S C
      → Result String Incident × Db S C
  settled_timeout scenario incident (ok result, db) =
      let (incident', db') = apply_result scenario incident result db in (ok incident', db')
  settled_timeout scenario incident (err e, db) = (ok incident, db)

  -- The query for the scenario stands outside the `try`: without one it raises.
  abbrev pub timeout_in :
      Option Scenario → Incident → Option String → Db S C → Result String Incident × Db S C
  timeout_in none incident trace db = (err "NoResultFound", db)
  timeout_in (some scenario) incident trace db =
      settled_timeout scenario incident (resumed scenario incident timeout_decision trace db)

  -- `_maybe_apply_approval_timeout`: the incident behind it, or an exception.
  unfoldable pub maybe_apply_approval_timeout :
      Incident → Option String → Db S C → Result String Incident × Db S C
  unfolding apply_result resumed
  maybe_apply_approval_timeout incident trace db =
      if overdue incident db.world.now
      then timeout_in (scenario_of incident db) incident trace db
      else (ok incident, db)
