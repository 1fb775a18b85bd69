-- ===== src/Examples/Handling.antt =====
-- The properties of the handlers of src/opspilot/routers/incidents.py, applied to the example.
use opspilot_sre_incident_re.Prelude.{
  ℕ, ◌≡◌, refl, String, true, false, none, some, [], ◌∷◌, ◌++◌, map, Result, ok, err,
}
use opspilot_sre_incident_re.Config.{default_settings}
use opspilot_sre_incident_re.Models.{Incident}
use opspilot_sre_incident_re.Agent.Schemas.{InvestigationResult}
use opspilot_sre_incident_re.Incidents.Applying.{
  Db, refused, ApprovalDecision, App, of_incident, evidence_entries, approval_entry, decision_entry,
  persist_new_evidence, audited, updated, awaits,
}
use opspilot_sre_incident_re.Incidents.Timeout.{resumed, apply_result, timeout_decision}
use opspilot_sre_incident_re.Incidents.{run_incident, decide_approval}
use opspilot_sre_incident_re.Incidents.Lifecycle.{run_incident-once, late_approval-refused}
use opspilot_sre_incident_re.Incidents.Timeline.{incident_started, timeline}
use opspilot_sre_incident_re.Incidents.Timeline.Rows.{
  shown_of, row_shown, ending_shown, timeline-shown,
}
use opspilot_sre_incident_re.Incidents.Trail.{audited-once}
use opspilot_sre_incident_re.Examples.{
  memory, as_stored, pause, close, outage, tables, rt, scripted, world, at_gate,
}
use opspilot_sre_incident_re.Examples.StepEngine.{Checkpoints, step_engine}
use opspilot_sre_incident_re.Agent.Graph.{
  evaluate_policy, resume_investigation, result_from_state, build_deps,
}
use opspilot_sre_incident_re.Agent.Nodes.Gate
use opspilot_sre_incident_re.Agent.Policy.{evaluate}

abbrev pub incident : Incident
incident = record {
  id = 1;
  scenario_id = 1;
  status = "open";
  diagnosis = none;
  steps_used = none;
  estimated_cost_usd = none;
  created_at = 1;
  started_at = none;
  completed_at = none;
  pending_approval = none;
  awaiting_since = none;
  langfuse_trace_id = none;
}

audited-once_example :
    of_incident 1
      (audited "p2" (updated incident pause 5) close 8 (audited "p1" incident pause 5 []))
    ≡ evidence_entries 0 1 5 pause.evidence_trail
      ++ approval_entry "p1" 1 pause 5 (persist_new_evidence 1 pause.evidence_trail 5 [])
        ∷ decision_entry "p2" 1 close 8 (audited "p1" incident pause 5 [])
        ∷ []
audited-once_example = audited-once "p1" "p2" incident pause close 5 8 [] refl refl refl refl

abbrev pub app : App ℕ Checkpoints
app = record {
  process = "p1";
  settings = default_settings;
  order = as_stored;
  rt = rt;
  engine = step_engine rt {S = ℕ};
  session = tables;
  chat_fn = scripted;
}

abbrev paused_threads : Checkpoints
paused_threads t = some (some (evaluate_policy, at_gate))

-- A store in which an incident is paused.
abbrev pub db_with : Incident → Db ℕ Checkpoints
db_with i = record {
  scenarios = outage ∷ [];
  incidents = i ∷ [];
  audit = [];
  memory = memory;
  checkpoints = paused_threads;
  world = world;
}

-- A store in which an incident is new.
abbrev pub new_db : Incident → Db ℕ Checkpoints
new_db i = record (db_with i) { checkpoints = λ t. none }

run_incident-once_example :
    run_incident app 1 none (run_incident app 1 none (db_with incident)).1
    ≡ (refused 409, (run_incident app 1 none (db_with incident)).1)
run_incident-once_example =
    run_incident-once app 1 none none incident outage (db_with incident) refl refl refl

abbrev closed_incident : Incident
closed_incident = record incident { status = "diagnosed" }

abbrev yes : ApprovalDecision
yes = record { approved = true; actor = "ana"; params = none }

-- A pause since second 1, far behind the SLA.
abbrev pub late_incident : Incident
late_incident = record incident { status = "awaiting_approval"; awaiting_since = some 1 }

abbrev pub late_db : Db ℕ Checkpoints
late_db = db_with late_incident

abbrev late_resume : Result String InvestigationResult × Db ℕ Checkpoints
late_resume = resumed app outage late_incident timeout_decision none late_db

abbrev result_or : Result String InvestigationResult → InvestigationResult
result_or (ok r) = r
result_or (err e) = pause

late_resume-ok : late_resume ≡ (ok (result_or late_resume.0), late_resume.1)
unfolding resumed resume_investigation result_from_state build_deps Gate.evaluate_policy evaluate
    Gate.decide
late_resume-ok = refl

late_resume-closes : awaits (result_or late_resume.0).status ≡ false
unfolding resumed resume_investigation result_from_state build_deps Gate.evaluate_policy evaluate
    Gate.decide
late_resume-closes = refl

late_approval-refused_example : decide_approval app 1 yes none late_db ≡ (
  refused 409,
  (apply_result app outage late_incident (result_or late_resume.0) late_resume.1).1,
)
late_approval-refused_example =
    late_approval-refused app 1 none yes late_incident outage (result_or late_resume.0) late_db
      late_resume.1 refl refl refl late_resume-ok late_resume-closes

timeline-shown_example :
    map shown_of (timeline outage closed_incident (evidence_entries 0 1 5 pause.evidence_trail))
    ≡ (incident_started, none, none, some closed_incident.created_at)
      ∷ (map row_shown (evidence_entries 0 1 5 pause.evidence_trail)
          ++ ending_shown closed_incident)
timeline-shown_example =
    timeline-shown outage closed_incident (evidence_entries 0 1 5 pause.evidence_trail)
