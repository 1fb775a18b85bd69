-- ===== src/Incidents/Presenting.antt =====
-- `_to_incident_detail` of src/opspilot/routers/incidents.py, with its response of src/opspilot/schemas.py.
use opspilot_sre_incident_re.Prelude.{ℕ, String, Option, Result}
use opspilot_sre_incident_re.Json.{Fields}
use opspilot_sre_incident_re.Models.{Scenario, Incident}
use opspilot_sre_incident_re.Agent.Tracing.{get_trace_url}

pub record IncidentDetail : Type 0 where
  pub id : ℕ
  pub scenario_key : String
  pub service_name : String
  pub status : String
  pub created_at : ℕ
  pub steps_used : Option ℕ
  pub estimated_cost_usd : Option ℕ
  pub diagnosis : Option Fields
  pub started_at : Option ℕ
  pub completed_at : Option ℕ
  pub pending_approval : Option Fields
  pub awaiting_since : Option ℕ
  pub langfuse_trace_id : Option String
  pub langfuse_trace_url : Option String

-- On the scenario of the incident.
unfoldable pub to_incident_detail :
    (String → Result String (Option String)) → Scenario → Incident → IncidentDetail
to_incident_detail resolve scenario incident = record {
  id = incident.id;
  scenario_key = scenario.key;
  service_name = scenario.service.name;
  status = incident.status;
  created_at = incident.created_at;
  steps_used = incident.steps_used;
  estimated_cost_usd = incident.estimated_cost_usd;
  diagnosis = incident.diagnosis;
  started_at = incident.started_at;
  completed_at = incident.completed_at;
  pending_approval = incident.pending_approval;
  awaiting_since = incident.awaiting_since;
  langfuse_trace_id = incident.langfuse_trace_id;
  langfuse_trace_url = get_trace_url resolve incident.langfuse_trace_id;
}
