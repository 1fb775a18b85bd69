-- ===== src/Api/Inspect.antt =====
-- src/opspilot/routers/inspect.py, with its responses of src/opspilot/schemas.py: reads of the seeded
-- environment. The orders of the queries are parameters.
use opspilot_sre_incident_re.Prelude.{ℕ, String, none, some, List, map, keep, length, ◌==◌}
use opspilot_sre_incident_re.Json.{Fields}
use opspilot_sre_incident_re.Models.{Service, Scenario}
use opspilot_sre_incident_re.Seed.Generator.{SeedTables, scenario_by_key}
use opspilot_sre_incident_re.Incidents.Applying.{Reply, refused, shown}

pub record ScenarioSummary : Type 0 where
  pub id : ℕ
  pub key : String
  pub service_id : ℕ
  pub title : String
  pub incident_started_at : ℕ

-- The ground truth is the row's.
pub record ScenarioDetail : Type 0 where
  pub id : ℕ
  pub key : String
  pub service_id : ℕ
  pub title : String
  pub description : String
  pub injected_cause : String
  pub incident_started_at : ℕ
  pub ground_truth : Fields
  pub deployment_count : ℕ
  pub metric_point_count : ℕ
  pub log_entry_count : ℕ
  pub dependency_status_count : ℕ

-- `GET /services`: `ServiceOut` has the columns of the row.
unfoldable pub list_services : (List Service → List Service) → SeedTables → List Service
list_services by_name db = by_name db.services

abbrev pub summary_of : Scenario → ScenarioSummary
summary_of s = record {
  id = s.id;
  key = s.key;
  service_id = s.service_id;
  title = s.title;
  incident_started_at = s.incident_started_at;
}

-- `GET /scenarios`
unfoldable pub list_scenarios : (List Scenario → List Scenario) → SeedTables → List ScenarioSummary
list_scenarios by_key db = map summary_of (by_key db.scenarios)

abbrev pub detail_of : Scenario → SeedTables → ScenarioDetail
detail_of s db = record {
  id = s.id;
  key = s.key;
  service_id = s.service_id;
  title = s.title;
  description = s.description;
  injected_cause = s.injected_cause;
  incident_started_at = s.incident_started_at;
  ground_truth = s.ground_truth;
  deployment_count = length (keep (λ r. r.scenario_id == s.id) db.deployments);
  metric_point_count = length (keep (λ r. r.scenario_id == s.id) db.metric_points);
  log_entry_count = length (keep (λ r. r.scenario_id == s.id) db.log_entries);
  dependency_status_count = length (keep (λ r. r.scenario_id == s.id) db.dependency_statuses);
}

-- `GET /scenarios/{key}`
unfoldable pub get_scenario : String → SeedTables → Reply ScenarioDetail
get_scenario key db = elim (scenario_by_key key db) [
  | none ↦ refused 404
  | some s ↦ shown (detail_of s db)
]
