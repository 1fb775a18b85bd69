-- ===== src/Models.antt =====
-- src/opspilot/models.py: the rows of the database. A table is the list of its rows. Times are whole
-- seconds, and measured values, costs and confidences are whole numbers of their unit (thousandths
-- of a metric, 10⁻⁸ USD, millionths). `ORDER BY` is a parameter of the reads that use it.
use opspilot_sre_incident_re.Prelude.{ℕ, String, Option}
use opspilot_sre_incident_re.Json.{Json, Fields}

pub record Service : Type 0 where
  pub id : ℕ
  pub name : String
  pub description : String

-- `service` is the row that the relationship follows `service_id` to.
pub record Scenario : Type 0 where
  pub id : ℕ
  pub key : String
  pub service_id : ℕ
  pub title : String
  pub description : String
  pub injected_cause : String
  pub incident_started_at : ℕ
  pub ground_truth : Fields
  pub service : Service

pub record Deployment : Type 0 where
  pub id : ℕ
  pub scenario_id : ℕ
  pub service_id : ℕ
  pub version : String
  pub deployed_at : ℕ
  pub diff_summary : String

pub record MetricPoint : Type 0 where
  pub id : ℕ
  pub scenario_id : ℕ
  pub service_id : ℕ
  pub metric_name : String
  pub timestamp : ℕ
  pub value : ℕ

pub record LogEntry : Type 0 where
  pub id : ℕ
  pub scenario_id : ℕ
  pub service_id : ℕ
  pub timestamp : ℕ
  pub level : String
  pub message : String

pub record DependencyStatus : Type 0 where
  pub id : ℕ
  pub scenario_id : ℕ
  pub dependency_name : String
  pub status : String
  pub checked_at : ℕ

pub record Runbook : Type 0 where
  pub id : ℕ
  pub service_id : ℕ
  pub symptom_keyword : String
  pub content : String

-- The status column is free text in the database; these are the values the program writes.
pub record Incident : Type 0 where
  pub id : ℕ
  pub scenario_id : ℕ
  pub status : String
  pub diagnosis : Option Fields
  pub steps_used : Option ℕ
  pub estimated_cost_usd : Option ℕ
  pub created_at : ℕ
  pub started_at : Option ℕ
  pub completed_at : Option ℕ
  pub pending_approval : Option Fields
  pub awaiting_since : Option ℕ
  pub langfuse_trace_id : Option String

pub record ServiceMemory : Type 0 where
  pub id : ℕ
  pub service_id : ℕ
  pub source_incident_id : ℕ
  pub symptom_pattern : String
  pub root_cause : String
  pub fix_applied : String
  pub outcome : String
  pub confidence : ℕ
  pub occurrence_count : ℕ
  pub created_at : ℕ

pub record AuditLogEntry : Type 0 where
  pub id : ℕ
  pub incident_id : ℕ
  pub step : ℕ
  pub tool_name : String
  pub arguments : Fields
  pub result : Option Json
  pub error : Option String
  pub created_at : ℕ
