-- ===== src/Agent/Schemas.antt =====
-- src/opspilot/agent/schemas.py: the structured diagnosis, one row of the evidence trail, and the
-- result of an investigation. Pydantic's parsing is a parameter of the code that calls it.
-- Confidences are millionths.
use opspilot_sre_incident_re.Prelude.{ℕ, String, Bool, Option, List}
use opspilot_sre_incident_re.Json.{Json, Fields}
use opspilot_sre_incident_re.Agent.Policy.{PolicyVerdict}

-- `RecommendedAction`
pub data RecommendedAction : Type 0 where
  rollback_deployment restart_service scale_service toggle_feature_flag : RecommendedAction
  escalate no_action delete_data : RecommendedAction

-- The literal that a recommended action is.
abbrev pub action_name : RecommendedAction → String
action_name rollback_deployment = "rollback_deployment"
action_name restart_service = "restart_service"
action_name scale_service = "scale_service"
action_name toggle_feature_flag = "toggle_feature_flag"
action_name escalate = "escalate"
action_name no_action = "no_action"
action_name delete_data = "delete_data"

pub record SubmitDiagnosisArgs : Type 0 where
  pub diagnosis : String
  pub evidence : List String
  pub confidence : ℕ
  pub recommended_action : RecommendedAction

abbrev pub confidence_unit : ℕ
confidence_unit = 1000000

pub record ToolCallRecord : Type 0 where
  pub step : ℕ
  pub tool_name : String
  pub arguments : Fields
  pub result : Option Json
  pub error : Option String

-- The statuses that an investigation can end or pause with.
pub data Status : Type 0 where
  diagnosed awaiting_approval : Status
  incomplete_step_ceiling incomplete_cost_ceiling incomplete_provider_error : Status

-- The literal that a status is.
abbrev pub status_name : Status → String
status_name diagnosed = "diagnosed"
status_name awaiting_approval = "awaiting_approval"
status_name incomplete_step_ceiling = "incomplete_step_ceiling"
status_name incomplete_cost_ceiling = "incomplete_cost_ceiling"
status_name incomplete_provider_error = "incomplete_provider_error"

pub record InvestigationResult : Type 0 where
  pub scenario_key : String
  pub status : Status
  pub diagnosis : Option SubmitDiagnosisArgs
  pub evidence_trail : List ToolCallRecord
  pub steps_used : ℕ
  pub estimated_cost_usd : ℕ
  pub total_input_tokens : ℕ
  pub total_output_tokens : ℕ
  pub evidence_grounded : Option Bool
  pub ungrounded_evidence : List String
  pub risk_tier : Option String
  pub policy_verdict : Option PolicyVerdict
  pub remediation_result : Option Fields
  pub pending_approval : Option Fields
  pub approval_decision : Option Fields
  pub langfuse_trace_id : Option String
