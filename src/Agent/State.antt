-- ===== src/Agent/State.antt =====
-- src/opspilot/agent/state.py: the state of the graph, the partial update that a node returns, and
-- what the nodes close over. `merge` reads the annotations: messages and evidence are appended,
-- every other key is overwritten if the update has it. Pydantic's validators, `sha256`, the orders
-- of the queries and the settings are the fields of `Runtime`.
use opspilot_sre_incident_re.Prelude.{
  ℕ, String, Bool, Option, none, List, [], ◌∷◌, ◌++◌, Result, get_or,
}
use opspilot_sre_incident_re.Json.{Json, Fields, text, end, field, obj}
use opspilot_sre_incident_re.Models.{Scenario}
use opspilot_sre_incident_re.Agent.Policy.{PolicyVerdict}
use opspilot_sre_incident_re.Agent.Schemas.{SubmitDiagnosisArgs, ToolCallRecord, Status}
use opspilot_sre_incident_re.Agent.Client.{ChatFn}
use opspilot_sre_incident_re.Agent.Remediation.{RollbackDeploymentArgs, ToggleFeatureFlagArgs}
use opspilot_sre_incident_re.Agent.Idempotency.{RemediationExecution}
use opspilot_sre_incident_re.Agent.Tools.{Tool, ToolArgs, Reader, Environment}

pub record GraphState : Type 0 where
  pub messages : List Json
  pub evidence_trail : List ToolCallRecord
  pub steps_used : ℕ
  pub estimated_cost_usd : ℕ
  pub total_input_tokens : ℕ
  pub total_output_tokens : ℕ
  pub diagnosis : Option SubmitDiagnosisArgs
  pub evidence_grounded : Option Bool
  pub ungrounded_evidence : List String
  pub risk_tier : Option String
  pub policy_verdict : Option PolicyVerdict
  pub remediation_result : Option Fields
  pub approval_decision : Option Fields
  pub provider_error : Option String
  pub status : Option Status

abbrev pub user_message : String → Json
user_message s = obj (field "role" (text "user") (field "content" (text s) end))

abbrev pub initial_state : GraphState
initial_state = record {
  messages = user_message "Investigate this incident and submit your diagnosis." ∷ [];
  evidence_trail = [];
  steps_used = 0;
  estimated_cost_usd = 0;
  total_input_tokens = 0;
  total_output_tokens = 0;
  diagnosis = none;
  evidence_grounded = none;
  ungrounded_evidence = [];
  risk_tier = none;
  policy_verdict = none;
  remediation_result = none;
  approval_decision = none;
  provider_error = none;
  status = none;
}

-- A node's returned dict: an absent key is `none`, and no appended items.
pub record Update : Type 0 where
  pub messages : List Json
  pub evidence_trail : List ToolCallRecord
  pub steps_used : Option ℕ
  pub estimated_cost_usd : Option ℕ
  pub total_input_tokens : Option ℕ
  pub total_output_tokens : Option ℕ
  pub diagnosis : Option (Option SubmitDiagnosisArgs)
  pub evidence_grounded : Option (Option Bool)
  pub ungrounded_evidence : Option (List String)
  pub risk_tier : Option (Option String)
  pub policy_verdict : Option (Option PolicyVerdict)
  pub remediation_result : Option (Option Fields)
  pub approval_decision : Option (Option Fields)
  pub provider_error : Option (Option String)
  pub status : Option (Option Status)

abbrev pub no_update : Update
no_update = record {
  messages = [];
  evidence_trail = [];
  steps_used = none;
  estimated_cost_usd = none;
  total_input_tokens = none;
  total_output_tokens = none;
  diagnosis = none;
  evidence_grounded = none;
  ungrounded_evidence = none;
  risk_tier = none;
  policy_verdict = none;
  remediation_result = none;
  approval_decision = none;
  provider_error = none;
  status = none;
}

abbrev pub merge : GraphState → Update → GraphState
merge s u = record {
  messages = s.messages ++ u.messages;
  evidence_trail = s.evidence_trail ++ u.evidence_trail;
  steps_used = get_or u.steps_used s.steps_used;
  estimated_cost_usd = get_or u.estimated_cost_usd s.estimated_cost_usd;
  total_input_tokens = get_or u.total_input_tokens s.total_input_tokens;
  total_output_tokens = get_or u.total_output_tokens s.total_output_tokens;
  diagnosis = get_or u.diagnosis s.diagnosis;
  evidence_grounded = get_or u.evidence_grounded s.evidence_grounded;
  ungrounded_evidence = get_or u.ungrounded_evidence s.ungrounded_evidence;
  risk_tier = get_or u.risk_tier s.risk_tier;
  policy_verdict = get_or u.policy_verdict s.policy_verdict;
  remediation_result = get_or u.remediation_result s.remediation_result;
  approval_decision = get_or u.approval_decision s.approval_decision;
  provider_error = get_or u.provider_error s.provider_error;
  status = get_or u.status s.status;
}

-- What the program takes from its libraries and its settings.
pub record Runtime : Type 0 where
  pub validate_diagnosis : Json → Result String SubmitDiagnosisArgs
  pub validate_tool : Tool → Json → Result String ToolArgs
  pub validate_rollback : Json → Result String RollbackDeploymentArgs
  pub validate_toggle : Json → Result String ToggleFeatureFlagArgs
  pub sha256 : String → String
  pub reader : Reader
  pub tool_definitions : List Json
  pub anthropic_model : String
  pub max_retries : ℕ
  pub backoff : ℕ

pub record NodeDeps (S : Type 0) : Type 0 where
  pub session : Environment
  pub scenario : Scenario
  pub chat_fn : ChatFn S
  pub max_steps : ℕ
  pub max_cost_usd : ℕ
  pub thread_id : String
  pub memory_context : String

-- What the nodes act on outside the state: the provider, and the committed table of executions.
pub record World (S : Type 0) : Type 0 where
  pub provider : S
  pub executions : List RemediationExecution
  pub now : ℕ
