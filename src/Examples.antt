-- ===== src/Examples.antt =====
-- One incident of src/opspilot worked through: the data for the examples, with a scripted model, and
-- the validators and orders of the libraries as concrete functions.
pub mod StepEngine
pub mod Agents
pub mod Runs
pub mod Services
pub mod Handling
pub mod Settled
pub mod Evaluated
pub mod Command
pub mod Numbers
use opspilot_sre_incident_re.Prelude.{
  ℕ, zero, suc, String, true, false, none, some, [], ◌∷◌, Result, ok, err, decimal, ◌+◌,
}
use opspilot_sre_incident_re.Json.{Json, Fields, obj, text, bool, end, field}
use opspilot_sre_incident_re.Models.{ServiceMemory, Service, Scenario, MetricPoint, LogEntry}
use opspilot_sre_incident_re.Memory.{MemoryTable, MemoryOrder}
use opspilot_sre_incident_re.Agent.Schemas.{
  InvestigationResult, ToolCallRecord, diagnosed, awaiting_approval, SubmitDiagnosisArgs,
  rollback_deployment, restart_service,
}
use opspilot_sre_incident_re.Agent.Client.{
  ChatRequest, tool_use_block, Attempt, response, transient,
}
use opspilot_sre_incident_re.Agent.Tools.{Tool, metrics_args, Environment, Reader}
use opspilot_sre_incident_re.Agent.State.{GraphState, initial_state, Runtime, NodeDeps, World}

abbrev pub checkout : Service
checkout = record { id = 1; name = "checkout-api"; description = "Checkout." }

abbrev pub outage : Scenario
outage = record {
  id = 1;
  key = "checkout-deploy-outage";
  service_id = 1;
  title = "Checkout errors";
  description = "Errors after the deploy.";
  injected_cause = "A small pool.";
  incident_started_at = 100000;
  ground_truth = end;
  service = checkout;
}

abbrev pub point : MetricPoint
point = record {
  id = 1;
  scenario_id = 1;
  service_id = 1;
  metric_name = "error_rate";
  timestamp = 99900;
  value = 180;
}

abbrev pub log_entry : LogEntry
log_entry = record {
  id = 1;
  scenario_id = 1;
  service_id = 1;
  timestamp = 99950;
  level = "ERROR";
  message = "connection pool exhausted";
}

abbrev pub tables : Environment
tables = record {
  metric_points = point ∷ [];
  log_entries = log_entry ∷ [];
  deployments = [];
  dependency_statuses = [];
  runbooks = [];
}

abbrev pub identity_reader : Reader
identity_reader = record {
  metrics_by_time = λ rows. rows;
  logs_by_time = λ rows. rows;
  deployments_by_time = λ rows. rows;
  dependencies_by_name = λ rows. rows;
  isoformat = decimal;
}

abbrev pub bad_deploy : SubmitDiagnosisArgs
bad_deploy = record {
  diagnosis = "The deploy shrank the connection pool.";
  evidence = "metrics:error_rate" ∷ [];
  confidence = 900000;
  recommended_action = rollback_deployment;
}

abbrev pub stuck_worker : SubmitDiagnosisArgs
stuck_worker = record bad_deploy { recommended_action = restart_service }

abbrev of_object : {A : Type 0} → A → Json → Result String A
of_object a (obj (field k v d)) = ok a
of_object a _ = err "not an object"

abbrev pub rt : Runtime
rt = record {
  validate_diagnosis = of_object bad_deploy;
  validate_tool = λ tool json. ok (metrics_args none 60);
  validate_rollback = of_object (record { target_version = "v2.7" });
  validate_toggle = of_object (record { flag_name = "new-cart"; enabled = false });
  sha256 = λ s. s;
  reader = identity_reader;
  tool_definitions = [];
  anthropic_model = "claude-sonnet-5";
  max_retries = 2;
  backoff = 1;
}

-- A model that fails once, looks at the metrics, and submits; its state counts the calls.
abbrev scripted_reply : ℕ → Attempt
scripted_reply zero = transient "overloaded"
scripted_reply (suc zero) = response (record {
  content = tool_use_block "t1" "get_metrics" end ∷ [];
  stop_reason = "tool_use";
  input_tokens = 100;
  output_tokens = 10;
})
scripted_reply _ = response (record {
  content = tool_use_block "t2" "submit_diagnosis" (field "diagnosis" (text "pool") end) ∷ [];
  stop_reason = "tool_use";
  input_tokens = 200;
  output_tokens = 20;
})

abbrev pub scripted : ChatRequest → ℕ → Attempt × ℕ
scripted request n = (scripted_reply n, n + 1)

abbrev pub deps : NodeDeps ℕ
deps = record {
  session = tables;
  scenario = outage;
  chat_fn = scripted;
  max_steps = 8;
  max_cost_usd = 20000000;
  thread_id = "incident-1";
  memory_context = "";
}

abbrev pub world : World ℕ
world = record { provider = 0; executions = []; now = 100060 }

abbrev pub approval : Fields
approval = field "approved" (bool true) (
    field "actor" (text "ana")
      (field "params" (obj (field "target_version" (text "v2.7") end)) end))

abbrev pub at_gate : GraphState
at_gate = record initial_state { diagnosis = some bad_deploy }

abbrev pub remembered : ServiceMemory
remembered = record {
  id = 1;
  service_id = 1;
  source_incident_id = 1;
  symptom_pattern = "errors";
  root_cause = "pool";
  fix_applied = "rollback_deployment";
  outcome = "approved_and_executed";
  confidence = 900000;
  occurrence_count = 1;
  created_at = 5;
}

abbrev pub memory : MemoryTable
memory = record {
  rows = remembered ∷ record remembered { id = 2; occurrence_count = 3 } ∷ [];
  next_id = 3;
}

abbrev pub as_stored : MemoryOrder
as_stored = record { newest_first = λ rows. rows; most_relevant_first = λ rows. rows }

abbrev pub looked : ToolCallRecord
looked = record {
  step = 1;
  tool_name = "get_metrics";
  arguments = end;
  result = none;
  error = some "down";
}

abbrev pub pause : InvestigationResult
pause = record {
  scenario_key = "checkout-deploy-outage";
  status = awaiting_approval;
  diagnosis = some bad_deploy;
  evidence_trail = looked ∷ [];
  steps_used = 2;
  estimated_cost_usd = 100;
  total_input_tokens = 300;
  total_output_tokens = 30;
  evidence_grounded = none;
  ungrounded_evidence = [];
  risk_tier = none;
  policy_verdict = none;
  remediation_result = none;
  pending_approval = some end;
  approval_decision = none;
  langfuse_trace_id = none;
}

abbrev pub close : InvestigationResult
close = record pause { status = diagnosed; approval_decision = some approval }
