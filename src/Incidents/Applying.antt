-- ===== src/Incidents/Applying.antt =====
-- `_persist_new_evidence` and `_apply_result` of src/opspilot/routers/incidents.py, on the rows they
-- write, and what the handlers are given.
use opspilot_sre_incident_re.Prelude.{
  ℕ, ◌+◌, String, Bool, true, false, Option, none, some, List, [], ◌∷◌, ◌++◌, ◌==◌, str_eq,
  if◌then◌else◌, keep, drop, length, concat, decimal, is_none, get_or,
}
use opspilot_sre_incident_re.Json.{Json, Fields, text, obj, end, put}
use opspilot_sre_incident_re.Models.{Scenario, Incident, AuditLogEntry}
use opspilot_sre_incident_re.Config.{Settings}
use opspilot_sre_incident_re.Memory.{MemoryOrder, MemoryTable, write_confirmed_memory}
use opspilot_sre_incident_re.Memory.Consolidation.{consolidate_service_memory}
use opspilot_sre_incident_re.Agent.Client.{ChatFn}
use opspilot_sre_incident_re.Agent.Schemas.{
  SubmitDiagnosisArgs, ToolCallRecord, Status, awaiting_approval, InvestigationResult, status_name,
}
use opspilot_sre_incident_re.Agent.Nodes.Gather.{dump_diagnosis}
use opspilot_sre_incident_re.Agent.Tools.{Environment}
use opspilot_sre_incident_re.Agent.State.{Runtime, World}
use opspilot_sre_incident_re.Agent.Graph.{Engine}

-- The tables the handlers read and write, the checkpoints, and what lies outside the database.
pub record Db (S C : Type 0) : Type 0 where
  pub scenarios : List Scenario
  pub incidents : List Incident
  pub audit : List AuditLogEntry
  pub memory : MemoryTable
  pub checkpoints : C
  pub world : World S

-- What a request comes to: a status code that refuses it, an unhandled exception, or a result.
pub data Reply (A : Type 0) : Type 0 where
  refused : ℕ → Reply A
  broken : String → Reply A
  shown : A → Reply A

pub record ApprovalDecision : Type 0 where
  pub approved : Bool
  pub actor : String
  pub params : Option Fields

-- `_thread_id`
abbrev pub thread_id : ℕ → String
thread_id incident_id = concat ("incident-" ∷ decimal incident_id ∷ [])

-- `result.diagnosis.model_dump() if result.diagnosis else None`
abbrev pub dump_optional : Option SubmitDiagnosisArgs → Option Fields
dump_optional none = none
dump_optional (some d) = some (dump_diagnosis d)

abbrev pub fields_json : Option Fields → Option Json
fields_json none = none
fields_json (some d) = some (obj d)

-- `{**(d or {}), "process_instance_id": ...}`
abbrev pub stamped : String → Option Fields → Fields
stamped process d = put "process_instance_id" (text process) (get_or d end)

abbrev pub evidence_entry : ℕ → ℕ → ℕ → ToolCallRecord → AuditLogEntry
evidence_entry id incident_id now r = record {
  id = id;
  incident_id = incident_id;
  step = r.step;
  tool_name = r.tool_name;
  arguments = r.arguments;
  result = r.result;
  error = r.error;
  created_at = now;
}

-- The rows of one incident.
abbrev pub of_incident : ℕ → List AuditLogEntry → List AuditLogEntry
of_incident id rows = keep (λ r. r.incident_id == id) rows

-- The entries, numbered behind the table.
abbrev pub evidence_entries : ℕ → ℕ → ℕ → List ToolCallRecord → List AuditLogEntry
evidence_entries next incident_id now [] = []
evidence_entries next incident_id now (r ∷ trail) =
    evidence_entry next incident_id now r ∷ evidence_entries (next + 1) incident_id now trail

-- `_persist_new_evidence`, on the audit table; nothing is ever deleted from it.
unfoldable pub persist_new_evidence :
    ℕ → List ToolCallRecord → ℕ → List AuditLogEntry → List AuditLogEntry
persist_new_evidence incident_id trail now rows =
    rows
    ++ evidence_entries (length rows) incident_id now
        (drop (length (of_incident incident_id rows)) trail)

abbrev pub approval_entry :
    String → ℕ → InvestigationResult → ℕ → List AuditLogEntry → AuditLogEntry
approval_entry process incident_id result now rows = record {
  id = length rows;
  incident_id = incident_id;
  step = result.steps_used;
  tool_name = "approval_requested";
  arguments = stamped process result.pending_approval;
  result = none;
  error = none;
  created_at = now;
}

abbrev pub decision_entry :
    String → ℕ → InvestigationResult → ℕ → List AuditLogEntry → AuditLogEntry
decision_entry process incident_id result now rows = record {
  id = length rows;
  incident_id = incident_id;
  step = result.steps_used;
  tool_name = "approval_decision";
  arguments = stamped process result.approval_decision;
  result = fields_json result.remediation_result;
  error = none;
  created_at = now;
}

abbrev pub awaits : Status → Bool
awaits awaiting_approval = true
awaits _ = false

abbrev pub put_incident : Incident → List Incident → List Incident
put_incident i [] = []
put_incident i (j ∷ rest) = if j.id == i.id then i ∷ rest else j ∷ put_incident i rest

abbrev pub remember :
    Settings → MemoryOrder → MemoryTable → ℕ → ℕ → ℕ → InvestigationResult → MemoryTable
remember settings order memory now service_id incident_id result =
    let (written, table) =
      write_confirmed_memory settings.memory_write_min_confidence memory now service_id incident_id
        result in
    if is_none written then table else (consolidate_service_memory order table service_id).1

-- The audit table behind `_apply_result`.
unfoldable pub audited :
    String → Incident → InvestigationResult → ℕ → List AuditLogEntry → List AuditLogEntry
unfolding persist_new_evidence
audited process incident result now rows =
    let rows' = persist_new_evidence incident.id result.evidence_trail now rows in
    if awaits result.status
    then rows' ++ approval_entry process incident.id result now rows' ∷ []
    else if str_eq incident.status "awaiting_approval"
    then rows' ++ decision_entry process incident.id result now rows' ∷ []
    else rows'

-- The incident behind `_apply_result`.
unfoldable pub updated : Incident → InvestigationResult → ℕ → Incident
updated incident result now =
    if awaits result.status
    then record incident {
      status = "awaiting_approval";
      pending_approval = result.pending_approval;
      awaiting_since = some now;
      steps_used = some result.steps_used;
      estimated_cost_usd = some result.estimated_cost_usd;
      langfuse_trace_id = result.langfuse_trace_id;
    }
    else record incident {
      status = status_name result.status;
      diagnosis = dump_optional result.diagnosis;
      steps_used = some result.steps_used;
      estimated_cost_usd = some result.estimated_cost_usd;
      completed_at = some now;
      pending_approval = none;
      awaiting_since = none;
      langfuse_trace_id = result.langfuse_trace_id;
    }

-- What the handlers are given: the process, the settings, and the libraries.
pub record App (S C : Type 0) : Type 0 where
  pub process : String
  pub settings : Settings
  pub order : MemoryOrder
  pub rt : Runtime
  pub engine : Engine S C
  pub session : Environment
  pub chat_fn : ChatFn S
