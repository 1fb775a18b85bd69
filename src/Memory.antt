-- ===== src/Memory.antt =====
-- src/opspilot/memory.py: the memory of confirmed diagnoses of a service. The table is the list of its
-- rows and the next id; the orders of the two queries are parameters.
pub mod Writing
pub mod Scoping
pub mod Consolidation
use opspilot_sre_incident_re.Prelude.{
  ℕ, ◌+◌, ◌/◌, ◌%◌, String, Bool, true, false, Option, none, some, List, [], ◌∷◌, ◌++◌, map, ltb,
  ◌==◌, if◌then◌else◌, concat, join, decimal, keep, take,
}
use opspilot_sre_incident_re.Json.{Fields, get_truthy}
use opspilot_sre_incident_re.Models.{ServiceMemory}
use opspilot_sre_incident_re.Agent.Policy.{
  PolicyVerdict, execute, require_approval, block, escalate,
}
use opspilot_sre_incident_re.Agent.Schemas
use opspilot_sre_incident_re.Agent.Schemas.{
  SubmitDiagnosisArgs, RecommendedAction, action_name, InvestigationResult,
}

pub record MemoryTable : Type 0 where
  pub rows : List ServiceMemory
  pub next_id : ℕ

-- `ORDER BY created_at DESC`, and by occurrences, confidence and time, all descending.
pub record MemoryOrder : Type 0 where
  pub newest_first : List ServiceMemory → List ServiceMemory
  pub most_relevant_first : List ServiceMemory → List ServiceMemory

abbrev pub memory_context_limit : ℕ
memory_context_limit = 3

-- `bool((result.approval_decision or {}).get("approved"))`
abbrev pub approved_in : Option Fields → Bool
approved_in none = false
approved_in (some decision) = get_truthy "approved" decision

outcome_of : Option PolicyVerdict → Option Fields → String
outcome_of (some block) decision = "blocked"
outcome_of (some execute) decision = "executed"
outcome_of (some require_approval) decision =
    if approved_in decision then "approved_and_executed" else "denied"
outcome_of _ decision = "unknown"

-- `_derive_outcome`
unfoldable pub derive_outcome : InvestigationResult → String
unfolding outcome_of
derive_outcome result = outcome_of result.policy_verdict result.approval_decision

-- The guards of `write_confirmed_memory`: is the recommendation 'escalate', and is the confidence
-- below the floor?
abbrev pub is_escalation : RecommendedAction → Bool
is_escalation Schemas.escalate = true
is_escalation _ = false

written_by :
    ℕ → Option SubmitDiagnosisArgs → (SubmitDiagnosisArgs → ServiceMemory) → Option ServiceMemory
written_by floor none row = none
written_by floor (some d) row =
    if is_escalation d.recommended_action
    then none
    else if ltb d.confidence floor
    then none
    else some (row d)

abbrev added : MemoryTable → Option ServiceMemory → MemoryTable
added table none = table
added table (some row) = record { rows = table.rows ++ row ∷ []; next_id = table.next_id + 1 }

-- The row for a diagnosis; the id is the database's, the count of occurrences its default.
memory_row : MemoryTable → ℕ → ℕ → ℕ → InvestigationResult → SubmitDiagnosisArgs → ServiceMemory
memory_row table now service_id incident_id result d = record {
  id = table.next_id;
  service_id = service_id;
  source_incident_id = incident_id;
  symptom_pattern = join "; " d.evidence;
  root_cause = d.diagnosis;
  fix_applied = action_name d.recommended_action;
  outcome = derive_outcome result;
  confidence = d.confidence;
  occurrence_count = 1;
  created_at = now;
}

-- `write_confirmed_memory`: the row that was written, if one was, and the table.
unfoldable pub write_confirmed_memory :
    ℕ → MemoryTable → ℕ → ℕ → ℕ → InvestigationResult → Option ServiceMemory × MemoryTable
unfolding written_by memory_row derive_outcome
write_confirmed_memory floor table now service_id incident_id result =
    let written =
      written_by floor result.diagnosis (memory_row table now service_id incident_id result) in
    (written, added table written)

module _ (order : MemoryOrder) where
  unfoldable pub list_service_memory : MemoryTable → ℕ → List ServiceMemory
  list_service_memory table service_id =
      order.newest_first (keep (λ r. r.service_id == service_id) table.rows)

  unfoldable pub retrieve_relevant_memory : MemoryTable → ℕ → ℕ → List ServiceMemory
  retrieve_relevant_memory table service_id limit =
      take limit (order.most_relevant_first (keep (λ r. r.service_id == service_id) table.rows))

-- A confidence with two digits behind the point.
two_digits : ℕ → String
two_digits c =
    let hundredths = (c + 5000) / 10000 in
    concat (
      decimal (hundredths / 100)
      ∷ "."
      ∷ decimal (hundredths / 10 % 10)
      ∷ decimal (hundredths % 10)
      ∷ [])

memory_line : ServiceMemory → String
unfolding two_digits
memory_line row = concat (
    "- Symptom pattern: "
    ∷ row.symptom_pattern
    ∷ "\n  Root cause: "
    ∷ row.root_cause
    ∷ "\n  Fix applied: "
    ∷ row.fix_applied
    ∷ " (outcome: "
    ∷ row.outcome
    ∷ ")\n  Confirmed "
    ∷ decimal row.occurrence_count
    ∷ "x, confidence "
    ∷ two_digits row.confidence
    ∷ [])

unfoldable pub format_memory_for_prompt : List ServiceMemory → String
unfolding memory_line
format_memory_for_prompt [] = ""
format_memory_for_prompt (row ∷ rows) = join "\n" (
    concat (
      "Prior related incidents for this service (advisory only, from past "
      ∷ "confirmed diagnoses — NOT current evidence). These may suggest a "
      ∷ "hypothesis worth checking first, but if what you actually observe "
      ∷ "in this incident's metrics, logs, deployments, or dependency "
      ∷ "status contradicts one of these, trust the current evidence, not " ∷ "this list:" ∷ [])
    ∷ map memory_line (row ∷ rows))
