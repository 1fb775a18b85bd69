-- ===== src/Eval/Deterministic.antt =====
-- src/opspilot/eval/deterministic.py: the checks of an investigation against the ground truth that
-- code can score. A fraction is in thousandths, and latencies come in microseconds and are kept in
-- milliseconds. A set of names is a list that holds each once.
use opspilot_sre_incident_re.Prelude.{
  ℕ, ◌*◌, String, Bool, true, false, not, Option, none, some, List, [], ◌∷◌, ◌==◌, str_eq,
  if◌then◌else◌, keep, any, length, is_some, lookup, rounded,
}
use Prim.Native.Char.{code}
use opspilot_sre_incident_re.Agent.Policy.{verdict_name}
use opspilot_sre_incident_re.Agent.Schemas.{
  SubmitDiagnosisArgs, ToolCallRecord, Status, diagnosed, awaiting_approval, InvestigationResult,
  action_name,
}
use opspilot_sre_incident_re.Seed.Spec.{ScenarioSpec}

-- `_EVIDENCE_CATEGORY_TOOL`
abbrev pub evidence_category_tool : List (String × String)
evidence_category_tool =
    ("deployment", "get_recent_deployments")
    ∷ ("metrics", "get_metrics")
    ∷ ("logs", "get_logs")
    ∷ ("dependency_status", "get_dependency_status")
    ∷ ("runbook", "get_runbook")
    ∷ []

pub record DeterministicScores : Type 0 where
  pub reached_diagnosis : Bool
  pub policy_verdict_correct : Option Bool
  pub recommended_action_exact_match : Option Bool
  pub evidence_grounded_heuristic : Option Bool
  pub tool_selection_score : ℕ
  pub unnecessary_tool_call_count : ℕ
  pub argument_error_count : ℕ
  pub steps_used : ℕ
  pub estimated_cost_usd : ℕ
  pub total_input_tokens : ℕ
  pub total_output_tokens : ℕ
  pub latency_seconds : ℕ

-- `_effective_policy_verdict`
unfoldable pub effective_policy_verdict : InvestigationResult → Option String
effective_policy_verdict result = elim result.status [
  | diagnosed ↦ (elim result.policy_verdict [ none ↦ none | some v ↦ some (verdict_name v) ])
  | awaiting_approval ↦ some "REQUIRE_APPROVAL"
  | _ ↦ none
]

-- Did the investigation end, or pause, with a diagnosis?
abbrev pub reached : Status → Bool
reached diagnosed = true
reached awaiting_approval = true
reached _ = false

-- `evidence.split(":", 1)[0]`
abbrev pub category : String → String
category String.[] = ""
category (String.◌∷◌ c s) = let rest = category s in if code c == 58 then "" else String.◌∷◌ c rest

abbrev pub member : String → List String → Bool
member x xs = any (λ y. str_eq x y) xs

-- A name put into a set.
abbrev pub insert : String → List String → List String
insert x xs = if member x xs then xs else x ∷ xs

abbrev pub insert_some : Option String → List String → List String
insert_some none xs = xs
insert_some (some x) xs = insert x xs

-- The tools that the expected evidence needs.
unfoldable pub expected_tools : List String → List String
expected_tools [] = []
expected_tools (evidence ∷ more) =
    insert_some (lookup (category evidence) evidence_category_tool) (expected_tools more)

-- The tools that were called, of the trail.
unfoldable pub called_tools : List ToolCallRecord → List String
called_tools [] = []
called_tools (r ∷ trail) =
    let rest = called_tools trail in
    if str_eq r.tool_name "submit_diagnosis" then rest else insert r.tool_name rest

-- `round(len(expected & called) / len(expected), 3) if expected else 1.0`
unfoldable pub selection_score : List String → List String → ℕ
selection_score [] called = 1000
selection_score (x ∷ expected) called =
    rounded (1000 * length (keep (λ t. member t called) (x ∷ expected))) (length (x ∷ expected))

abbrev pub matches_text : Option String → String → Bool
matches_text none s = false
matches_text (some t) s = str_eq t s

abbrev pub action_match : Option SubmitDiagnosisArgs → String → Option Bool
action_match none expected = none
action_match (some d) expected = some (str_eq (action_name d.recommended_action) expected)

unfoldable pub score_deterministic : ScenarioSpec → InvestigationResult → ℕ → DeterministicScores
unfolding effective_policy_verdict
score_deterministic scenario result latency =
    let expected = expected_tools scenario.ground_truth.expected_evidence in
    let called = called_tools result.evidence_trail in
    record {
      reached_diagnosis = reached result.status;
      policy_verdict_correct =
          if reached result.status
          then some (
              matches_text (effective_policy_verdict result)
                scenario.ground_truth.expected_policy_verdict)
          else none;
      recommended_action_exact_match =
          if reached result.status
          then action_match result.diagnosis scenario.ground_truth.expected_action
          else none;
      evidence_grounded_heuristic = result.evidence_grounded;
      tool_selection_score = selection_score expected called;
      unnecessary_tool_call_count = length (keep (λ t. not (member t expected)) called);
      argument_error_count = length (keep (λ r. is_some r.error) result.evidence_trail);
      steps_used = result.steps_used;
      estimated_cost_usd = result.estimated_cost_usd;
      total_input_tokens = result.total_input_tokens;
      total_output_tokens = result.total_output_tokens;
      latency_seconds = rounded latency 1000;
    }
