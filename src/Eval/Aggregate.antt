-- ===== src/Eval/Aggregate.antt =====
-- src/opspilot/eval/runner.py: the records of an evaluation and the aggregate of its scores. Means and
-- rates are ten-thousandths, the places that they are rounded to; costs are 10⁻⁸ USD.
pub mod Rates
use opspilot_sre_incident_re.Prelude.{
  ℕ, ◌+◌, ◌*◌, String, Bool, true, false, Option, none, some, List, [], ◌∷◌, map, keep, length,
  get_or, rounded,
}
use opspilot_sre_incident_re.Agent.Graph.{round_cost}
use opspilot_sre_incident_re.Eval.Deterministic.{DeterministicScores}
use opspilot_sre_incident_re.Eval.Judge.{JudgeScores, score_unit, judge_error}

pub record ScenarioEvalResult : Type 0 where
  pub scenario_key : String
  pub status : String
  pub deterministic : DeterministicScores
  pub judge : Option JudgeScores
  pub judge_error : Option String
  pub langfuse_trace_id : Option String

pub record AggregateScores : Type 0 where
  pub scenario_count : ℕ
  pub completion_rate : ℕ
  pub policy_verdict_accuracy : ℕ
  pub recommended_action_exact_match_rate : ℕ
  pub mean_tool_selection_score : ℕ
  pub total_unnecessary_tool_calls : ℕ
  pub total_argument_errors : ℕ
  pub mean_diagnosis_accuracy : Option ℕ
  pub mean_evidence_groundedness : Option ℕ
  pub mean_remediation_quality : Option ℕ
  pub escalation_correctness_rate : Option ℕ
  pub mean_steps_used : ℕ
  pub total_cost_usd : ℕ
  pub total_input_tokens : ℕ
  pub total_output_tokens : ℕ
  pub mean_latency_seconds : ℕ

pub record EvalRun : Type 0 where
  pub run_label : String
  pub started_at : ℕ
  pub scenario_keys : List String
  pub scenarios : List ScenarioEvalResult
  pub aggregate : AggregateScores

abbrev pub rate_unit : ℕ
rate_unit = 10000

abbrev pub sum : List ℕ → ℕ
sum [] = 0
sum (x ∷ xs) = x + sum xs

-- `[v for v in values if v is not None]`
abbrev pub present : {A : Type 0} → List (Option A) → List A
present [] = []
present (none ∷ values) = present values
present (some v ∷ values) = v ∷ present values

-- The mean of values in parts of so much.
abbrev pub mean_of : ℕ → List ℕ → Option ℕ
mean_of unit [] = none
mean_of unit (v ∷ values) =
    some (rounded (rate_unit * sum (v ∷ values)) (unit * length (v ∷ values)))

-- `_mean`
unfoldable pub mean : ℕ → List (Option ℕ) → Option ℕ
mean unit values = mean_of unit (present values)

-- A Boolean in a mean.
abbrev pub counted : Bool → ℕ
counted true = 1
counted false = 0

abbrev pub counted_some : Option Bool → Option ℕ
counted_some none = none
counted_some (some b) = some (counted b)

abbrev pub is_reached : ScenarioEvalResult → Bool
is_reached r = r.deterministic.reached_diagnosis

-- `round(len(reached) / n, 4) if n else 0.0`
abbrev pub completion_of : List ScenarioEvalResult → ℕ
completion_of [] = 0
completion_of (r ∷ results) =
    rounded (rate_unit * length (keep is_reached (r ∷ results))) (length (r ∷ results))

-- `_aggregate`
unfoldable pub aggregate : List ScenarioEvalResult → AggregateScores
unfolding mean
aggregate results =
    let reached = keep is_reached results in
    let judged : List JudgeScores = present (map (λ r. r.judge) results) in
    record {
      scenario_count = length results;
      completion_rate = completion_of results;
      policy_verdict_accuracy =
          get_or (mean 1 (map (λ r. counted_some r.deterministic.policy_verdict_correct) reached))
            0;
      recommended_action_exact_match_rate =
          get_or
            (mean 1
              (map (λ r. counted_some r.deterministic.recommended_action_exact_match) reached))
            0;
      mean_tool_selection_score =
          get_or (mean 1000 (map (λ r. some r.deterministic.tool_selection_score) results)) 0;
      total_unnecessary_tool_calls =
          sum (map (λ r. r.deterministic.unnecessary_tool_call_count) results);
      total_argument_errors = sum (map (λ r. r.deterministic.argument_error_count) results);
      mean_diagnosis_accuracy = mean score_unit (map (λ j. some j.diagnosis_accuracy) judged);
      mean_evidence_groundedness = mean score_unit (map (λ j. some j.evidence_groundedness) judged);
      mean_remediation_quality = mean score_unit (map (λ j. some j.remediation_quality) judged);
      escalation_correctness_rate = mean 1 (map (λ j. some (counted j.escalation_correct)) judged);
      mean_steps_used = get_or (mean 1 (map (λ r. some r.deterministic.steps_used) results)) 0;
      total_cost_usd = round_cost (sum (map (λ r. r.deterministic.estimated_cost_usd) results));
      total_input_tokens = sum (map (λ r. r.deterministic.total_input_tokens) results);
      total_output_tokens = sum (map (λ r. r.deterministic.total_output_tokens) results);
      mean_latency_seconds =
          get_or (mean 1000 (map (λ r. some r.deterministic.latency_seconds) results)) 0;
    }
