-- ===== src/Eval.antt =====
-- src/opspilot/eval/regression.py: the comparison of two evaluation runs. Values are ten-thousandths,
-- the places that the aggregates are rounded to, so the rounding of a difference to four places
-- changes nothing. A delta is its size, with the list it stands in for its sign.
pub mod Deterministic
pub mod Judge
pub mod Aggregate
pub mod Runner
pub mod Storage
pub mod Scorecard
pub mod Comparison
pub mod CommandLine
use opspilot_sre_incident_re.Prelude.{
  ℕ, ◌+◌, ◌-◌, String, Option, some, List, [], ◌∷◌, leb, ltb, Bool, length, if◌then◌else◌,
}
use opspilot_sre_incident_re.Eval.Aggregate.{AggregateScores, EvalRun}

-- The metrics of `_HIGHER_IS_BETTER`: a name, and `getattr`.
abbrev pub Metric : Type 0
Metric = String × (AggregateScores → Option ℕ)

abbrev pub higher_is_better : List Metric
higher_is_better =
    ("completion_rate", λ a. some a.completion_rate)
    ∷ ("policy_verdict_accuracy", λ a. some a.policy_verdict_accuracy)
    ∷ ("recommended_action_exact_match_rate", λ a. some a.recommended_action_exact_match_rate)
    ∷ ("mean_tool_selection_score", λ a. some a.mean_tool_selection_score)
    ∷ ("mean_diagnosis_accuracy", λ a. a.mean_diagnosis_accuracy)
    ∷ ("mean_evidence_groundedness", λ a. a.mean_evidence_groundedness)
    ∷ ("mean_remediation_quality", λ a. a.mean_remediation_quality)
    ∷ ("escalation_correctness_rate", λ a. a.escalation_correctness_rate)
    ∷ []

pub record MetricDelta : Type 0 where
  pub metric : String
  pub baseline : ℕ
  pub candidate : ℕ
  pub delta : ℕ

pub record RegressionReport : Type 0 where
  pub baseline_label : String
  pub candidate_label : String
  pub regressions : List MetricDelta
  pub improvements : List MetricDelta
  pub unchanged : List String

-- `has_regressions`
abbrev pub has_regressions : RegressionReport → Bool
has_regressions report = ltb 0 (length report.regressions)

abbrev pub empty_report : String → String → RegressionReport
empty_report baseline candidate = record {
  baseline_label = baseline;
  candidate_label = candidate;
  regressions = [];
  improvements = [];
  unchanged = [];
}

-- The body of the loop, in front of the report on the metrics behind.
unfoldable pub add_metric : ℕ → String → Option ℕ → Option ℕ → RegressionReport → RegressionReport
add_metric threshold name (some b) (some c) report =
    if leb (c + threshold) b
    then record report {
      regressions =
          record { metric = name; baseline = b; candidate = c; delta = b - c } ∷ report.regressions;
    }
    else if leb (b + threshold) c
    then record report {
      improvements =
          record { metric = name; baseline = b; candidate = c; delta = c - b }
          ∷ report.improvements;
    }
    else record report { unchanged = name ∷ report.unchanged }
add_metric threshold name _ _ report = report

-- The loop of `compare_runs` over the metrics.
unfoldable pub compare_metrics : ℕ → EvalRun → EvalRun → List Metric → RegressionReport
compare_metrics threshold baseline candidate [] =
    empty_report baseline.run_label candidate.run_label
compare_metrics threshold baseline candidate ((name, value) ∷ metrics) =
    add_metric threshold name (value baseline.aggregate) (value candidate.aggregate)
      (compare_metrics threshold baseline candidate metrics)

unfoldable pub compare_runs : ℕ → EvalRun → EvalRun → RegressionReport
unfolding compare_metrics
compare_runs threshold baseline candidate =
    compare_metrics threshold baseline candidate higher_is_better
