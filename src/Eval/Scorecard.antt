-- ===== src/Eval/Scorecard.antt =====
-- src/opspilot/eval/scorecard.py, and `format_regression_report` of src/opspilot/eval/regression.py.
use opspilot_sre_incident_re.Prelude.{
  ℕ, String, false, ◌&&◌, Option, none, some, List, [], ◌∷◌, ◌++◌, map, if◌then◌else◌, concat, join,
  decimal, rounded, get_or, fixed, padded,
}
use opspilot_sre_incident_re.Eval.Judge.{JudgeScores}
use opspilot_sre_incident_re.Eval.Aggregate.{ScenarioEvalResult, AggregateScores, EvalRun}
use opspilot_sre_incident_re.Eval.{MetricDelta, RegressionReport}

-- `f"{v:.0%}"`, of ten-thousandths.
abbrev percent : ℕ → String
percent n = concat (decimal (rounded n 100) ∷ "%" ∷ [])

-- `f"{v:.2f}"`, of ten-thousandths.
abbrev hundredths : ℕ → String
hundredths n = fixed 2 (rounded n 100)

-- The lines of the judge's means; the other means are there if the first is.
abbrev judge_lines : AggregateScores → Option ℕ → List String
judge_lines a none =
    "Judge scores:                   (none — run without --no-judge to enable)" ∷ []
judge_lines a (some accuracy) =
    concat ("Diagnosis accuracy (judge):     " ∷ hundredths accuracy ∷ [])
    ∷ concat (
        "Evidence groundedness (judge):  "
        ∷ hundredths (get_or a.mean_evidence_groundedness 0)
        ∷ [])
    ∷ concat
        ("Remediation quality (judge):    " ∷ hundredths (get_or a.mean_remediation_quality 0) ∷ [])
    ∷ concat
        ("Escalation correctness (judge): " ∷ percent (get_or a.escalation_correctness_rate 0) ∷ [])
    ∷ []

abbrev judge_bit : Option JudgeScores → String
judge_bit none = ""
judge_bit (some j) = concat (" judge_diag=" ∷ fixed 2 (rounded j.diagnosis_accuracy 10000) ∷ [])

abbrev scenario_line : ScenarioEvalResult → String
scenario_line r = concat (
    "  ["
    ∷ (if r.deterministic.reached_diagnosis && get_or r.deterministic.policy_verdict_correct false
        then "OK"
        else "!!")
    ∷ "] "
    ∷ padded 45 r.scenario_key
    ∷ " status="
    ∷ padded 20 r.status
    ∷ judge_bit r.judge
    ∷ [])

unfoldable pub format_scorecard : EvalRun → String
format_scorecard run =
    let a = run.aggregate in
    join "\n" (
      (concat (
          "=== OpsPilot Eval: "
          ∷ run.run_label
          ∷ " ("
          ∷ decimal a.scenario_count
          ∷ " scenarios) ==="
          ∷ [])
        ∷ concat ("Completion rate:                " ∷ percent a.completion_rate ∷ [])
        ∷ concat ("Policy verdict accuracy:        " ∷ percent a.policy_verdict_accuracy ∷ [])
        ∷ concat (
            "Recommended-action exact match: " ∷ percent a.recommended_action_exact_match_rate ∷ [])
        ∷ concat ("Tool selection score (mean):    " ∷ hundredths a.mean_tool_selection_score ∷ [])
        ∷ concat ("Unnecessary tool calls (total): " ∷ decimal a.total_unnecessary_tool_calls ∷ [])
        ∷ concat ("Argument errors (total):        " ∷ decimal a.total_argument_errors ∷ [])
        ∷ [])
      ++ judge_lines a a.mean_diagnosis_accuracy
      ++ (concat
            ("Mean steps used:                " ∷ fixed 1 (rounded a.mean_steps_used 1000) ∷ [])
          ∷ concat
              ("Total cost (USD):               $" ∷ fixed 4 (rounded a.total_cost_usd 10000) ∷ [])
          ∷ concat (
              "Total tokens (in/out):          "
              ∷ decimal a.total_input_tokens
              ∷ "/"
              ∷ decimal a.total_output_tokens
              ∷ [])
          ∷ concat ("Mean latency (s):               " ∷ hundredths a.mean_latency_seconds ∷ [])
          ∷ ""
          ∷ "Per-scenario:"
          ∷ [])
      ++ map scenario_line run.scenarios)

abbrev delta_line : String → MetricDelta → String
delta_line sign m = concat (
    "  "
    ∷ m.metric
    ∷ ": "
    ∷ fixed 3 (rounded m.baseline 10)
    ∷ " -> "
    ∷ fixed 3 (rounded m.candidate 10)
    ∷ " ("
    ∷ sign
    ∷ fixed 3 (rounded m.delta 10)
    ∷ ")"
    ∷ [])

-- A heading and its lines, if there are any.
abbrev section_of : String → List String → List String
section_of heading [] = []
section_of heading (line ∷ lines) = heading ∷ line ∷ lines

abbrev or_unmoved : List String → List String
or_unmoved [] = "No metric moved by more than the threshold." ∷ []
or_unmoved (line ∷ lines) = line ∷ lines

unfoldable pub format_regression_report : RegressionReport → String
format_regression_report report = join "\n" (
    concat
      ("=== Regression: " ∷ report.baseline_label ∷ " -> " ∷ report.candidate_label ∷ " ===" ∷ [])
    ∷ or_unmoved (
        section_of "REGRESSIONS:" (map (delta_line "-") report.regressions)
        ++ section_of "Improvements:" (map (delta_line "+") report.improvements)))
