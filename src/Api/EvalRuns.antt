-- ===== src/Api/EvalRuns.antt =====
-- src/opspilot/routers/eval_runs.py, with its responses of src/opspilot/schemas.py: the saved evaluation
-- runs. A file that does not parse ends a request in an exception.
use opspilot_sre_incident_re.Prelude.{
  ℕ, String, Option, none, some, List, [], ◌∷◌, map, Result, ok, err,
}
use opspilot_sre_incident_re.Agent.Tracing.{get_trace_url}
use opspilot_sre_incident_re.Eval.Aggregate.{ScenarioEvalResult, AggregateScores, EvalRun}
use opspilot_sre_incident_re.Eval.Storage.{RunCodec, RunsDir, list_run_labels, load_run_by_label}
use opspilot_sre_incident_re.Incidents.Applying.{Reply, refused, broken, shown}

pub record EvalRunSummary : Type 0 where
  pub run_label : String
  pub started_at : ℕ
  pub scenario_count : ℕ
  pub completion_rate : ℕ
  pub policy_verdict_accuracy : ℕ
  pub mean_diagnosis_accuracy : Option ℕ
  pub total_cost_usd : ℕ
  pub mean_latency_seconds : ℕ

-- A scenario's result and the link to its trace.
pub record EvalScenarioResultOut : Type 0 where
  pub result : ScenarioEvalResult
  pub langfuse_trace_url : Option String

pub record EvalRunOut : Type 0 where
  pub run_label : String
  pub started_at : ℕ
  pub scenario_keys : List String
  pub scenarios : List EvalScenarioResultOut
  pub aggregate : AggregateScores

abbrev pub run_summary : EvalRun → EvalRunSummary
run_summary run = record {
  run_label = run.run_label;
  started_at = run.started_at;
  scenario_count = run.aggregate.scenario_count;
  completion_rate = run.aggregate.completion_rate;
  policy_verdict_accuracy = run.aggregate.policy_verdict_accuracy;
  mean_diagnosis_accuracy = run.aggregate.mean_diagnosis_accuracy;
  total_cost_usd = run.aggregate.total_cost_usd;
  mean_latency_seconds = run.aggregate.mean_latency_seconds;
}

-- The body of the loop, in front of the summaries behind it.
abbrev pub with_summary :
    Result String (Option EvalRun) → Reply (List EvalRunSummary) → Reply (List EvalRunSummary)
with_summary (err e) rest = broken e
with_summary (ok none) rest = rest
with_summary (ok (some run)) (shown summaries) = shown (run_summary run ∷ summaries)
with_summary (ok (some run)) rest = rest

module _ (codec : RunCodec) where
  abbrev pub summaries_of : RunsDir → List String → Reply (List EvalRunSummary)
  summaries_of runs_dir [] = shown []
  summaries_of runs_dir (label ∷ labels) =
      with_summary (load_run_by_label codec label runs_dir) (summaries_of runs_dir labels)

  -- `GET /eval-runs`
  unfoldable pub list_eval_runs : RunsDir → Reply (List EvalRunSummary)
  list_eval_runs runs_dir = summaries_of runs_dir (list_run_labels runs_dir)

  module _ (resolve : String → Result String (Option String)) where
    abbrev pub run_out : EvalRun → EvalRunOut
    run_out run = record {
      run_label = run.run_label;
      started_at = run.started_at;
      scenario_keys = run.scenario_keys;
      scenarios =
          map
            (λ s. record {
              result = s;
              langfuse_trace_url = get_trace_url resolve s.langfuse_trace_id;
            })
            run.scenarios;
      aggregate = run.aggregate;
    }

    -- `GET /eval-runs/{label}`
    unfoldable pub get_eval_run : String → RunsDir → Reply EvalRunOut
    get_eval_run label runs_dir = elim (load_run_by_label codec label runs_dir) [
      | err e ↦ broken e
      | ok none ↦ refused 404
      | ok (some run) ↦ shown (run_out run)
    ]
