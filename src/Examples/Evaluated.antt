-- ===== src/Examples/Evaluated.antt =====
-- The properties of src/opspilot/eval and of src/opspilot/agent/tracing.py, applied to the example.
use opspilot_sre_incident_re.Prelude.{
  ℕ, String, ◌≡◌, refl, ap, subst, true, none, some, List, [], ◌∷◌, keep, Result, ok, err,
  if◌then◌else◌, str_eq, arith,
}
use opspilot_sre_incident_re.Json.{obj, end}
use opspilot_sre_incident_re.Config.{default_settings}
use opspilot_sre_incident_re.Seed.{all_scenarios}
use opspilot_sre_incident_re.Agent.Tracing.{
  Value, dict_value, text_value, entry, no_entries, redact, to_jsonable,
}
use opspilot_sre_incident_re.Agent.Tracing.Redaction.{is_clean, redact-to_jsonable}
use opspilot_sre_incident_re.Eval.Judge.{JudgeScores, IsJudgement, JudgeRuntime}
use opspilot_sre_incident_re.Eval.Aggregate.{EvalRun, aggregate}
use opspilot_sre_incident_re.Eval.Runner.{EvalApp, wanted, run_eval}
use opspilot_sre_incident_re.Eval.Runner.Whole.{IsStrict, IsWholeRun, run_eval-IsWholeRun}
use opspilot_sre_incident_re.Eval.Storage.{RunCodec, RunsDir, save_run, load_run_by_label}
use opspilot_sre_incident_re.Eval.Storage.Reading.{load_run_by_label-save_run}
use opspilot_sre_incident_re.Examples.{memory, as_stored, outage, tables, rt, scripted, world}
use opspilot_sre_incident_re.Examples.StepEngine.{Checkpoints, step_engine}

abbrev fair : JudgeScores
fair = record {
  diagnosis_accuracy = 900000;
  diagnosis_accuracy_reasoning = "The pool is named.";
  evidence_groundedness = 1000000;
  evidence_groundedness_reasoning = "The metric is there.";
  remediation_quality = 800000;
  remediation_quality_reasoning = "A rollback fits.";
  escalation_correct = true;
  escalation_reasoning = "Nothing to escalate.";
}

fair-IsJudgement : IsJudgement fair
fair-IsJudgement = record {
  accuracy_at_most_one = omega arith;
  groundedness_at_most_one = omega arith;
  quality_at_most_one = omega arith;
}

abbrev fair_judge : JudgeRuntime
fair_judge = record {
  validate_scores = λ input. ok fair;
  input_schema = obj end;
  confidence_text = λ c. "0.9";
  max_retries = 2;
  backoff = 1;
}

abbrev scores_of : Result String JudgeScores → JudgeScores
scores_of (ok j) = j
scores_of (err e) = fair

fair_judge-IsStrict : IsStrict fair_judge
fair_judge-IsStrict input j e = subst IsJudgement (ap scores_of e) fair-IsJudgement

abbrev pub eval_app : EvalApp ℕ Checkpoints
eval_app = record {
  settings = default_settings;
  order = as_stored;
  engine = step_engine rt {S = ℕ};
  judge_rt = fair_judge;
  session = tables;
  scenarios = outage ∷ [];
  memory = memory;
  agent_chat_fn = scripted;
  judge_chat_fn = some scripted;
  max_steps = none;
  max_cost_usd = none;
  memory_enabled = true;
  started = λ spec. "12.5";
  latency = λ spec. 2500000;
  trace = λ spec. none;
  now = 100000;
}

abbrev pub no_threads : Checkpoints
no_threads t = none

abbrev wanted_keys : List String
wanted_keys = "checkout-deploy-outage" ∷ []

run_eval-IsWholeRun_example :
    IsWholeRun
      (keep (wanted eval_app (some wanted_keys)) all_scenarios)
      (run_eval eval_app (some wanted_keys) "first" no_threads world).0
run_eval-IsWholeRun_example =
    run_eval-IsWholeRun eval_app fair_judge-IsStrict (some wanted_keys) "first" no_threads world

abbrev pub empty_run : EvalRun
empty_run = record {
  run_label = "before";
  started_at = 0;
  scenario_keys = [];
  scenarios = [];
  aggregate = aggregate [];
}

-- A codec that has seen one run.
abbrev codec : RunCodec
codec = record { model_dump_json = λ run. "{}"; model_validate_json = λ content. ok empty_run }

abbrev pub runs_dir : RunsDir
runs_dir = some (record { label = "older"; mtime = 1; content = "{}" } ∷ [])

load_run_by_label-save_run_example :
    load_run_by_label codec "before" (save_run codec 5 empty_run runs_dir) ≡ (
      if str_eq "before" "before"
      then ok (some empty_run)
      else load_run_by_label codec "before" runs_dir)
load_run_by_label-save_run_example =
    load_run_by_label-save_run codec 5 empty_run "before" runs_dir refl

abbrev payload : Value
payload =
    dict_value (entry "X-API-Key" (text_value "s3cret") (entry "step" (text_value "1") no_entries))

redact-to_jsonable_example :
    (is_clean (redact (to_jsonable payload)) ≡ true)
    × (redact (redact (to_jsonable payload)) ≡ redact (to_jsonable payload))
redact-to_jsonable_example = redact-to_jsonable payload
