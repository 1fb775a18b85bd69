-- ===== src/Eval/Runner.antt =====
-- src/opspilot/eval/runner.py: the golden dataset run through the investigation. The clock readings, the
-- trace ids and the session's tables are in `EvalApp`.
pub mod Whole
use opspilot_sre_incident_re.Prelude.{
  ℕ, String, Bool, true, Option, none, some, List, [], ◌∷◌, map, str_eq, keep, any, find, concat,
  Result, ok, err,
}
use opspilot_sre_incident_re.Config.{Settings}
use opspilot_sre_incident_re.Models.{Scenario}
use opspilot_sre_incident_re.Memory.{MemoryOrder, MemoryTable}
use opspilot_sre_incident_re.Agent.Client.{ChatFn}
use opspilot_sre_incident_re.Agent.Schemas.{SubmitDiagnosisArgs, status_name, InvestigationResult}
use opspilot_sre_incident_re.Agent.Tools.{Environment}
use opspilot_sre_incident_re.Agent.State.{World}
use opspilot_sre_incident_re.Agent.Graph.{Engine, build_deps, run_investigation}
use opspilot_sre_incident_re.Seed.Spec.{ScenarioSpec}
use opspilot_sre_incident_re.Seed.{all_scenarios}
use opspilot_sre_incident_re.Eval.Deterministic.{score_deterministic}
use opspilot_sre_incident_re.Eval.Judge.{
  JudgeScores, JudgeRuntime, Judgement, scored, judge_error, unavailable, judge_investigation,
}
use opspilot_sre_incident_re.Eval.Aggregate.{ScenarioEvalResult, EvalRun, aggregate}

-- What an evaluation is given. `started` is the text of the clock before a scenario, `latency` the
-- microseconds that its investigation took.
pub record EvalApp (S C : Type 0) : Type 0 where
  pub settings : Settings
  pub order : MemoryOrder
  pub engine : Engine S C
  pub judge_rt : JudgeRuntime
  pub session : Environment
  pub scenarios : List Scenario
  pub memory : MemoryTable
  pub agent_chat_fn : ChatFn S
  pub judge_chat_fn : Option (ChatFn S)
  pub max_steps : Option ℕ
  pub max_cost_usd : Option ℕ
  pub memory_enabled : Bool
  pub started : ScenarioSpec → String
  pub latency : ScenarioSpec → ℕ
  pub trace : ScenarioSpec → Option String
  pub now : ℕ

module _ {S C : Type 0} (app : EvalApp S C) where
  abbrev pub eval_result :
      ScenarioSpec → InvestigationResult → Option JudgeScores → Option String → ScenarioEvalResult
  eval_result spec result judge error = record {
    scenario_key = spec.key;
    status = status_name result.status;
    deterministic = score_deterministic spec result (app.latency spec);
    judge = judge;
    judge_error = error;
    langfuse_trace_id = result.langfuse_trace_id;
  }

  -- A `JudgeError` is kept in the result; an exception of the judge's provider is not caught.
  abbrev pub with_judgement :
      ScenarioSpec → InvestigationResult → Judgement → Result String ScenarioEvalResult
  with_judgement spec result (scored scores) = ok (eval_result spec result (some scores) none)
  with_judgement spec result (judge_error e) = ok (eval_result spec result none (some e))
  with_judgement spec result (unavailable e) = err e

  abbrev pub judged :
      ScenarioSpec
      → InvestigationResult
      → Option SubmitDiagnosisArgs
      → Option (ChatFn S)
      → World S
      → Result String ScenarioEvalResult × World S
  judged spec result (some diagnosis) (some chat_fn) w =
      let (judgement, provider) =
        judge_investigation app.judge_rt chat_fn spec diagnosis w.provider in
      (with_judgement spec result judgement, record w { provider = provider })
  judged spec result _ _ w = (ok (eval_result spec result none none), w)

  abbrev pub scored_run :
      ScenarioSpec
      → Result String InvestigationResult × C × World S
      → Result String ScenarioEvalResult × C × World S
  scored_run spec (err e, c, w) = (err e, c, w)
  scored_run spec (ok result, c, w) =
      let (r, w') = judged spec result result.diagnosis app.judge_chat_fn w in (r, c, w')

  unfoldable pub run_scenario :
      Scenario → ScenarioSpec → C → World S → Result String ScenarioEvalResult × C × World S
  run_scenario scenario_row spec c w = scored_run spec (
      run_investigation app.engine
        (build_deps app.settings app.order app.session app.memory scenario_row app.agent_chat_fn
          app.max_steps app.max_cost_usd (concat ("eval-" ∷ spec.key ∷ "-" ∷ app.started spec ∷ []))
          app.memory_enabled)
        (app.trace spec) c w)

  abbrev pub run_row :
      Option Scenario → ScenarioSpec → C → World S → Result String ScenarioEvalResult × C × World S
  run_row none spec c w = (err "NoResultFound", c, w)
  run_row (some scenario_row) spec c w = run_scenario scenario_row spec c w

  -- An exception ends the loop.
  abbrev pub before_rest :
      Result String ScenarioEvalResult
      → (Result String (List ScenarioEvalResult) × C × World S)
      → C × World S
      → Result String (List ScenarioEvalResult) × C × World S
  before_rest (err e) rest (c, w) = (err e, c, w)
  before_rest (ok r) (ok results, c, w) stopped = (ok (r ∷ results), c, w)
  before_rest (ok r) (err e, c, w) stopped = (err e, c, w)

  -- The loop of `run_eval`.
  unfoldable pub run_specs :
      List ScenarioSpec → C → World S → Result String (List ScenarioEvalResult) × C × World S
  unfolding run_scenario
  run_specs [] c w = (ok [], c, w)
  run_specs (spec ∷ specs) c w =
      let (r, c', w') = run_row (find (λ s. str_eq s.key spec.key) app.scenarios) spec c w in
      before_rest r (run_specs specs c' w') (c', w')

  -- `scenario_keys is None or s.key in scenario_keys`
  abbrev pub wanted : Option (List String) → ScenarioSpec → Bool
  wanted none spec = true
  wanted (some keys) spec = any (λ k. str_eq spec.key k) keys

  abbrev pub eval_run :
      String
      → List ScenarioSpec
      → Result String (List ScenarioEvalResult) × C × World S
      → Result String EvalRun × C × World S
  eval_run label specs (err e, c, w) = (err e, c, w)
  eval_run label specs (ok results, c, w) = (
    ok (record {
      run_label = label;
      started_at = app.now;
      scenario_keys = map (λ s. s.key) specs;
      scenarios = results;
      aggregate = aggregate results;
    }),
    c,
    w,
  )

  abbrev pub run_selected :
      String → List ScenarioSpec → C → World S → Result String EvalRun × C × World S
  run_selected label [] c w = (err "ValueError: No scenarios matched", c, w)
  run_selected label (spec ∷ specs) c w =
      eval_run label (spec ∷ specs) (run_specs (spec ∷ specs) c w)

  unfoldable pub run_eval :
      Option (List String) → String → C → World S → Result String EvalRun × C × World S
  unfolding run_specs
  run_eval scenario_keys label c w =
      run_selected label (keep (wanted scenario_keys) all_scenarios) c w
