-- ===== src/Eval/Runner/Whole.antt =====
-- What an evaluation by `run_eval` of src/opspilot/eval/runner.py comes to.
use opspilot_sre_incident_re.Prelude.{
  ℕ, ◌≤◌, ◌≡◌, refl, String, Option, none, some, List, [], ◌∷◌, map, keep, length, length-keep,
  rounded-le, All, find, str_eq, Result, ok, err, arith,
}
use native.Mathlib.Nat.{mul-le-mul_left}
use opspilot_sre_incident_re.Json.{Json, Fields, obj}
use opspilot_sre_incident_re.Models.{Scenario}
use opspilot_sre_incident_re.Agent.Client.{
  ChatFn, Attempt, response, transient, failure, call_with_retries,
}
use opspilot_sre_incident_re.Agent.Schemas.{SubmitDiagnosisArgs, InvestigationResult}
use opspilot_sre_incident_re.Agent.State.{World}
use opspilot_sre_incident_re.Seed.Spec.{ScenarioSpec}
use opspilot_sre_incident_re.Seed.{all_scenarios}
use opspilot_sre_incident_re.Eval.Deterministic.{selection_score, member, score_deterministic}
use opspilot_sre_incident_re.Eval.Judge.{
  JudgeScores, IsJudgement, JudgeRuntime, Judgement, scored, judge_error, unavailable,
  judge_investigation, judge_request, judged_input, judged_attempt, first_tool_input, parsed,
}
use opspilot_sre_incident_re.Eval.Aggregate.{ScenarioEvalResult, EvalRun}
use opspilot_sre_incident_re.Eval.Runner.{
  EvalApp, with_judgement, judged, scored_run, run_scenario, run_row, before_rest, run_specs,
  wanted, eval_run, run_selected, run_eval, eval_result,
}
use opspilot_sre_incident_re.Eval.Aggregate.Rates.{
  JudgedWell, IsScored, HasRates, aggregate-HasRates,
}

pub selection_score-le : (expected called : List String) → selection_score expected called ≤ 1000
unfolding selection_score
selection_score-le [] called = omega arith
selection_score-le (x ∷ expected) called =
    rounded-le _ (length (x ∷ expected)) 1000 (omega arith)
      (mul-le-mul_left 1000 (length-keep (λ t. member t called) (x ∷ expected)))

-- The judge's validator lets through only scores within the declared bounds.
abbrev pub IsStrict : JudgeRuntime → Type 0
IsStrict rt = (input : Json) (j : JudgeScores) → rt.validate_scores input ≡ ok j → IsJudgement j

-- A judgement's scores are within their bounds.
abbrev JudgesWell : Judgement → Type 0
JudgesWell (scored j) = IsJudgement j
JudgesWell _ = Unit

parsed-JudgesWell :
    (spec : ScenarioSpec) (r : Result String JudgeScores)
    → ((j : JudgeScores) → r ≡ ok j → IsJudgement j)
    → JudgesWell (parsed spec r)
parsed-JudgesWell spec (ok j) bounded = bounded j refl
parsed-JudgesWell spec (err e) bounded = tt

module _ (rt : JudgeRuntime) (strict : IsStrict rt) (spec : ScenarioSpec) where
  judged_input-JudgesWell : (o : Option Fields) → JudgesWell (judged_input rt spec o)
  judged_input-JudgesWell none = tt
  judged_input-JudgesWell (some input) =
      parsed-JudgesWell spec (rt.validate_scores (obj input)) (strict (obj input))

  judged_attempt-JudgesWell :
      {S : Type 0} (s : S) (o : Option (Attempt × List ℕ × S))
      → JudgesWell (judged_attempt rt spec s o).0
  judged_attempt-JudgesWell s none = tt
  judged_attempt-JudgesWell s (some (response r, pauses, s')) =
      judged_input-JudgesWell (first_tool_input r.content)
  judged_attempt-JudgesWell s (some (transient e, pauses, s')) = tt
  judged_attempt-JudgesWell s (some (failure e, pauses, s')) = tt

  judge_investigation-JudgesWell :
      {S : Type 0} (chat_fn : ChatFn S) (d : SubmitDiagnosisArgs) (s : S)
      → JudgesWell (judge_investigation rt chat_fn spec d s).0
  unfolding judge_investigation
  judge_investigation-JudgesWell chat_fn d s =
      judged_attempt-JudgesWell s
        (call_with_retries chat_fn rt.max_retries rt.backoff (judge_request rt spec d) s)

-- A result that belongs to the spec, with its fractions within the whole.
abbrev IsResultOf : ScenarioSpec → Result String ScenarioEvalResult → Type 0
IsResultOf spec (ok r) = IsScored r × (r.scenario_key ≡ spec.key)
IsResultOf spec (err e) = Unit

-- Results that belong to the specs one by one.
abbrev AreResultsOf : List ScenarioSpec → Result String (List ScenarioEvalResult) → Type 0
AreResultsOf specs (ok results) =
    All IsScored results × (map (λ r. r.scenario_key) results ≡ map (λ s. s.key) specs)
AreResultsOf specs (err e) = Unit

-- A run that has one scored result for each spec, in order, and rates that are parts of the whole.
abbrev pub IsWholeRun : List ScenarioSpec → Result String EvalRun → Type 0
IsWholeRun specs (ok run) =
    (run.scenario_keys ≡ map (λ s. s.key) specs)
    × (map (λ r. r.scenario_key) run.scenarios ≡ run.scenario_keys)
    × HasRates run.aggregate
IsWholeRun specs (err e) = Unit

module _ {S C : Type 0} (app : EvalApp S C) (strict : IsStrict app.judge_rt) where
  eval_result-IsScored :
      (spec : ScenarioSpec) (result : InvestigationResult) (j : Option JudgeScores)
      (e : Option String)
      → JudgedWell j
      → IsScored (eval_result app spec result j e)
  unfolding score_deterministic
  eval_result-IsScored spec result j e well = record {
    selection = selection_score-le _ _;
    judgement = well;
  }

  with_judgement-IsResultOf :
      (spec : ScenarioSpec) (result : InvestigationResult) (j : Judgement)
      → JudgesWell j
      → IsResultOf spec (with_judgement app spec result j)
  with_judgement-IsResultOf spec result (scored scores) well =
      (eval_result-IsScored spec result (some scores) none well, refl)
  with_judgement-IsResultOf spec result (judge_error e) well =
      (eval_result-IsScored spec result none (some e) tt, refl)
  with_judgement-IsResultOf spec result (unavailable e) well = tt

  judged-IsResultOf :
      (spec : ScenarioSpec) (result : InvestigationResult) (d : Option SubmitDiagnosisArgs)
      (chat_fn : Option (ChatFn S)) (w : World S)
      → IsResultOf spec (judged app spec result d chat_fn w).0
  judged-IsResultOf spec result none chat_fn w =
      (eval_result-IsScored spec result none none tt, refl)
  judged-IsResultOf spec result (some d) none w =
      (eval_result-IsScored spec result none none tt, refl)
  judged-IsResultOf spec result (some d) (some chat_fn) w =
      with_judgement-IsResultOf spec result _
        (judge_investigation-JudgesWell app.judge_rt strict spec chat_fn d w.provider)

  scored_run-IsResultOf :
      (spec : ScenarioSpec) (run : Result String InvestigationResult × C × World S)
      → IsResultOf spec (scored_run app spec run).0
  scored_run-IsResultOf spec (err e, c, w) = tt
  scored_run-IsResultOf spec (ok result, c, w) =
      judged-IsResultOf spec result result.diagnosis app.judge_chat_fn w

  run_row-IsResultOf :
      (row : Option Scenario) (spec : ScenarioSpec) (c : C) (w : World S)
      → IsResultOf spec (run_row app row spec c w).0
  unfolding run_scenario
  run_row-IsResultOf none spec c w = tt
  run_row-IsResultOf (some row) spec c w = scored_run-IsResultOf spec _

  before_rest-AreResultsOf :
      (spec : ScenarioSpec) (specs : List ScenarioSpec) (r : Result String ScenarioEvalResult)
      (rest : Result String (List ScenarioEvalResult) × C × World S) (stopped : C × World S)
      → IsResultOf spec r
      → AreResultsOf specs rest.0
      → AreResultsOf (spec ∷ specs) (before_rest app r rest stopped).0
  before_rest-AreResultsOf spec specs (err e) rest stopped h k = tt
  before_rest-AreResultsOf spec specs (ok r) (err e, c, w) stopped h k = tt
  before_rest-AreResultsOf spec specs (ok r) (ok results, c, w) stopped (good, named) (k, same) =
      ((good, k), rw named (rw same refl))

  run_specs-AreResultsOf :
      (specs : List ScenarioSpec) (c : C) (w : World S)
      → AreResultsOf specs (run_specs app specs c w).0
  unfolding run_specs
  run_specs-AreResultsOf [] c w = (tt, refl)
  run_specs-AreResultsOf (spec ∷ specs) c w =
      let row = find (λ s. str_eq s.key spec.key) app.scenarios in
      let next = run_row app row spec c w in
      before_rest-AreResultsOf spec specs next.0 (run_specs app specs next.1 next.2)
        (next.1, next.2) (run_row-IsResultOf row spec c w)
        (run_specs-AreResultsOf specs next.1 next.2)

  eval_run-IsWholeRun :
      (label : String) (specs : List ScenarioSpec)
      (rs : Result String (List ScenarioEvalResult) × C × World S)
      → AreResultsOf specs rs.0
      → IsWholeRun specs (eval_run app label specs rs).0
  eval_run-IsWholeRun label specs (err e, c, w) h = tt
  eval_run-IsWholeRun label specs (ok results, c, w) (good, same) =
      (refl, same, aggregate-HasRates results good)

  run_selected-IsWholeRun :
      (label : String) (specs : List ScenarioSpec) (c : C) (w : World S)
      → IsWholeRun specs (run_selected app label specs c w).0
  run_selected-IsWholeRun label [] c w = tt
  run_selected-IsWholeRun label (spec ∷ specs) c w =
      eval_run-IsWholeRun label (spec ∷ specs) _ (run_specs-AreResultsOf (spec ∷ specs) c w)

  -- Whatever the agent and the judge do, an evaluation either raises or has one result for each
  -- wanted scenario of the dataset, in the order of the dataset and under its key, and every rate
  -- and every mean of scores that it reports is a part of the whole, if the judge's validator keeps
  -- the bounds that the scores declare.
  pub run_eval-IsWholeRun :
      (scenario_keys : Option (List String)) (label : String) (c : C) (w : World S)
      → IsWholeRun
          (keep (wanted app scenario_keys) all_scenarios)
          (run_eval app scenario_keys label c w).0
  unfolding run_eval
  run_eval-IsWholeRun scenario_keys label c w = run_selected-IsWholeRun label _ c w
