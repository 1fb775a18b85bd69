-- ===== src/Eval/Judge.antt =====
-- src/opspilot/eval/judge.py: the scores that a second model gives. The judge's chat function, the
-- validator of `JudgeScores` and the texts of numbers are parameters; scores are millionths.
use opspilot_sre_incident_re.Prelude.{
  ℕ, ◌≤◌, String, Bool, Option, none, some, List, [], ◌∷◌, concat, Result, ok, err,
}
use opspilot_sre_incident_re.Json.{Json, Fields, text, arr, obj, end, field, of_texts, dumps}
use opspilot_sre_incident_re.Agent.Client.{
  ContentBlock, text_block, tool_use_block, ChatRequest, Attempt, response, transient, failure,
  ChatFn, call_with_retries,
}
use opspilot_sre_incident_re.Agent.Schemas.{SubmitDiagnosisArgs, action_name}
use opspilot_sre_incident_re.Agent.State.{user_message}
use opspilot_sre_incident_re.Seed.Spec.{ScenarioSpec}

pub record JudgeScores : Type 0 where
  pub diagnosis_accuracy : ℕ
  pub diagnosis_accuracy_reasoning : String
  pub evidence_groundedness : ℕ
  pub evidence_groundedness_reasoning : String
  pub remediation_quality : ℕ
  pub remediation_quality_reasoning : String
  pub escalation_correct : Bool
  pub escalation_reasoning : String

abbrev pub score_unit : ℕ
score_unit = 1000000

-- The bounds that the fields of `JudgeScores` declare: what `model_validate` lets through.
pub record IsJudgement (j : JudgeScores) : Type 0 where
  pub accuracy_at_most_one : j.diagnosis_accuracy ≤ score_unit
  pub groundedness_at_most_one : j.evidence_groundedness ≤ score_unit
  pub quality_at_most_one : j.remediation_quality ≤ score_unit

-- What the judge takes from the libraries: the validator, the schema it sends, and `str` of a
-- confidence.
pub record JudgeRuntime : Type 0 where
  pub validate_scores : Json → Result String JudgeScores
  pub input_schema : Json
  pub confidence_text : ℕ → String
  pub max_retries : ℕ
  pub backoff : ℕ

abbrev pub judge_system_prompt : String
judge_system_prompt =
    "You are an impartial evaluator for OpsPilot, an SRE incident-investigation agent. You will be given a scenario's ground truth and the agent's actual diagnosis for that scenario. Score the agent's output on each requested dimension independently — a low score on one dimension must not bias another. Be specific in your reasoning for each score. Call submit_judgment exactly once with all four scores."

-- How judging ends: with scores, with a `JudgeError`, or with an exception of the provider.
pub data Judgement : Type 0 where
  scored : JudgeScores → Judgement
  judge_error : String → Judgement
  unavailable : String → Judgement

-- The input of the first tool call of a response.
abbrev pub first_tool_input : List ContentBlock → Option Fields
first_tool_input [] = none
first_tool_input (text_block s ∷ more) = first_tool_input more
first_tool_input (tool_use_block id name input ∷ more) = some input

-- What validating a submitted input comes to.
abbrev pub parsed : ScenarioSpec → Result String JudgeScores → Judgement
parsed scenario (ok scores) = scored scores
parsed scenario (err e) =
    judge_error (concat ("Judge for '" ∷ scenario.key ∷ "' returned invalid scores: " ∷ e ∷ []))

module _ (rt : JudgeRuntime) where
  abbrev pub submit_judgment_tool : Json
  submit_judgment_tool = obj (
      field "name" (text "submit_judgment") (
        field "description"
          (text "Submit your independent scores for this investigation against its ground truth.")
          (field "input_schema" rt.input_schema end)))

  -- `_build_judge_prompt`
  unfoldable pub build_judge_prompt : ScenarioSpec → SubmitDiagnosisArgs → String
  build_judge_prompt scenario diagnosis = concat (
      "Scenario: "
      ∷ scenario.title
      ∷ "\n\nGround truth root cause: "
      ∷ scenario.ground_truth.expected_diagnosis
      ∷ "\nGround truth expected action: "
      ∷ scenario.ground_truth.expected_action
      ∷ "\nGround truth expected policy verdict: "
      ∷ scenario.ground_truth.expected_policy_verdict
      ∷ "\n\nAgent's actual diagnosis: "
      ∷ diagnosis.diagnosis
      ∷ "\nAgent's cited evidence: "
      ∷ dumps (arr (of_texts diagnosis.evidence))
      ∷ "\nAgent's recommended action: "
      ∷ action_name diagnosis.recommended_action
      ∷ "\nAgent's stated confidence: "
      ∷ rt.confidence_text diagnosis.confidence
      ∷ "\n"
      ∷ [])

  -- The scores of a submitted input.
  abbrev pub judged_input : ScenarioSpec → Option Fields → Judgement
  judged_input scenario none =
      judge_error (concat ("Judge for '" ∷ scenario.key ∷ "' did not call submit_judgment." ∷ []))
  judged_input scenario (some input) = parsed scenario (rt.validate_scores (obj input))

  -- What the last attempt of the call comes to.
  abbrev pub judged_attempt :
      {S : Type 0} → ScenarioSpec → S → Option (Attempt × List ℕ × S) → Judgement × S
  judged_attempt scenario s none = (unavailable "diverged", s)
  judged_attempt scenario s (some (response r, pauses, s')) =
      (judged_input scenario (first_tool_input r.content), s')
  judged_attempt scenario s (some (transient e, pauses, s')) = (unavailable e, s')
  judged_attempt scenario s (some (failure e, pauses, s')) = (unavailable e, s')

  abbrev pub judge_request : ScenarioSpec → SubmitDiagnosisArgs → ChatRequest
  judge_request scenario diagnosis = record {
    messages = user_message (build_judge_prompt scenario diagnosis) ∷ [];
    tools = submit_judgment_tool ∷ [];
    system = judge_system_prompt;
  }

  unfoldable pub judge_investigation :
      {S : Type 0} → ChatFn S → ScenarioSpec → SubmitDiagnosisArgs → S → Judgement × S
  judge_investigation chat_fn scenario diagnosis s =
      judged_attempt scenario s
        (call_with_retries chat_fn rt.max_retries rt.backoff (judge_request scenario diagnosis) s)
